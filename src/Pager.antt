-- ===== src/Pager.antt =====
-- crates/rustsqlite-core/src/pager: the rollback journal, the write-ahead log, the recovery from a
-- crash, transactions and savepoints.
pub mod Journal
pub mod JournalMode
pub mod Recovery
pub mod State
pub mod Pages
pub mod Freelist
pub mod Txn
pub mod Savepoint
pub mod Transaction
pub mod Journaling
pub mod Crash
pub mod Store
pub mod WalIndex
pub mod Wal
pub mod WalMode
