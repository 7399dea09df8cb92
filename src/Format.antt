-- ===== src/Format.antt =====
-- crates/rustsqlite-core/src/format: the on-disk codecs.
pub mod Varint
pub mod TextEncoding
pub mod Header
pub mod Wal
pub mod WalIndex
pub mod SerialType
pub mod Record
