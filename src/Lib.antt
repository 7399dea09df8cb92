-- ===== src/Lib.antt =====
-- A verification library for Rustqlite, the engine under crates/rustsqlite-core.
--
-- Parts and files. The names of definitions are those of the source, in snake_case.
-- - Base: names shared by all modules, byte sequences (Base/Bytes), bit operations as arithmetic
--   (Base/Bits), casts between machine integers (Base/Words).
-- - Error: crates/rustsqlite-core/src/error.rs. An operation that returns `Result<T>` is a function
--   into `Result`; `?` is the bind of a do block, and an early `return Err` is a `guard`.
-- - Types: crates/rustsqlite-core/src/types: Value (value.rs), Affinity (affinity.rs) and Collation
--   (collation.rs). An `i64` is an integer, an `f64` its 64 bits, a `String` the list of its UTF-8
--   bytes; what the standard library knows of Unicode is a parameter.
-- - Format: crates/rustsqlite-core/src/format. Varint (varint.rs), SerialType (serial_type.rs), Record
--   (record.rs), Header and TextEncoding (header.rs), Wal (wal.rs),
--   WalIndex (wal_index.rs).
--   A buffer is a list of numbers below 256; a write into a buffer is `copy_at`.
-- - Vfs: crates/rustsqlite-core/src/vfs. Lock (mod.rs) is the lock state that the handles on a path
--   share, Lock/Handles the handles of memvfs.rs as a step relation, MemFile the bytes of a file.
-- - Btree: crates/rustsqlite-core/src/btree. Cell parses the cells of cell.rs, Overflow builds them
--   with their overflow chains and assembles the payload, also for cursor.rs. PageStore is the
--   interface to the pager: its operations and the laws that the proofs rely on, which Pager/Store
--   proves of the pager. Ptrmap is the
--   pointer map of ptrmap.rs, over the pager.
-- - Pager: crates/rustsqlite-core/src/pager. Journal is the format of the rollback journal
--   (journal.rs). Of mod.rs: Recovery plays a hot journal back; State is the pager
--   with the files of its path, Pages reads and writes pages and captures pre-images, Freelist
--   allocates and frees pages, Txn and Savepoint are the write transactions and the savepoints.
--   A method is an `Action`: a function from the state to the state and a result, where what was
--   changed before an error stays changed. Calls of the file system do not fail, except that a lock is
--   refused; Recovery/Failing has the recovery with calls that fail. The mutexes are left out: one
--   thread uses the pager. The page count is a `u32`, whose overflow is left out.
--   Transaction holds what every step of a transaction keeps, Journaling that the journal is in
--   step with the pages, Crash the files that a crash during a commit leaves, and recoveries that
--   fail. `auto_vacuum_commit` is a parameter of `commit`, and the random seed of a journal an
--   argument of `begin_write`.
-- - Pager/WalIndex, Pager/Wal and Pager/WalMode: the write-ahead log, of pager/wal.rs and
--   pager/mod.rs. WalIndex is the hash index that finds the last frame of a page (`append_frame`,
--   `find_frame`). Wal recovers the log of a file when it is opened, Wal/Write appends the frames of a
--   commit (`write_frames`), Wal/Checkpoint copies frames into the database file and resets the log.
--   JournalMode is the names of the modes, WalMode the pager over a log (reading, committing,
--   checkpointing, opening), and WalMode/Switch the change of the journal mode. A file is the list of
--   its bytes; syncs are left out, and the random salts of a log that is started are arguments.
--   Wal/Log says when a log in memory agrees with its file, Wal/Reading what a file holds for each
--   page. Where the running sums are needed before they are set, and the code panics, the model takes
--   (0, 0).
-- - Func: crates/rustsqlite-core/src/func. Like is the matcher of like.rs, on lists of characters.
-- - Vdbe: crates/rustsqlite-core/src/vdbe. Compare is the order of values (compare.rs), with the
--   operations on `f64` as a parameter, and Sorter the sorter of sorter.rs, with `sort_by` of the
--   standard library as a parameter.
-- - Tests: runs on concrete inputs, and the theorems at concrete inputs.
--
-- Records are stored in the cells of b-tree pages: the record codec calls the serial types for each
-- value and the varints for each code.
--
-- Cells spill to pages that they allocate and write through the pager, which keeps pre-images in the
-- journal and takes the locks of the files.
--
-- Fuel. `decode_loop` is given one round more than the header has bytes, and each round reads one
-- byte at least. The loops of `varint_len` and `write_varint` are given as many rounds as a `u64` or
-- the buffer of nine slots has groups. `header_width` is given nine rounds: a varint has nine bytes
-- at most. `spill` is given as many rounds as the tail has bytes, `collect` as many as the payload,
-- `cksum_loop` as many as the page, and `compare_loop` one more than the pattern has characters: each
-- round takes at least one. `replay` is given the record count of the journal. `extend`, the loop of
-- `allocate_page`, is given three rounds: of three pages in a row one is not reserved. A walk through the hash table of an index
-- block (`probe`, `chain`) is given its 8192 slots, as the code bounds it, and `add_blocks` the number
-- of blocks that are missing. `recover_loop` is given the number of frames that fit in the file, and
-- `copy_loop` the number of frames of the log, which are the bounds of the loops in the code.
--
-- Not modelled: the creation of a database, `begin_write` and the freelist in WAL mode, files of shared
-- memory, auto-vacuum, the headers and the balancing of b-tree pages, the affinities of values, and the
-- scalar functions other than LIKE and GLOB;
-- parsing and compiling of SQL, the virtual machine, the C interface, the shell, and system calls,
-- which use the modelled parts, and most of whose code is dispatch over them.
pub mod Base
pub mod Error
pub mod Types
pub mod Format
pub mod Vfs
pub mod Pager
pub mod Btree
pub mod Func
pub mod Vdbe
pub mod Tests
