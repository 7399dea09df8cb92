-- ===== src/Vfs.antt =====
-- crates/rustsqlite-core/src/vfs: the file locks of one path, and files in memory.
pub mod Lock
pub mod MemFile
