-- ===== src/Func.antt =====
-- crates/rustsqlite-core/src/func: matching text.
pub mod Like
