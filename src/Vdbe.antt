-- ===== src/Vdbe.antt =====
-- crates/rustsqlite-core/src/vdbe: the order of values and the sorter.
pub mod Compare
pub mod Sorter
