-- ===== src/Btree.antt =====
-- crates/rustsqlite-core/src/btree: the cells of b-tree pages, and the pointer map.
pub mod Ptrmap
pub mod PageStore
pub mod Cell
pub mod Overflow
