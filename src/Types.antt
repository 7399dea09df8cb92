-- ===== src/Types.antt =====
-- crates/rustsqlite-core/src/types: values, affinities and collations.
pub mod Value
pub mod Affinity
pub mod Collation
