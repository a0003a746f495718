-- ===== src/SchemaDiff.antt =====
-- The comparison of two catalogs (crates/schema-diff).
pub mod Catalog
pub mod Maps
pub mod Diff
pub mod Laws
pub mod Swap
pub mod Lookup
pub mod Names
