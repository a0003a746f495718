-- ===== src/Server.antt =====
-- The language server (crates/ase-ls-core).
pub mod LineIndex
pub mod Incremental
