-- ===== src/Emitter.antt =====
-- How the emitters write names and strings (crates/postgresql-emitter).
pub mod Reserved
pub mod Quoting
pub mod Postgres
