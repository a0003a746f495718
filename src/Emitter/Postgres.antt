-- ===== src/Emitter/Postgres.antt =====
-- The PostgreSQL emitter (crates/postgresql-emitter): expressions and SELECT statements
-- (src/mappers/expression.rs and select_statement.rs). `format!` is the concatenation of its parts.
pub mod Words
pub mod Expression
pub mod Statement
pub mod Reader
pub mod Quotes
pub mod Carried
