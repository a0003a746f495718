-- ===== src/Translate.antt =====
-- The translation of the syntax tree of T-SQL to Common SQL
-- (crates/tsql-parser/src/ast/to_common_sql.rs).
pub mod Fallible
pub mod Operators
pub mod Expression
pub mod Definition
pub mod Statement
pub mod Meaning
pub mod Kept
pub mod Lost
pub mod Unequal
