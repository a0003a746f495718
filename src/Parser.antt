-- ===== src/Parser.antt =====
-- The parser (crates/tsql-parser).
pub mod Error
pub mod Buffer
pub mod Ast
pub mod Monad
pub mod Expression
pub mod Statements
