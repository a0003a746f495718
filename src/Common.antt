-- ===== src/Common.antt =====
-- Common SQL, the tree between the dialects (crates/common-sql).
pub mod Ddl
pub mod Ast
pub mod Statement
pub mod Operators
