-- ===== src/Parser/Expression.antt =====
-- The expression parser (crates/tsql-parser/src/expression).
pub mod Power
pub mod Calls
pub mod Function
pub mod Subquery
pub mod Special
pub mod Prefix
pub mod Pratt
pub mod Fuel
pub mod Panic
pub mod Grammar
pub mod Depth
pub mod Termination
