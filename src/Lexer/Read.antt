-- ===== src/Lexer/Read.antt =====
-- The readers of crates/tsql-lexer/src/lexer.rs that look at the cursor alone. Each takes the lexer's
-- `input` and the cursor at the first character of the token.
pub mod Names
pub mod Quoted
pub mod Numbers
pub mod Symbols
pub mod Comments
