-- ===== src/Lexer.antt =====
-- The crate tsql-lexer: cursor, readers, and the token stream with error recovery.
pub mod Cursor
pub mod Error
pub mod Token
pub mod Unicode
pub mod Read
pub mod Stream
pub mod Progress
pub mod Literals
pub mod Comments
