-- ===== src/Lexer/Comments.antt =====
-- What the comments of a text take with them.
pub mod Lines
pub mod Blocks
