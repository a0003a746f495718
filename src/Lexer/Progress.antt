-- ===== src/Lexer/Progress.antt =====
-- Every reader moves the cursor by bumps alone, and the token stream ends.
pub mod Ahead
pub mod Readers
pub mod Tokens
pub mod Scans
pub mod Termination
pub mod Positions
pub mod Peeking
pub mod Fuel
