-- ===== src/Lexer/Literals.antt =====
-- Quoted tokens: what a printed literal lexes to.
pub mod Scan
pub mod RoundTrip
