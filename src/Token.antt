-- ===== src/Token.antt =====
-- The crate tsql-token: kinds, positions and keywords.
pub mod Kind
pub mod Tag
pub mod Reserved
pub mod Position
pub mod Keyword
