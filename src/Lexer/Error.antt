-- ===== src/Lexer/Error.antt =====
-- Lexical errors (crates/tsql-lexer/src/error.rs).
use tsqlremaker.Base.{ℕ, Option, Text}
use tsqlremaker.Token.Position.{Position}

pub data BracketType : Type 0 where
  square double_quote : BracketType

pub data LexError : Type 0 where
  unterminated_string : Position → ℕ → Option Text → LexError
  unterminated_block_comment : Position → ℕ → Option Text → LexError
  unterminated_identifier : Position → BracketType → Option Text → LexError
  invalid_character : ℕ → Position → Option Text → LexError
  unexpected_eof : Position → Text → Option Text → LexError

-- `LexError::position`
unfoldable pub position : LexError → Position
position (unterminated_string start quote_char excerpt) = start
position (unterminated_block_comment start depth excerpt) = start
position (unterminated_identifier start bracket_type excerpt) = start
position (invalid_character ch at excerpt) = at
position (unexpected_eof at expected excerpt) = at

-- `LexError::source_excerpt`
unfoldable pub source_excerpt : LexError → Option Text
source_excerpt (unterminated_string start quote_char excerpt) = excerpt
source_excerpt (unterminated_block_comment start depth excerpt) = excerpt
source_excerpt (unterminated_identifier start bracket_type excerpt) = excerpt
source_excerpt (invalid_character ch at excerpt) = excerpt
source_excerpt (unexpected_eof at expected excerpt) = excerpt

-- `Result<A, LexError>`
pub data Result {ℓ} (A : Type ℓ) : Type ℓ where
  ok : A → Result A
  err : LexError → Result A
