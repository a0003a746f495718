-- ===== src/Parser/Error.antt =====
-- Errors of the parser (crates/tsql-parser/src/error.rs).
use tsqlremaker.Base.{ℕ, Text, List}
use tsqlremaker.Token.Kind.{TokenKind}
use tsqlremaker.Token.Position.{Position, Span}

pub data ParseError : Type 0 where
  unexpected_token :
      (expected : List TokenKind) (found : TokenKind) (position : Position) → ParseError
  unexpected_eof : (expected : Text) (position : Position) → ParseError
  invalid_syntax : (message : Text) (position : Position) → ParseError
  recursion_limit_exceeded : (limit : ℕ) (position : Position) → ParseError
  batch_error : (batch_number : ℕ) (error : ParseError) → ParseError

pub data ParseResult {ℓ} (A : Type ℓ) : Type ℓ where
  ok : A → ParseResult A
  err : ParseError → ParseResult A

-- `ParseError::position`
unfoldable pub position : ParseError → Position
position (unexpected_token e f p) = p
position (unexpected_eof e p) = p
position (invalid_syntax m p) = p
position (recursion_limit_exceeded l p) = p
position (batch_error n e) = position e

-- `ParseError::span`, which is never `None`
unfoldable pub span : ParseError → Span
span (unexpected_token e f p) = record { start = p.offset; end = p.offset }
span (unexpected_eof e p) = record { start = p.offset; end = p.offset }
span (invalid_syntax m p) = record { start = p.offset; end = p.offset }
span (recursion_limit_exceeded l p) = record { start = p.offset; end = p.offset }
span (batch_error n e) = span e
