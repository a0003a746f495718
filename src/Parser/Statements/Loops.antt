-- ===== src/Parser/Statements/Loops.antt =====
-- The loop of `parse` (crates/tsql-parser/src/parser/mod.rs).
use tsqlremaker.Base.{ℕ, zero, suc, ◌≡◌, refl, false, List, [], ◌∷◌, none}
use tsqlremaker.Token.Kind.{TokenKind}
use tsqlremaker.Token.Tag.{is_kind}
use tsqlremaker.Lexer.Token.{Token}
use tsqlremaker.Parser.Error.{ParseError, ParseResult}
use tsqlremaker.Parser.Statements.{
  Parser, among, is_statement_start, is_at_eof, is_sync_point, skip, synchronize, push_error,
  skip_semicolon, has_statement_parser, settle, parse_statement, parse_rounds, parse,
}

skip-end : (t : Token) (ts : List Token) → t.kind ≡ TokenKind.end → skip (t ∷ ts) ≡ (t ∷ ts)
unfolding skip is_sync_point is_statement_start among is_kind
skip-end t ts k = rw k refl

no_parser-end :
    (s : Parser) (t : Token) (ts : List Token)
    → s.buffer ≡ (t ∷ ts)
    → t.kind ≡ TokenKind.end
    → has_statement_parser s ≡ false
unfolding has_statement_parser among is_kind
no_parser-end s t ts b k = simp (b, k) refl

stays_at-end :
    (s : Parser) (e : ParseError) (t : Token) (ts : List Token)
    → s.buffer ≡ (t ∷ ts)
    → t.kind ≡ TokenKind.end
    → (skip_semicolon (synchronize (push_error e s))).buffer ≡ (t ∷ ts)
unfolding skip_semicolon synchronize push_error is_kind
stays_at-end s e t ts b k = simp (b, skip-end t ts k, k) refl

not_eof-end :
    (s : Parser) (t : Token) (ts : List Token)
    → s.buffer ≡ (t ∷ ts)
    → t.kind ≡ TokenKind.end
    → is_at_eof s ≡ false
unfolding is_kind
not_eof-end s t ts b k = simp (b, k) refl

module _ {Statement : Type 0} (statement : Parser → ParseResult Statement × Parser) where
  parse_rounds-end :
      (fuel : ℕ) (statements : List Statement) (s : Parser) (t : Token) (ts : List Token)
      → s.buffer ≡ (t ∷ ts)
      → t.kind ≡ TokenKind.end
      → parse_rounds statement fuel statements s ≡ none
  unfolding parse_rounds parse_statement settle
  parse_rounds-end zero statements s t ts b k = refl
  parse_rounds-end (suc fuel) statements s t ts b k = rw (not_eof-end s t ts b k) (
      rw (no_parser-end s t ts b k)
        (parse_rounds-end fuel statements _ t ts (stays_at-end s _ t ts b k) k))

  -- `parse` does not end before an END: that no statement starts with it is an error, and
  -- `synchronize` stops at it at once.
  pub parse-end :
      (fuel : ℕ) (s : Parser) (t : Token) (ts : List Token)
      → s.buffer ≡ (t ∷ ts)
      → t.kind ≡ TokenKind.end
      → parse statement fuel s ≡ none
  unfolding parse
  parse-end fuel s t ts b k = rw (parse_rounds-end fuel [] s t ts b k) refl
