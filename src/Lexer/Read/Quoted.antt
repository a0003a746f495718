-- ===== src/Lexer/Read/Quoted.antt =====
-- Bracketed and quoted identifiers, and the string literals.
use tsqlremaker.Base.{
  ℕ, suc, Bool, true, false, ◌&&◌, not, ◌==◌, if◌then◌else◌, Option, none, some, Text, codes,
}
use tsqlremaker.Base.Loop.{Round, leave, again, loop}
use tsqlremaker.Token.Kind.{TokenKind}
use tsqlremaker.Lexer.Cursor.{Cursor, current, peek, advance, at_char, is_eof, remaining}
use tsqlremaker.Lexer.Cursor.Loop.{advances}
use tsqlremaker.Lexer.Error.{
  Result, ok, err, LexError, unterminated_identifier, unterminated_string, unexpected_eof,
  invalid_character, square, double_quote,
}
use tsqlremaker.Lexer.Token
use tsqlremaker.Lexer.Token.{Token}
use tsqlremaker.Lexer.Read.Names.{text_to}

-- The cursor, and whether the closing character was found.
abbrev pub Scan : Type 0
Scan = Cursor × Bool

-- A round of the loops that end at `close`, which stands doubled for itself.
unfoldable pub quoted_round : ℕ → Scan → Round Scan
quoted_round close (c, found) =
    if is_eof c
    then leave (c, found)
    else if at_char close (current c)
    then (if at_char close (peek c)
        then again (advance (advance c), found)
        else leave (advance c, true))
    else again (advance c, found)

unfoldable pub scan_quoted : ℕ → Cursor → Scan
scan_quoted close c = loop (suc (remaining c)) (quoted_round close) (c, false)

-- The token up to the closing character, or the error.
abbrev pub closed : TokenKind → LexError → Text → Cursor → Scan → Result Token × Cursor
closed kind e input start (c, found) = (
  if found then ok (Token.new kind (text_to input start.position c) start.position) else err e,
  c,
)

-- Behind the bracket at `c`: it is a delimiter at the end of the input and before `]`.
unfoldable pub bracket_at : Option ℕ → Text → Cursor → Cursor → Result Token × Cursor
bracket_at none input c c₁ = (ok (Token.new TokenKind.lbracket (codes "[") c.position), c₁)
bracket_at (some ch) input c c₁ =
    if ch == b']'
    then (ok (Token.new TokenKind.lbracket (codes "[") c.position), c₁)
    else closed TokenKind.quoted_ident (unterminated_identifier c.position square none) input c
        (scan_quoted b']' c₁)

unfoldable pub read_bracket_ident : Text → Cursor → Result Token × Cursor
read_bracket_ident input c = let c₁ = advance c in bracket_at (current c₁) input c c₁

unfoldable pub read_quoted_ident : Text → Cursor → Result Token × Cursor
read_quoted_ident input c =
    closed TokenKind.quoted_ident (unterminated_identifier c.position double_quote none) input c
      (scan_quoted b'"' (advance c))

unfoldable pub read_string : Text → Cursor → Result Token × Cursor
read_string input c =
    closed TokenKind.string (unterminated_string c.position b'\'' none) input c
      (scan_quoted b'\'' (advance c))

-- `N'...'`: the one bump before the loop takes the letter, so the loop begins at the opening quote.
unfoldable pub read_national_string : Text → Cursor → Result Token × Cursor
read_national_string input c =
    closed TokenKind.nstring (unterminated_string c.position b'\'' none) input c
      (scan_quoted b'\'' (advance c))

-- A round of `U&'...'`: a doubled quote stands for itself, and a backslash takes 4 or 6 digits.
unfoldable pub unicode_round : ℕ → Cursor → Round Cursor
unicode_round quote c =
    if is_eof c
    then leave c
    else if at_char quote (current c)
    then (if not (at_char quote (peek c)) then leave (advance c) else again (advance (advance c)))
    else if at_char b'\\' (current c)
    then (let c₁ = advance c in
        if at_char b'+' (current c₁)
        then again (advances 6 (advance c₁))
        else again (advances 4 c₁))
    else again (advance c)

-- Behind the prefix of the string at `c`: `quote` opens it.
unfoldable pub unicode_at : Option ℕ → Text → Cursor → Cursor → Result Token × Cursor
unicode_at none input c c₂ = (err (unexpected_eof c₂.position (codes "quote") none), c₂)
unicode_at (some quote) input c c₂ =
    if not (quote == b'\'') && not (quote == b'"')
    then (err (invalid_character quote c₂.position none), c₂)
    else let c₃ = advance c₂ in
      let c₄ = loop (suc (remaining c₃)) (unicode_round quote) c₃ in
      (ok (Token.new TokenKind.unicode_string (text_to input c.position c₄) c.position), c₄)

unfoldable pub read_unicode_string : Text → Cursor → Result Token × Cursor
read_unicode_string input c = let c₂ = advance (advance c) in unicode_at (current c₂) input c c₂
