-- ===== src/Lexer/Read/Symbols.antt =====
-- Operators and punctuation.
use tsqlremaker.Base.{ℕ, ◌==◌, if◌then◌else◌, Option, none, some, Text, codes, [], ◌∷◌}
use tsqlremaker.Token.Kind.{TokenKind}
use tsqlremaker.Token.Position.{Position}
use tsqlremaker.Lexer.Cursor.{Cursor, current, advance, at_char}
use tsqlremaker.Lexer.Error.{Result, ok, err, invalid_character}
use tsqlremaker.Lexer.Token
use tsqlremaker.Lexer.Token.{Token}

abbrev symbol : TokenKind → Text → Position → Cursor → Result Token × Cursor
symbol kind text pos c = (ok (Token.new kind text pos), c)

-- `one`, or `second` if the next character is `ch`.
abbrev one_or_two : TokenKind → Text → ℕ → TokenKind → Text → Cursor → Result Token × Cursor
one_or_two one text ch second text' c =
    let c₁ = advance c in
    if at_char ch (current c₁)
    then symbol second text' c.position (advance c₁)
    else symbol one text c.position c₁

unfoldable pub read_plus : Cursor → Result Token × Cursor
read_plus = one_or_two TokenKind.plus (codes "+") b'=' TokenKind.plus_assign (codes "+=")

unfoldable pub read_minus : Cursor → Result Token × Cursor
read_minus = one_or_two TokenKind.minus (codes "-") b'=' TokenKind.minus_assign (codes "-=")

unfoldable pub read_star : Cursor → Result Token × Cursor
read_star = one_or_two TokenKind.star (codes "*") b'=' TokenKind.star_assign (codes "*=")

unfoldable pub read_slash : Cursor → Result Token × Cursor
read_slash = one_or_two TokenKind.slash (codes "/") b'=' TokenKind.slash_assign (codes "/=")

unfoldable pub read_greater_than : Cursor → Result Token × Cursor
read_greater_than = one_or_two TokenKind.gt (codes ">") b'=' TokenKind.ge (codes ">=")

unfoldable pub read_pipe : Cursor → Result Token × Cursor
read_pipe = one_or_two TokenKind.pipe (codes "|") b'|' TokenKind.concat (codes "||")

unfoldable pub read_dot : Cursor → Result Token × Cursor
read_dot = one_or_two TokenKind.dot (codes ".") b'.' TokenKind.dot_dot (codes "..")

unfoldable pub read_percent : Cursor → Result Token × Cursor
read_percent c = symbol TokenKind.percent (codes "%") c.position (advance c)

unfoldable pub read_less_than : Cursor → Result Token × Cursor
read_less_than c =
    let c₁ = advance c in
    if at_char b'=' (current c₁)
    then symbol TokenKind.le (codes "<=") c.position (advance c₁)
    else if at_char b'>' (current c₁)
    then symbol TokenKind.ne_alt (codes "<>") c.position (advance c₁)
    else symbol TokenKind.lt (codes "<") c.position c₁

unfoldable pub read_bang : Cursor → Result Token × Cursor
read_bang c =
    let c₁ = advance c in
    if at_char b'=' (current c₁)
    then symbol TokenKind.ne (codes "!=") c.position (advance c₁)
    else if at_char b'<' (current c₁)
    then symbol TokenKind.not_lt (codes "!<") c.position (advance c₁)
    else if at_char b'>' (current c₁)
    then symbol TokenKind.not_gt (codes "!>") c.position (advance c₁)
    else (err (invalid_character b'!' c.position none), c₁)

-- The characters that are a token each, and are bumped in `next_token_impl` itself.
unfoldable pub single_kind : ℕ → Option TokenKind
single_kind ch =
    if ch == b'='
    then some TokenKind.assign
    else if ch == b'&'
    then some TokenKind.ampersand
    else if ch == b'^'
    then some TokenKind.caret
    else if ch == b'~'
    then some TokenKind.tilde
    else if ch == b'('
    then some TokenKind.lparen
    else if ch == b')'
    then some TokenKind.rparen
    else if ch == b'{'
    then some TokenKind.lbrace
    else if ch == b'}'
    then some TokenKind.rbrace
    else if ch == b']'
    then some TokenKind.rbracket
    else if ch == b','
    then some TokenKind.comma
    else if ch == b';'
    then some TokenKind.semicolon
    else if ch == b':'
    then some TokenKind.colon
    else none

unfoldable pub read_single : TokenKind → ℕ → Cursor → Result Token × Cursor
read_single kind ch c = symbol kind (ch ∷ []) c.position (advance c)
