-- ===== src/Lexer/Read/Numbers.antt =====
-- Decimal and hexadecimal numbers.
use tsqlremaker.Base.{
  ℕ, suc, Bool, true, false, ◌&&◌, ◌||◌, not, ◌==◌, if◌then◌else◌, Option, none, some, Text,
  is_ascii_digit, is_ascii_hexdigit,
}
use tsqlremaker.Base.Loop.{Round, leave, again, loop}
use tsqlremaker.Token.Kind.{TokenKind}
use tsqlremaker.Lexer.Cursor.{Cursor, current, peek, advance, at_char, remaining}
use tsqlremaker.Lexer.Cursor.Loop.{bump_while, passes}
use tsqlremaker.Lexer.Error.{Result, ok}
use tsqlremaker.Lexer.Token
use tsqlremaker.Lexer.Token.{Token}
use tsqlremaker.Lexer.Read.Names.{text_to}

-- The variables of the loop of `read_number`.
pub record Scan : Type 0 where
  pub has_dot : Bool
  pub has_exponent : Bool
  pub cursor : Cursor

-- At a character: a digit, the first dot, the first `e`, or the end of the number.
unfoldable pub number_round_at : Option ℕ → Scan → Round Scan
number_round_at none s = leave s
number_round_at (some ch) s =
    let c₁ = advance s.cursor in
    if is_ascii_digit ch
    then again (record s { cursor = c₁ })
    else if ch == b'.' && not s.has_dot
    then (let s' = record s { has_dot = true; cursor = c₁ } in
        if not (passes is_ascii_digit (current c₁)) then leave s' else again s')
    else if (ch == b'e' || ch == b'E') && not s.has_exponent
    then again (record s {
      has_exponent = true;
      cursor = if at_char b'+' (current c₁) || at_char b'-' (current c₁) then advance c₁ else c₁;
    })
    else leave s

unfoldable pub number_round : Scan → Round Scan
number_round s = number_round_at (current s.cursor) s

unfoldable pub scan_number : Cursor → Scan
scan_number c =
    loop (suc (remaining c)) number_round
      (record { has_dot = false; has_exponent = false; cursor = c })

unfoldable pub read_hex_number : Text → Cursor → Result Token × Cursor
read_hex_number input c =
    let c' = bump_while is_ascii_hexdigit (advance (advance c)) in
    (ok (Token.new TokenKind.hex_string (text_to input c.position c') c.position), c')

unfoldable pub read_number : Text → Cursor → Result Token × Cursor
read_number input c =
    if at_char b'0' (current c) && at_char b'x' (peek c)
    then read_hex_number input c
    else let s = scan_number c in
      let kind =
        if s.has_dot || s.has_exponent then TokenKind.float_literal else TokenKind.number in
      (ok (Token.new kind (text_to input c.position s.cursor) c.position), s.cursor)
