-- ===== src/Lexer/Read/Names.antt =====
-- Identifiers, variables and temporary tables.
use tsqlremaker.Base.{ℕ, Bool, ◌||◌, ◌==◌, if◌then◌else◌, Text, slice}
use tsqlremaker.Token.Kind.{TokenKind}
use tsqlremaker.Token.Keyword.{from_ident}
use tsqlremaker.Token.Position.{Position}
use tsqlremaker.Lexer.Cursor.{Cursor, current, advance, at_char}
use tsqlremaker.Lexer.Cursor.Loop.{bump_while}
use tsqlremaker.Lexer.Error.{Result, ok}
use tsqlremaker.Lexer.Token
use tsqlremaker.Lexer.Token.{Token}
use tsqlremaker.Lexer.Unicode.{Tables, is_alphanumeric, is_alphabetic}

-- `is_ident_start`
unfoldable pub is_ident_start : Tables → ℕ → Bool
is_ident_start u ch = is_alphabetic u ch || ch == b'_'

-- `ch.is_alphanumeric() || ch == '_' || ch == '$'`
unfoldable pub is_ident_part : Tables → ℕ → Bool
is_ident_part u ch = is_alphanumeric u ch || ch == b'_' || ch == b'$'

-- `&self.input[start_offset..end_offset]`, from the start of the token to the cursor.
abbrev pub text_to : Text → Position → Cursor → Text
text_to input start_pos c = slice start_pos.offset c.position.offset input

unfoldable pub read_ident_or_keyword : Tables → Text → Position → Cursor → Result Token × Cursor
read_ident_or_keyword u input start_pos c =
    let c' = bump_while (is_ident_part u) c in
    let text = text_to input start_pos c' in (ok (Token.new (from_ident text) text start_pos), c')

-- The sigil, the sigil again for the global kind, and the name.
unfoldable pub read_prefixed :
    ℕ → TokenKind → TokenKind → Tables → Text → Cursor → Result Token × Cursor
read_prefixed sigil local global u input c =
    let c₁ = advance c in
    let is_global = at_char sigil (current c₁) in
    let c₂ = if is_global then advance c₁ else c₁ in
    let c₃ = bump_while (is_ident_part u) c₂ in
    (
      ok (Token.new (if is_global then global else local) (text_to input c.position c₃) c.position),
      c₃,
    )

unfoldable pub read_at_variable : Tables → Text → Cursor → Result Token × Cursor
read_at_variable = read_prefixed b'@' TokenKind.local_var TokenKind.global_var

unfoldable pub read_hash_temp : Tables → Text → Cursor → Result Token × Cursor
read_hash_temp = read_prefixed b'#' TokenKind.temp_table TokenKind.global_temp_table
