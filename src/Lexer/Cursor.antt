-- ===== src/Lexer/Cursor.antt =====
-- The character cursor (crates/tsql-lexer/src/cursor.rs).
pub mod Loop
pub mod Place
pub mod Locate
use tsqlremaker.Base.{
  ℕ, suc, ◌+◌, ◌-◌, ◌*◌, ◌/◌, Bool, true, false, List, [], ◌∷◌, Option, none, some, map, length,
  if◌then◌else◌, ◌==◌, u32, Text, len_utf8, byte_len, slice,
}
use tsqlremaker.Token.Position.{Position, start, next_tab_stop}

-- `str::char_indices`, for a text that begins at byte `k`.
unfoldable pub char_indices : ℕ → Text → List (ℕ × ℕ)
char_indices k [] = []
char_indices k (c ∷ s) = (k, c) ∷ char_indices (k + len_utf8 c) s

-- `chars` is what the iterator still has: `current` was taken off it.
pub record Cursor : Type 0 where
  pub input : Text
  pub chars : List (ℕ × ℕ)
  pub current : Option (ℕ × ℕ)
  pub position : Position
  pub tab_width : ℕ

-- `Iterator::next`: the first pair, and the rest.
abbrev pub first {ℓ} : {A : Type ℓ} → List A → Option A
first [] = none
first (x ∷ xs) = some x

abbrev pub rest_of {ℓ} : {A : Type ℓ} → List A → List A
rest_of [] = []
rest_of (x ∷ xs) = xs

unfoldable pub new : Text → Cursor
unfolding char_indices
new input =
    let chars = char_indices 0 input in
    record {
      input = input;
      chars = rest_of chars;
      current = first chars;
      position = start;
      tab_width = 8;
    }

abbrev pub char_of : Option (ℕ × ℕ) → Option ℕ
char_of none = none
char_of (some (idx, ch)) = some ch

-- `Cursor::current`, `peek` and `peek2`
unfoldable pub current : Cursor → Option ℕ
current c = char_of c.current

unfoldable pub peek : Cursor → Option ℕ
peek c = char_of (first c.chars)

unfoldable pub peek2 : Cursor → Option ℕ
peek2 c = char_of (first (rest_of c.chars))

-- Is the character at hand `ch`?
abbrev pub at_char : ℕ → Option ℕ → Bool
at_char ch none = false
at_char ch (some c) = c == ch

-- The position behind `ch`, which begins at byte `idx`.
unfoldable pub moved : Position → ℕ → ℕ → ℕ → Position
moved p w idx ch =
    let offset = u32 (u32 idx + len_utf8 ch) in
    if ch == b'\r'
    then record { line = u32 (p.line + 1); column = 1; offset = offset }
    else if ch == b'\n'
    then record { line = u32 (p.line + 1); column = 1; offset = offset }
    else if ch == b'\t'
    then record { line = p.line; column = next_tab_stop p.column w; offset = offset }
    else record { line = p.line; column = u32 (p.column + 1); offset = offset }

-- `self.current = self.chars.next()`
abbrev pub next_char : Cursor → Cursor
next_char c = record c { chars = rest_of c.chars; current = first c.chars }

-- Behind a carriage return a line feed is taken too.
unfoldable pub skip_line_feed : ℕ → Cursor → Cursor
skip_line_feed ch c =
    if ch == b'\r' then (if at_char b'\n' (char_of c.current) then next_char c else c) else c

unfoldable pub bump_at : Option (ℕ × ℕ) → Cursor → Option ℕ × Cursor
unfolding skip_line_feed moved
bump_at none c = (none, c)
bump_at (some (idx, ch)) c = (
  some ch,
  record (skip_line_feed ch (next_char c)) { position = moved c.position c.tab_width idx ch },
)

-- `Cursor::bump`: the character that was at hand, and the cursor behind it.
unfoldable pub bump : Cursor → Option ℕ × Cursor
unfolding bump_at
bump c = bump_at c.current c

-- A call of `bump` whose result is not read.
abbrev pub advance : Cursor → Cursor
advance c = (bump c).1

abbrev is_none {ℓ} : {A : Type ℓ} → Option A → Bool
is_none none = true
is_none (some a) = false

unfoldable pub is_eof : Cursor → Bool
is_eof c = is_none c.current

abbrev rest_at : Option (ℕ × ℕ) → Text → Text
rest_at none input = []
rest_at (some (idx, ch)) input = slice idx (byte_len input) input

-- `Cursor::rest`: `&input[idx..]`
unfoldable pub rest : Cursor → Text
unfolding slice byte_len
rest c = rest_at c.current c.input

unfoldable pub set_tab_width : ℕ → Cursor → Cursor
set_tab_width width c = record c { tab_width = width }

-- How many characters are left, the one at hand included.
unfoldable pub remaining : Cursor → ℕ
remaining c = elim c.current [ none ↦ 0 | some x ↦ suc (length c.chars) ]
