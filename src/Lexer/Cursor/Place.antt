-- ===== src/Lexer/Cursor/Place.antt =====
-- The cursor at a place of its text, and what a bump makes of it.
use tsqlremaker.Base.{
  ℕ, suc, ◌+◌, ◌≡◌, inl, inr, refl, ap, true, false, ◌&&◌, [], ◌∷◌, ◌++◌, arith, ◌==◌, Text,
  len_utf8, byte_len, byte_len-append, u32, Bool-cases, length,
}
use tsqlremaker.Token.Position.{Position}
use tsqlremaker.Lexer.Cursor.{
  Cursor, bump, advance, moved, skip_line_feed, char_indices, first, rest_of, at_char, char_of,
  next_char, current, peek, is_eof, remaining,
}

-- The cursor behind `read` and before `rest`, at the position `p`.
unfoldable pub place : Text → Text → Text → Position → Cursor
place input read rest p = record {
  input = input;
  chars = rest_of (char_indices (byte_len read) rest);
  current = first (char_indices (byte_len read) rest);
  position = p;
  tab_width = 8;
}

first-char_indices : (k : ℕ) (s : Text) → char_of (first (char_indices k s)) ≡ first s
unfolding char_indices
first-char_indices k [] = refl
first-char_indices k (c ∷ s) = refl

skip_line_feed_plain :
    (ch : ℕ) (c : Cursor)
    → (ch == b'\r' && at_char b'\n' (char_of c.current)) ≡ false
    → skip_line_feed ch c ≡ c
unfolding skip_line_feed
skip_line_feed_plain ch c h = elim (Bool-cases (ch == b'\r')) [
  | inl cr ↦ rw (cr, rw cr at h)
  | inr other ↦ rw other
]

pub byte_len-snoc : (s : Text) (c : ℕ) → byte_len (s ++ c ∷ []) ≡ byte_len s + len_utf8 c
unfolding byte_len
byte_len-snoc s c = omega (arith, byte_len-append s (c ∷ []))

-- A bump over one character.
pub advance-place :
    (input read : Text) (ch : ℕ) (rest : Text) (p : Position)
    → (ch == b'\r' && at_char b'\n' (first rest)) ≡ false
    → advance (place input read (ch ∷ rest) p)
      ≡ place input (read ++ ch ∷ []) rest (moved p 8 (byte_len read) ch)
unfolding bump place char_indices
advance-place input read ch rest p plain = rw (
  byte_len-snoc read ch,
  skip_line_feed_plain ch (next_char (place input read (ch ∷ rest) p))
      (rw (first-char_indices (byte_len read + len_utf8 ch) rest) plain),
)

pub byte_len-crlf :
    (s : Text) → byte_len (s ++ b'\r' ∷ b'\n' ∷ []) ≡ byte_len s + len_utf8 b'\r' + len_utf8 b'\n'
unfolding byte_len
byte_len-crlf s = omega (arith, byte_len-append s (b'\r' ∷ b'\n' ∷ []))

-- A bump over a carriage return and the line feed behind it.
pub advance-place_crlf :
    (input read rest : Text) (p : Position)
    → advance (place input read (b'\r' ∷ b'\n' ∷ rest) p)
      ≡ place input (read ++ b'\r' ∷ b'\n' ∷ []) rest (moved p 8 (byte_len read) b'\r')
unfolding bump place char_indices
advance-place_crlf input read rest p = rw (byte_len-crlf read)

-- A bump at the end.
pub advance-place_nil :
    (input read : Text) (p : Position) → advance (place input read [] p) ≡ place input read [] p
unfolding bump place char_indices
advance-place_nil input read p = refl

pub current-place :
    (input read rest : Text) (p : Position) → current (place input read rest p) ≡ first rest
unfolding current place
current-place input read rest p = first-char_indices (byte_len read) rest

pub peek-place :
    (input read : Text) (ch : ℕ) (rest : Text) (p : Position)
    → peek (place input read (ch ∷ rest) p) ≡ first rest
unfolding peek place char_indices
peek-place input read ch rest p = first-char_indices (byte_len read + len_utf8 ch) rest

pub is_eof-place :
    (input read : Text) (ch : ℕ) (rest : Text) (p : Position)
    → is_eof (place input read (ch ∷ rest) p) ≡ false
unfolding is_eof place char_indices
is_eof-place input read ch rest p = refl

pub length-char_indices : (k : ℕ) (s : Text) → length (char_indices k s) ≡ length s
unfolding char_indices
length-char_indices k [] = refl
length-char_indices k (c ∷ s) = ap suc (length-char_indices (k + len_utf8 c) s)

pub remaining-place :
    (input read rest : Text) (p : Position) → remaining (place input read rest p) ≡ length rest
unfolding remaining place char_indices
remaining-place input read [] p = refl
remaining-place input read (c ∷ s) p = ap suc (length-char_indices (byte_len read + len_utf8 c) s)

pub moved-offset :
    (p : Position) (w idx ch : ℕ) → (moved p w idx ch).offset ≡ u32 (u32 idx + len_utf8 ch)
unfolding moved
moved-offset p w idx ch = ground arith

pub position-place :
    (input read rest : Text) (p : Position) → (place input read rest p).position ≡ p
unfolding place
position-place input read rest p = refl

pub is_eof-place_nil : (input read : Text) (p : Position) → is_eof (place input read [] p) ≡ true
unfolding is_eof place char_indices
is_eof-place_nil input read p = refl
