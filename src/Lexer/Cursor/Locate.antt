-- ===== src/Lexer/Cursor/Locate.antt =====
-- Lines and columns, counted from the text: what a position is to tell.
use tsqlremaker.Base.{
  ℕ, zero, suc, ◌+◌, ◌-◌, ◌*◌, ◌/◌, ◌≤◌, ◌<◌, ◌≡◌, ◌≢◌, ◌⊎◌, inl, inr, refl, sym, ap, ◌∙◌, Bool,
  true, false, ◌&&◌, not, List, [], ◌∷◌, ◌++◌, Option, none, some, arith, if◌then◌else◌, ◌==◌, Text,
  len_utf8, byte_len, byte_len-append, len_utf8_bounds, append_assoc, append-nil, u32, u32_mod,
  Bool-cases, ==_iff, and-eq-true, subst,
}
use tsqlremaker.Token.Position.{Position, next_tab_stop}
use tsqlremaker.Lexer.Cursor.Place.{place, advance-place, advance-place_crlf, advance-place_nil}
use tsqlremaker.Lexer.Cursor.{
  Cursor, new, bump, bump_at, advance, moved, skip_line_feed, char_indices, first, rest_of, at_char,
  char_of, next_char, current,
}
pub mod Bump

-- The line breaks that end in `s`, before the character `next`: a line feed, and a carriage return
-- with no line feed behind it.
pub breaks : Text → Option ℕ → ℕ
breaks [] next = 0
breaks (c ∷ []) next =
    if c == b'\n' then 1 else if c == b'\r' && not (at_char b'\n' next) then 1 else 0
breaks (c ∷ d ∷ s) next =
    (if c == b'\n' then 1 else if c == b'\r' && not (d == b'\n') then 1 else 0)
    + breaks (d ∷ s) next

-- The column behind a character at column `k`, with a tab stop at every eighth column.
pub column_step : ℕ → ℕ → ℕ
column_step c k =
    if c == b'\r'
    then 1
    else if c == b'\n'
    then 1
    else if c == b'\t'
    then (k - 1 + 8) / 8 * 8 + 1
    else k + 1

-- The column behind `s`, from the column `k`.
pub column_from : ℕ → Text → ℕ
column_from k [] = k
column_from k (c ∷ s) = column_from (column_step c k) s

-- The fields of the position count up to 2 ^ 32: no column goes beyond eight times the text.
abbrev pub Fits : Text → Type 0
Fits s = 8 * byte_len s + 9 < u32_mod

pub breaks-append :
    (s : Text) (c : ℕ) (t : Text) (next : Option ℕ)
    → breaks (s ++ c ∷ t) next ≡ breaks s (some c) + breaks (c ∷ t) next
unfolding breaks
breaks-append [] c t next = omega arith
breaks-append (a ∷ []) c t next = ground arith
breaks-append (a ∷ b ∷ s) c t next = ground (arith, breaks-append (b ∷ s) c t next)

pub column_from-append :
    (k : ℕ) (s t : Text) → column_from k (s ++ t) ≡ column_from (column_from k s) t
unfolding column_from
column_from-append k [] t = refl
column_from-append k (c ∷ s) t = column_from-append (column_step c k) s t

pub column_step_bounds : (c k : ℕ) → 1 ≤ k → (1 ≤ column_step c k) × (column_step c k ≤ k + 8)
unfolding column_step
column_step_bounds c k h = ground arith

pub column_from_bounds :
    (k : ℕ) (s : Text) → 1 ≤ k → (1 ≤ column_from k s) × (column_from k s ≤ k + 8 * byte_len s)
unfolding column_from byte_len
column_from_bounds k [] h = omega arith
column_from_bounds k (c ∷ s) h = omega (
  arith,
  column_step_bounds c k h,
  len_utf8_bounds c,
  column_from_bounds (column_step c k) s (column_step_bounds c k h).0,
)

pub breaks-le : (s : Text) (next : Option ℕ) → breaks s next ≤ byte_len s
unfolding breaks byte_len
breaks-le [] next = omega arith
breaks-le (c ∷ []) next = ground (arith, len_utf8_bounds c)
breaks-le (c ∷ d ∷ s) next = ground (arith, len_utf8_bounds c, breaks-le (d ∷ s) next)

pub next_tab_stop_lem :
    (k : ℕ) → 1 ≤ k → k + 8 < u32_mod → next_tab_stop k 8 ≡ (k - 1 + 8) / 8 * 8 + 1
unfolding next_tab_stop
next_tab_stop_lem k h l = omega arith

-- While the counters fit, `moved` counts without wrap-around.
pub moved_offset :
    (p : Position) (idx ch : ℕ)
    → idx + len_utf8 ch < u32_mod
    → (moved p 8 idx ch).offset ≡ idx + len_utf8 ch
unfolding moved
moved_offset p idx ch ho = ground arith

pub moved_line :
    (p : Position) (idx ch : ℕ)
    → p.line + 1 < u32_mod
    → (moved p 8 idx ch).line ≡ p.line + (if ch == b'\n' then 1 else if ch == b'\r' then 1 else 0)
unfolding moved
moved_line p idx ch hl = ground arith

pub moved_column :
    (p : Position) (idx ch : ℕ)
    → 1 ≤ p.column
    → p.column + 8 < u32_mod
    → (moved p 8 idx ch).column ≡ column_step ch p.column
unfolding moved column_step
moved_column p idx ch hc hk = ground (arith, next_tab_stop_lem p.column)
