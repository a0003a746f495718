-- ===== src/Server/LineIndex/Starts.antt =====
-- The line starts of a text: how many there are up to an offset, and where the last one is.
use tsqlremaker.Base.{
  ℕ, suc, ◌+◌, ◌≤◌, ◌<◌, ◌≡◌, refl, ◌∙◌, true, false, List, [], ◌∷◌, ◌++◌, ◌==◌, leb, if◌then◌else◌,
  Text, utf8, utf8_char, byte_len, len_utf8, len_utf8_bounds, u32_mod, length, arith, Bool-cases,
  inl, inr, le→leb,
}
use tsqlremaker.Server.LineIndex.{partition_point, get_or_zero, offsets_from}

-- The line feeds of a text.
abbrev pub newlines : Text → ℕ
newlines [] = 0
newlines (c ∷ s) = if c == b'\n' then suc (newlines s) else newlines s

-- The text behind the last line feed, and the text up to it.
abbrev pub last_line : Text → Text
last_line [] = []
last_line (c ∷ s) = let rest = last_line s in if newlines (c ∷ s) == 0 then c ∷ s else rest

abbrev pub full_lines : Text → Text
full_lines [] = []
full_lines (c ∷ s) = let rest = full_lines s in if newlines (c ∷ s) == 0 then [] else c ∷ rest

pub full_lines-last_line : (s : Text) → full_lines s ++ last_line s ≡ s
full_lines-last_line [] = refl
full_lines-last_line (c ∷ s) = elim (Bool-cases (newlines (c ∷ s) == 0)) [
  | inl none ↦ rw none
  | inr some ↦ rw (some, full_lines-last_line s)
]

-- The line starts behind `k`, where `s` begins at byte `k`.
abbrev pub starts : ℕ → Text → List ℕ
starts k [] = []
starts k (c ∷ s) =
    let rest = starts (k + len_utf8 c) s in if c == b'\n' then (k + 1) ∷ rest else rest

offsets_from-utf8_char :
    (k c : ℕ) (bs : List ℕ)
    → k + len_utf8 c < u32_mod
    → offsets_from k (utf8_char c ++ bs) ≡ (
        if c == b'\n'
        then (k + 1) ∷ offsets_from (k + len_utf8 c) bs
        else offsets_from (k + len_utf8 c) bs)
unfolding offsets_from utf8_char len_utf8
offsets_from-utf8_char k c bs h = ground arith

pub offsets_from-utf8 :
    (k : ℕ) (s : Text) → k + byte_len s < u32_mod → offsets_from k (utf8 s) ≡ starts k s
unfolding offsets_from utf8 byte_len
offsets_from-utf8 k [] h = refl
offsets_from-utf8 k (c ∷ s) h = rw (
  offsets_from-utf8_char k c (utf8 s) (omega arith),
  offsets_from-utf8 (k + len_utf8 c) s (omega arith),
)

-- No start behind `k` is at most `offset`, if `offset` is at most `k`.
starts_behind :
    (offset k : ℕ) (s : Text) → offset ≤ k → partition_point (λ x. leb x offset) (starts k s) ≡ 0
unfolding partition_point
starts_behind offset k [] h = refl
starts_behind offset k (c ∷ s) h = ground (arith, starts_behind offset (k + len_utf8 c) s)

pub starts_upto :
    (offset k : ℕ) (s rest : Text)
    → offset ≡ k + byte_len s
    → partition_point (λ x. leb x offset) (starts k (s ++ rest)) ≡ newlines s
unfolding partition_point byte_len
starts_upto offset k [] rest e = starts_behind offset k rest (omega arith)
starts_upto offset k (c ∷ s) rest e = elim (Bool-cases (c == b'\n')) [
  | inl lf ↦
      rw (lf, starts_upto offset (k + len_utf8 c) s rest (omega arith))
        (rw (le→leb (k + 1) offset (omega (arith, len_utf8_bounds c))))
  | inr other ↦ rw other (starts_upto offset (k + len_utf8 c) s rest (omega arith))
]

full_lines_none : (s : Text) → (newlines s == 0) ≡ true → full_lines s ≡ []
full_lines_none [] e = refl
full_lines_none (c ∷ s) e = rw e

suc-not_zero : (n : ℕ) → (suc n == 0) ≡ false
suc-not_zero n = ground arith

pub len_utf8-line_feed : (c : ℕ) → (c == b'\n') ≡ true → len_utf8 c ≡ 1
unfolding len_utf8
len_utf8-line_feed c e = ground arith

-- Where a line begins at `start` and `s` at `k`, the last line of `s` begins there too or behind
-- the last line feed of `s`.
abbrev pub line_start : ℕ → ℕ → Text → ℕ
line_start start k s = if newlines s == 0 then start else k + byte_len (full_lines s)

line_start-line_feed :
    (k c : ℕ) (s : Text)
    → (c == b'\n') ≡ true
    → line_start (k + 1) (k + len_utf8 c) s ≡ k + byte_len (c ∷ full_lines s)
unfolding byte_len
line_start-line_feed k c s lf = elim (Bool-cases (newlines s == 0)) [
  | inl last ↦ rw (last, full_lines_none s last, len_utf8-line_feed c lf) (omega arith)
  | inr more ↦ rw more (omega arith)
]

line_start-other :
    (start k c : ℕ) (s : Text)
    → line_start start (k + len_utf8 c) s ≡ (
        if newlines s == 0
        then start
        else k + byte_len (if newlines s == 0 then [] else c ∷ full_lines s))
unfolding byte_len
line_start-other start k c s = elim (Bool-cases (newlines s == 0)) [
  | inl last ↦ rw last
  | inr more ↦ rw more (omega arith)
]

-- The entry of the index for the line behind `s` is its start.
pub starts-line :
    (start k : ℕ) (s rest : Text)
    → get_or_zero (start ∷ starts k (s ++ rest)) (newlines s) ≡ line_start start k s
unfolding get_or_zero
starts-line start k [] rest = refl
starts-line start k (c ∷ s) rest = elim (Bool-cases (c == b'\n')) [
  | inl lf ↦
      rw (lf, suc-not_zero (newlines s))
        (starts-line (k + 1) (k + len_utf8 c) s rest ∙ line_start-line_feed k c s lf)
  | inr other ↦ rw other (starts-line start (k + len_utf8 c) s rest ∙ line_start-other start k c s)
]

pub line_start-zero : (s : Text) → line_start 0 0 s ≡ byte_len (full_lines s)
unfolding byte_len
line_start-zero s = elim (Bool-cases (newlines s == 0)) [
  | inl last ↦ rw (last, full_lines_none s last)
  | inr more ↦ rw more (omega arith)
]

pub newlines-le : (s : Text) → newlines s ≤ byte_len s
unfolding byte_len
newlines-le [] = omega arith
newlines-le (c ∷ s) = ground (arith, newlines-le s, len_utf8_bounds c)

pub newlines-length-starts : (k : ℕ) (s rest : Text) → newlines s ≤ length (starts k (s ++ rest))
newlines-length-starts k [] rest = omega arith
newlines-length-starts k (c ∷ s) rest =
    ground (arith, newlines-length-starts (k + len_utf8 c) s rest)
