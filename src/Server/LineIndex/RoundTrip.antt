-- ===== src/Server/LineIndex/RoundTrip.antt =====
-- Offsets of a text become positions, and positions become these offsets again.
use tsqlremaker.Base.{
  ℕ, zero, suc, ◌+◌, ◌-◌, ◌<◌, ◌≡◌, refl, sym, ap, ◌∙◌, true, false, Bool-cases, inl, inr, [], ◌∷◌,
  ◌++◌, ◌==◌, leb, ltb, some, Text, utf8, byte_len, byte_len-append, append_assoc, len_utf8,
  len_utf8_bounds, u32_mod, length, arith, le→leb,
}
use tsqlremaker.Server.LineIndex.{
  partition_point, get_or_zero, text_from, offsets_from, new, line_number, offset_to_position,
  count_to, position_to_offset,
}
use tsqlremaker.Server.LineIndex.Starts.{
  newlines, last_line, full_lines, starts, full_lines-last_line, offsets_from-utf8, starts_upto,
  len_utf8-line_feed, starts-line, line_start-zero, newlines-le, newlines-length-starts,
}

text_from_zero : (t : Text) → text_from 0 t ≡ some t
unfolding text_from
text_from_zero t = refl

text_from-suc :
    (n c k : ℕ) (s : Text) → suc n ≡ len_utf8 c + k → text_from (suc n) (c ∷ s) ≡ text_from k s
unfolding text_from
text_from-suc n c k s e =
    let over : ltb (suc n) (len_utf8 c) ≡ false = ground arith in
    let back : suc n - len_utf8 c ≡ k = omega arith in rw over (rw back refl)

pub text_from-append : (s t : Text) → text_from (byte_len s) (s ++ t) ≡ some t
unfolding byte_len
text_from-append [] t = text_from_zero t
text_from-append (c ∷ s) t =
    let n = len_utf8 c + byte_len s - 1 in
    let step : len_utf8 c + byte_len s ≡ suc n = omega (arith, len_utf8_bounds c) in
    rw step (text_from-suc n c (byte_len s) (s ++ t) (sym step)) ∙ text_from-append s t

text_from-last_line :
    (s rest : Text) → text_from (byte_len (full_lines s)) (s ++ rest) ≡ some (last_line s ++ rest)
text_from-last_line s rest =
    let whole : s ++ rest ≡ full_lines s ++ (last_line s ++ rest) =
      ap (λ x. x ++ rest) (sym (full_lines-last_line s))
      ∙ append_assoc (full_lines s) (last_line s) rest in
    ap (text_from (byte_len (full_lines s))) whole
    ∙ text_from-append (full_lines s) (last_line s ++ rest)

count_to-append :
    (target counted : ℕ) (s rest : Text)
    → target ≡ counted + byte_len s
    → count_to target counted (s ++ rest) ≡ target
unfolding count_to byte_len
count_to-append target counted [] [] e = omega arith
count_to-append target counted [] (c ∷ rest) e = ground arith
count_to-append target counted (c ∷ s) rest e =
    let go : leb target counted ≡ false = ground (arith, len_utf8_bounds c) in
    rw go (count_to-append target (counted + len_utf8 c) s rest (omega arith))

module _ (s rest : Text) (fits : byte_len (s ++ rest) + 1 < u32_mod) where
  line_offsets_lem : (new (s ++ rest)).line_offsets ≡ 0 ∷ starts 0 (s ++ rest)
  unfolding new
  line_offsets_lem = rw (offsets_from-utf8 0 (s ++ rest) (omega arith))

  line_number-append : line_number (new (s ++ rest)) (byte_len s) ≡ newlines s
  unfolding line_number partition_point
  line_number-append =
      rw
        (
          line_offsets_lem,
          le→leb 0 (byte_len s) (omega arith),
          starts_upto (byte_len s) 0 s rest (omega arith),
        )
        (omega (arith, newlines-le s, byte_len-append s rest))

  -- The offset behind `s` in a text that begins with `s` and has less than 2 ^ 32 - 1 bytes is at the
  -- line that counts the line feeds of `s`, and at the character that counts the bytes behind the
  -- last of them.
  pub offset_to_position-append :
      offset_to_position (new (s ++ rest)) (byte_len s) ≡ (newlines s, byte_len (last_line s))
  unfolding offset_to_position
  offset_to_position-append =
      let size : byte_len s ≡ byte_len (full_lines s) + byte_len (last_line s) =
        sym (ap byte_len (full_lines-last_line s)) ∙ byte_len-append (full_lines s) (last_line s) in
      let left : byte_len s - byte_len (full_lines s) ≡ byte_len (last_line s) = omega arith in
      rw (line_number-append, line_offsets_lem, starts-line 0 0 s rest, line_start-zero s, left)

  -- At the start of a character, in a text of less than 2 ^ 32 - 1 bytes, an offset that was made a
  -- position comes back from it, without a panic.
  pub position_to_offset-offset_to_position :
      position_to_offset
        (new (s ++ rest))
        (s ++ rest)
        (offset_to_position (new (s ++ rest)) (byte_len s))
      ≡ some (byte_len s)
  unfolding position_to_offset
  position_to_offset-offset_to_position =
      let over : leb (suc (length (starts 0 (s ++ rest)))) (newlines s) ≡ false =
        ground (arith, newlines-length-starts 0 s rest) in
      rw (
        offset_to_position-append,
        line_offsets_lem,
        over,
        starts-line 0 0 s rest,
        line_start-zero s,
        text_from-last_line s rest,
        count_to-append (byte_len (last_line s)) 0 (last_line s) rest (omega arith),
        ← byte_len-append (full_lines s) (last_line s),
        full_lines-last_line s,
      )

-- A place in `s`, at byte `o` where `s` begins at byte `k`.
abbrev Place : ℕ → Text → ℕ → Type 0
Place k s o = (p : Text) × (q : Text) × (s ≡ p ++ q) × (o ≡ k + byte_len p)

line_feed-Place :
    (k c : ℕ) (s : Text) (i : ℕ)
    → (c == b'\n') ≡ true
    → ((j : ℕ)
        → j < length (starts (k + len_utf8 c) s)
        → Place (k + len_utf8 c) s (get_or_zero (starts (k + len_utf8 c) s) j))
    → i < suc (length (starts (k + len_utf8 c) s))
    → Place k (c ∷ s) (get_or_zero ((k + 1) ∷ starts (k + len_utf8 c) s) i)
unfolding get_or_zero byte_len
line_feed-Place k c s zero lf h l =
    let one = len_utf8-line_feed c lf in (c ∷ [], s, refl, omega (arith, one))
line_feed-Place k c s (suc j) lf h l =
    let (p, q, e, o) = h j (omega arith) in (c ∷ p, q, ap (λ x. c ∷ x) e, omega arith)

-- Each entry of the index but the first is a place in the text.
starts-Place :
    (k : ℕ) (s : Text) (i : ℕ) → i < length (starts k s) → Place k s (get_or_zero (starts k s) i)
unfolding get_or_zero byte_len
starts-Place k [] i l = absurd (omega arith)
starts-Place k (c ∷ s) i l = elim (Bool-cases (c == b'\n')) [
  | inl lf ↦
      rw lf (line_feed-Place k c s i lf (λ j. starts-Place (k + len_utf8 c) s j) (rw lf at l))
  | inr other ↦
      let (p, q, e, h) = starts-Place (k + len_utf8 c) s i (rw other at l) in
      rw other (c ∷ p, q, ap (λ x. c ∷ x) e, omega arith)
]

text_from-Place : (s : Text) (o : ℕ) → Place 0 s o → (rest : Text) × (text_from o s ≡ some rest)
text_from-Place s o (p, q, e, h) =
    let same : o ≡ byte_len p = omega arith in (q, rw same (rw e (text_from-append p q)))

-- In a text of less than 2 ^ 32 bytes no line starts inside a character or beyond the end.
line_start-Place :
    (source : Text) (line : ℕ)
    → byte_len source < u32_mod
    → line < length (new source).line_offsets
    → (rest : Text) × (text_from (get_or_zero (new source).line_offsets line) source ≡ some rest)
unfolding new get_or_zero
line_start-Place source zero fits l = (source, text_from_zero source)
line_start-Place source (suc i) fits l =
    let same = offsets_from-utf8 0 source (omega arith) in
    let inside : i < length (offsets_from 0 (utf8 source)) = omega arith in
    rw same (text_from-Place source _ (starts-Place 0 source i (rw same at inside)))

-- With the index of the text `position_to_offset` answers.
pub position_to_offset-new :
    (source : Text) (position : ℕ × ℕ)
    → byte_len source < u32_mod
    → (offset : ℕ) × (position_to_offset (new source) source position ≡ some offset)
unfolding position_to_offset
position_to_offset-new source (line, character) fits =
    elim (Bool-cases (leb (length (new source).line_offsets) line)) [
      | inl over ↦ rw over (byte_len source, refl)
      | inr inside ↦
          let (rest, e) = line_start-Place source line fits (ground arith) in
          rw inside (rw e (_, refl))
    ]
