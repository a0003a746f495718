-- ===== src/Emitter/Quoting/Bytes.antt =====
-- Names that the PostgreSQL emitter writes without quotes, byte by byte
-- (crates/postgresql-emitter/src/mappers/identifier.rs).
use tsqlremaker.Base.{
  ℕ, ◌≤◌, ◌≡◌, refl, sym, ◌∙◌, Bool, true, false, ◌&&◌, ◌||◌, not, Bool-cases, inl, inr, List, [],
  ◌∷◌, ◌++◌, map, ◌==◌, leb, ltb, Text, utf8, utf8_char, to_ascii_lowercase, is_ascii_digit, arith,
}
use tsqlremaker.Emitter.Quoting.{is_ascii_lowercase, has_other, bytes_need_quoting}

-- The characters of a name without quotes: letters, also those beyond ASCII, and the underscore, and
-- behind the first also digits and the dollar.
unfoldable pub is_letter : ℕ → Bool
is_letter c = is_ascii_lowercase c || ((leb b'A' c && leb c b'Z') || (c == b'_' || leb 0x80 c))

unfoldable pub is_part : ℕ → Bool
is_part c = is_letter c || (is_ascii_digit c || c == b'$')

unfoldable pub all_parts : Text → Bool
all_parts [] = true
all_parts (c ∷ s) = is_part c && all_parts s

-- A byte that may stand in a name without quotes is a character that has no other case.
other_lem :
    (c : ℕ)
    → (not (is_ascii_lowercase c) && not (is_ascii_digit c) && not (c == b'_')) ≡ false
    → to_ascii_lowercase c ≡ c
unfolding to_ascii_lowercase is_ascii_lowercase
other_lem c h = ground arith

part_lem :
    (c : ℕ)
    → (not (is_ascii_lowercase c) && not (is_ascii_digit c) && not (c == b'_')) ≡ false
    → is_part c ≡ true
unfolding is_part is_letter
part_lem c h = ground arith

pub false-true : ¬ (false ≡ true)
false-true e = cc

-- A byte beyond ASCII may not.
has_other-high : (b : ℕ) (bs : List ℕ) → 0x80 ≤ b → has_other (b ∷ bs) ≡ true
unfolding has_other is_ascii_lowercase
has_other-high b bs l = ground arith

pub has_other-utf8_char :
    (c : ℕ) (bs : List ℕ) → ltb c 0x80 ≡ false → has_other (utf8_char c ++ bs) ≡ true
unfolding utf8_char
has_other-utf8_char c bs h = elim (Bool-cases (ltb c 0x800)) [
  | inl two ↦ rw h (rw two (has_other-high _ _ (omega arith)))
  | inr more ↦ elim (Bool-cases (ltb c 0x10000)) [
    | inl three ↦ rw h (rw more (rw three (has_other-high _ _ (omega arith))))
    | inr four ↦ rw h (rw more (rw four (has_other-high _ _ (omega arith))))
  ]
]

pub utf8_char-ascii : (c : ℕ) → ltb c 0x80 ≡ true → utf8_char c ≡ (c ∷ [])
unfolding utf8_char
utf8_char-ascii c h = rw h refl

has_other-cons :
    (b : ℕ) (bs : List ℕ)
    → has_other (b ∷ bs) ≡ false
    → (to_ascii_lowercase b ≡ b) × (is_part b ≡ true) × (has_other bs ≡ false)
unfolding has_other
has_other-cons b bs h =
    elim (Bool-cases (not (is_ascii_lowercase b) && not (is_ascii_digit b) && not (b == b'_'))) [
      | inl other ↦ absurd (false-true (sym (rw other at h)))
      | inr plain ↦ (other_lem b plain, part_lem b plain, rw plain at h)
    ]

pub map-has_other :
    (s : Text) → has_other (utf8 s) ≡ false → (map to_ascii_lowercase s ≡ s) × (all_parts s ≡ true)
unfolding utf8 all_parts
map-has_other [] h = (refl, refl)
map-has_other (c ∷ s) h = elim (Bool-cases (ltb c 0x80)) [
  | inl ascii ↦
      let (e, part, h') = has_other-cons c (utf8 s) (rw (utf8_char-ascii c ascii) at h) in
      let (e', parts) = map-has_other s h' in (cc (e, e'), rw part parts)
  | inr beyond ↦ absurd (false-true (sym h ∙ has_other-utf8_char c (utf8 s) beyond))
]

pub bytes_need_quoting-has_other :
    (bs : List ℕ) → bytes_need_quoting bs ≡ false → has_other bs ≡ false
unfolding bytes_need_quoting has_other
bytes_need_quoting-has_other [] h = absurd (false-true (sym h))
bytes_need_quoting-has_other (b ∷ bs) h = ground arith

-- The first character of a name without quotes.
pub first-is_letter :
    (c : ℕ) (s : Text) → bytes_need_quoting (utf8 (c ∷ s)) ≡ false → is_letter c ≡ true
unfolding bytes_need_quoting is_letter utf8 has_other
first-is_letter c s h = elim (Bool-cases (ltb c 0x80)) [
  | inl ascii ↦
      let h' : bytes_need_quoting (c ∷ utf8 s) ≡ false = rw (utf8_char-ascii c ascii) at h in
      ground arith
  | inr beyond ↦ absurd (
      false-true (
        sym (bytes_need_quoting-has_other (utf8 (c ∷ s)) h)
        ∙ has_other-utf8_char c (utf8 s) beyond))
]

-- No name without quotes starts with one.
pub no_quote : (s : Text) → bytes_need_quoting (utf8 (b'"' ∷ s)) ≡ true
unfolding bytes_need_quoting utf8 utf8_char is_ascii_lowercase
no_quote s = refl
