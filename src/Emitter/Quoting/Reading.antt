-- ===== src/Emitter/Quoting/Reading.antt =====
-- PostgreSQL reads back what the emitter writes (crates/postgresql-emitter/src/mappers/identifier.rs
-- and expression.rs).
use tsqlremaker.Base.{
  ℕ, ◌≡◌, refl, sym, ap, ◌∙◌, Bool, true, false, ◌&&◌, Bool-cases, inl, inr, List, [], ◌∷◌, ◌++◌,
  map, ◌==◌, if◌then◌else◌, Option, none, some, Text, codes, text_eq, utf8, to_ascii_lowercase,
  arith,
}
use tsqlremaker.Emitter.Reserved.{reserved_words}
use tsqlremaker.Emitter.Quoting.{contains, doubled, bytes_need_quoting, needs_quoting, quote}
use tsqlremaker.Emitter.Quoting.Bytes.{
  is_letter, all_parts, false-true, map-has_other, bytes_need_quoting-has_other, first-is_letter,
  no_quote,
}

abbrev cons : ℕ → Option Text → Option Text
cons c none = none
cons c (some s) = some (c ∷ s)

-- The text behind an opening quote `q`, up to the closing one at its end: two quotes stand for one.
read_to : ℕ → Text → Option Text
read_to q [] = none
read_to q (c ∷ []) = if c == q then some [] else none
read_to q (c ∷ (d ∷ s)) =
    let behind = read_to q s in
    let rest = read_to q (d ∷ s) in
    if c == q then (if d == q then cons q behind else none) else cons c rest

-- PostgreSQL takes no name that is empty.
abbrev non_empty : Option Text → Option Text
non_empty none = none
non_empty (some []) = none
non_empty (some (c ∷ s)) = some (c ∷ s)

-- Words that PostgreSQL reserves, at least as the names of columns, and that the emitter's list does
-- not have; the last is reserved from version 16 on.
abbrev pub missed_words : List Text
missed_words =
    codes "is"
    ∷ codes "isnull"
    ∷ codes "notnull"
    ∷ codes "ilike"
    ∷ codes "freeze"
    ∷ codes "system_user"
    ∷ []

-- A name that is not empty and none of the missed words.
abbrev pub Readable : Text → Type 0
Readable s = (text_eq s [] ≡ false) × (contains missed_words s ≡ false)

-- How PostgreSQL reads a name of up to 63 bytes, which it does not cut, by its own test for reserved
-- words: a quoted one as it stands, unless it is empty, another one in lower case, unless it is
-- reserved.
pub read_name : (Text → Bool) → Text → Option Text
read_name is_reserved [] = none
read_name is_reserved (c ∷ s) =
    if c == b'"'
    then non_empty (read_to b'"' s)
    else if is_letter c && all_parts s
    then (if is_reserved (c ∷ s) then none else some (map to_ascii_lowercase (c ∷ s)))
    else none

pub equal : (q : ℕ) → (q == q) ≡ true
equal q = ground arith

read_to-close : (q : ℕ) → read_to q (q ∷ []) ≡ some []
unfolding read_to
read_to-close q = rw (equal q) refl

read_to-other : (q c : ℕ) (s : Text) → (c == q) ≡ false → read_to q (c ∷ s) ≡ cons c (read_to q s)
unfolding read_to
read_to-other q c [] e = rw e refl
read_to-other q c (d ∷ s) e = rw e refl

read_to-pair : (q : ℕ) (s : Text) → read_to q (q ∷ q ∷ s) ≡ cons q (read_to q s)
unfolding read_to
read_to-pair q s = rw (equal q) refl

read_to-doubled : (q : ℕ) (s : Text) → read_to q (doubled q s ++ (q ∷ [])) ≡ some s
unfolding doubled
read_to-doubled q [] = read_to-close q
read_to-doubled q (c ∷ s) = elim (Bool-cases (c == q)) [
  | inl same ↦
      let e : q ≡ c = ground arith in
      rw same (
        read_to-pair q (doubled q s ++ (q ∷ []))
        ∙ (ap (cons q) (read_to-doubled q s) ∙ ap (λ x. some (x ∷ s)) e))
  | inr other ↦
      rw other
        (read_to-other q c (doubled q s ++ (q ∷ [])) other ∙ ap (cons c) (read_to-doubled q s))
]

module _ (upper : Text → Text) (is_reserved : Text → Bool)
    (listed : (s : Text)
      → is_reserved s ≡ true
      → contains missed_words s ≡ false
      → contains reserved_words (upper s) ≡ true) where
  pub not_reserved :
      (s : Text)
      → contains missed_words s ≡ false
      → contains reserved_words (upper s) ≡ false
      → is_reserved s ≡ false
  not_reserved s k h = elim (Bool-cases (is_reserved s)) [
    | inl reserved ↦ absurd (false-true (sym h ∙ listed s reserved k))
    | inr free ↦ free
  ]

  read_name-plain :
      (s : Text)
      → contains missed_words s ≡ false
      → needs_quoting upper s ≡ false
      → read_name is_reserved s ≡ some s
  unfolding read_name needs_quoting all_parts
  read_name-plain [] k h = absurd (false-true (sym h))
  read_name-plain (c ∷ s) k h =
      let free : contains reserved_words (upper (c ∷ s)) ≡ false = ground arith in
      let plain : bytes_need_quoting (utf8 (c ∷ s)) ≡ false = ground arith in
      elim (Bool-cases (c == b'"')) [
        | inl quote_first ↦
            let e : c ≡ b'"' = ground arith in
            absurd (
              false-true (sym plain ∙ (ap (λ x. bytes_need_quoting (utf8 (x ∷ s))) e ∙ no_quote s)))
        | inr other ↦
            let (e, parts) =
              map-has_other (c ∷ s) (bytes_need_quoting-has_other (utf8 (c ∷ s)) plain) in
            let first = first-is_letter c s plain in
            let tail : all_parts s ≡ true = ground arith in
            rw other (rw (first, tail) (rw (not_reserved (c ∷ s) k free) (ap some e)))
      ]

  -- Where the emitter's list has every word that PostgreSQL reserves but IS, ISNULL, NOTNULL, ILIKE,
  -- FREEZE and SYSTEM_USER, a name that it writes, with quotes or without, is read back as it was, if it
  -- is not empty and none of these six.
  pub read_name-quote : (s : Text) → Readable s → read_name is_reserved (quote upper s) ≡ some s
  unfolding quote read_name text_eq
  read_name-quote [] (e, k) = absurd (false-true (sym e))
  read_name-quote (c ∷ s) (e, k) = elim (Bool-cases (needs_quoting upper (c ∷ s))) [
    | inl quoted ↦ rw quoted (ap non_empty (read_to-doubled b'"' (c ∷ s)))
    | inr plain ↦ rw plain (read_name-plain (c ∷ s) k plain)
  ]
