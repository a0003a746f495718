-- ===== src/Emitter/Postgres/Reader/Words.antt =====
-- Quoted texts, names and numbers that the PostgreSQL emitter writes are read back, whatever stands
-- behind them (crates/postgresql-emitter/src/mappers/identifier.rs and expression.rs).
use tsqlremaker.Base.{
  ℕ, ◌≡◌, refl, sym, ap, ◌∙◌, Bool, true, false, ◌&&◌, ◌||◌, not, Bool-cases, inl, inr, List, [],
  ◌∷◌, ◌++◌, ◌==◌, ltb, some, Text, text_eq, utf8, is_ascii_digit, arith,
}
use tsqlremaker.Emitter.Reserved.{reserved_words}
use tsqlremaker.Emitter.Quoting.{
  is_ascii_lowercase, contains, doubled, has_other, bytes_need_quoting, needs_quoting, quote,
}
use tsqlremaker.Emitter.Quoting.Bytes.{
  false-true, has_other-utf8_char, utf8_char-ascii, bytes_need_quoting-has_other,
}
use tsqlremaker.Emitter.Quoting.Reading.{missed_words, Readable, not_reserved, equal}
use tsqlremaker.Emitter.Postgres.Reader.{
  cons_first, read_quoted, is_word, longer, named, starts_word, read_word, read_name,
}

-- What begins a text, if anything does.
unfoldable pub begins : (ℕ → Bool) → Text → Bool
begins test [] = false
begins test (c ∷ s) = test c

unfoldable pub is_stop : ℕ → Bool
is_stop c = c == b' ' || (c == b')' || c == b',')

-- No word, no number and no quoted text goes on here, and a point does not follow.
unfoldable pub stops : Text → Bool
stops [] = true
stops (c ∷ s) = is_stop c

-- The same, where a point may follow.
unfoldable pub breaks : Text → Bool
breaks [] = true
breaks (c ∷ s) = is_stop c || c == b'.'

pub stops-breaks : (s : Text) → stops s ≡ true → breaks s ≡ true
unfolding stops breaks
stops-breaks [] h = refl
stops-breaks (c ∷ s) h = rw h refl

read_quoted-close :
    (q : ℕ) (rest : Text)
    → begins (λ c. c == q) rest ≡ false
    → read_quoted q (q ∷ rest) ≡ some ([], rest)
unfolding read_quoted begins
read_quoted-close q [] h = rw (equal q) refl
read_quoted-close q (d ∷ rest) h = rw (equal q, h) refl

read_quoted-other :
    (q c : ℕ) (s : Text) → (c == q) ≡ false → read_quoted q (c ∷ s) ≡ cons_first c (read_quoted q s)
unfolding read_quoted
read_quoted-other q c [] e = rw e refl
read_quoted-other q c (d ∷ s) e = rw e refl

read_quoted-pair : (q : ℕ) (s : Text) → read_quoted q (q ∷ q ∷ s) ≡ cons_first q (read_quoted q s)
unfolding read_quoted
read_quoted-pair q s = rw (equal q) refl

-- A text with its quotes doubled, and the closing quote.
pub read_quoted-doubled :
    (q : ℕ) (s rest : Text)
    → begins (λ c. c == q) rest ≡ false
    → read_quoted q ((doubled q s ++ (q ∷ [])) ++ rest) ≡ some (s, rest)
unfolding doubled
read_quoted-doubled q [] rest h = read_quoted-close q rest h
read_quoted-doubled q (c ∷ s) rest h =
    let behind = (doubled q s ++ (q ∷ [])) ++ rest in
    elim (Bool-cases (c == q)) [
      | inl same ↦
          let e : q ≡ c = ground arith in
          rw same (
            read_quoted-pair q behind
            ∙ (ap (cons_first q) (read_quoted-doubled q s rest h) ∙ ap (λ x. some (x ∷ s, rest)) e))
      | inr other ↦
          rw other (
            read_quoted-other q c behind other ∙ ap (cons_first c) (read_quoted-doubled q s rest h))
    ]

all_words : Text → Bool
all_words [] = true
all_words (c ∷ s) = is_word c && all_words s

word_lem :
    (c : ℕ)
    → (not (is_ascii_lowercase c) && not (is_ascii_digit c) && not (c == b'_')) ≡ false
    → is_word c ≡ true
unfolding is_word
word_lem c h = ground arith

has_other-word :
    (c : ℕ) (bs : List ℕ) → has_other (c ∷ bs) ≡ false → (is_word c ≡ true) × (has_other bs ≡ false)
unfolding has_other
has_other-word c bs h =
    elim (Bool-cases (not (is_ascii_lowercase c) && not (is_ascii_digit c) && not (c == b'_'))) [
      | inl other ↦ absurd (false-true (sym (rw other at h)))
      | inr plain ↦ (word_lem c plain, rw plain at h)
    ]

has_other-all_words : (s : Text) → has_other (utf8 s) ≡ false → all_words s ≡ true
unfolding all_words utf8 has_other
has_other-all_words [] h = refl
has_other-all_words (c ∷ s) h = elim (Bool-cases (ltb c 0x80)) [
  | inl ascii ↦
      let (e, h') = has_other-word c (utf8 s) (rw (utf8_char-ascii c ascii) at h) in
      rw (e, has_other-all_words s h') refl
  | inr beyond ↦ absurd (false-true (sym h ∙ has_other-utf8_char c (utf8 s) beyond))
]

break-word : (c : ℕ) → (is_stop c || c == b'.') ≡ true → is_word c ≡ false
unfolding is_stop is_word is_ascii_lowercase
break-word c h = ground arith

read_word-words :
    (s rest : Text) → all_words s ≡ true → breaks rest ≡ true → read_word (s ++ rest) ≡ (s, rest)
unfolding all_words read_word breaks
read_word-words [] [] h k = refl
read_word-words [] (c ∷ rest) h k = rw (break-word c k) refl
read_word-words (c ∷ s) rest h k =
    let first : is_word c ≡ true = ground arith in
    let others : all_words s ≡ true = ground arith in
    rw first (ap (longer c) (read_word-words s rest others k))

pub not_quote :
    (q : ℕ) (rest : Text)
    → (q == b'"' || q == b'\'') ≡ true
    → breaks rest ≡ true
    → begins (λ c. c == q) rest ≡ false
unfolding breaks begins is_stop
not_quote q [] h k = refl
not_quote q (d ∷ rest) h k = ground arith

start_no_quote : (c : ℕ) → starts_word c ≡ true → (c == b'"') ≡ false
unfolding starts_word is_ascii_lowercase
start_no_quote c h = ground arith

first-starts_word :
    (c : ℕ) (s : Text) → bytes_need_quoting (utf8 (c ∷ s)) ≡ false → starts_word c ≡ true
unfolding bytes_need_quoting starts_word utf8 has_other
first-starts_word c s h = elim (Bool-cases (ltb c 0x80)) [
  | inl ascii ↦
      let h' : bytes_need_quoting (c ∷ utf8 s) ≡ false = rw (utf8_char-ascii c ascii) at h in
      ground arith
  | inr beyond ↦ absurd (
      false-true (
        sym (bytes_need_quoting-has_other (utf8 (c ∷ s)) h)
        ∙ has_other-utf8_char c (utf8 s) beyond))
]

-- What begins a name in the text.
unfoldable pub is_name_start : ℕ → Bool
is_name_start c = c == b'"' || starts_word c

module _ (upper : Text → Text) (is_reserved : Text → Bool)
    (listed : (s : Text)
      → is_reserved s ≡ true
      → contains missed_words s ≡ false
      → contains reserved_words (upper s) ≡ true) where
  plain-start :
      (s rest : Text) → needs_quoting upper s ≡ false → begins starts_word (s ++ rest) ≡ true
  unfolding needs_quoting begins
  plain-start [] rest h = absurd (false-true (sym h))
  plain-start (c ∷ s) rest h = first-starts_word c s (ground arith)

  either_start : (s : Text) → begins starts_word s ≡ true → begins is_name_start s ≡ true
  unfolding is_name_start begins
  either_start [] h = absurd (false-true h)
  either_start (c ∷ s) h = ground arith

  pub quote-start : (s rest : Text) → begins is_name_start (quote upper s ++ rest) ≡ true
  unfolding quote is_name_start begins
  quote-start s rest = elim (Bool-cases (needs_quoting upper s)) [
    | inl quoted ↦ rw quoted refl
    | inr plain ↦ rw plain (either_start (s ++ rest) (plain-start s rest plain))
  ]

  read_name-plain :
      (s rest : Text)
      → contains missed_words s ≡ false
      → needs_quoting upper s ≡ false
      → breaks rest ≡ true
      → read_name is_reserved (s ++ rest) ≡ some (s, rest)
  unfolding read_name needs_quoting
  read_name-plain [] rest m h k = absurd (false-true (sym h))
  read_name-plain (c ∷ s) rest m h k =
      let free : contains reserved_words (upper (c ∷ s)) ≡ false = ground arith in
      let plain : bytes_need_quoting (utf8 (c ∷ s)) ≡ false = ground arith in
      let start = first-starts_word c s plain in
      let words = has_other-all_words (c ∷ s) (bytes_need_quoting-has_other (utf8 (c ∷ s)) plain) in
      rw (start_no_quote c start, start, read_word-words (c ∷ s) rest words k)
        (rw (not_reserved upper is_reserved listed (c ∷ s) m free) refl)

  -- A name that the emitter writes is read back where it ends.
  pub read_name-quoted :
      (s rest : Text)
      → Readable s
      → breaks rest ≡ true
      → read_name is_reserved (quote upper s ++ rest) ≡ some (s, rest)
  unfolding quote read_name text_eq
  read_name-quoted [] rest (e, m) k = absurd (false-true (sym e))
  read_name-quoted (c ∷ s) rest (e, m) k = elim (Bool-cases (needs_quoting upper (c ∷ s))) [
    | inl quoted ↦
        rw quoted (ap named (read_quoted-doubled b'"' (c ∷ s) rest (not_quote b'"' rest refl k)))
    | inr plain ↦ rw plain (read_name-plain (c ∷ s) rest m plain k)
  ]
