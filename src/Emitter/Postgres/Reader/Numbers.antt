-- ===== src/Emitter/Postgres/Reader/Numbers.antt =====
-- The number that the PostgreSQL emitter writes is read back (`emit_literal`,
-- crates/postgresql-emitter/src/mappers/expression.rs).
use tsqlremaker.Base.{
  ℕ, zero, suc, ◌+◌, ◌-◌, ◌*◌, ◌/◌, ◌%◌, ◌<◌, ◌≡◌, refl, ◌∙◌, true, false, Bool-cases, inl, inr, [],
  ◌∷◌, ◌++◌, ltb, Text, is_ascii_digit, digits, decimal, arith,
}
use tsqlremaker.Emitter.Postgres.Reader.{read_nat}
use tsqlremaker.Emitter.Postgres.Reader.Words.{begins, is_stop, stops}

digits-append : (f n : ℕ) (s rest : Text) → digits f n s ++ rest ≡ digits f n (s ++ rest)
unfolding digits
digits-append zero n s rest = refl
digits-append (suc f) n s rest = elim (Bool-cases (ltb n 10)) [
  | inl small ↦ rw small refl
  | inr large ↦ rw large (digits-append f (n / 10) ((b'0' + n % 10) ∷ s) rest)
]

read_nat-digit :
    (m d n : ℕ) (s : Text) → d < 10 → m * 10 + d ≡ n → read_nat m ((b'0' + d) ∷ s) ≡ read_nat n s
unfolding read_nat
read_nat-digit m d n s l e =
    let digit : is_ascii_digit (b'0' + d) ≡ true = ground arith in
    let value : m * 10 + ((b'0' + d) - b'0') ≡ n = omega arith in rw (digit, value) refl

read_nat-digits : (f n : ℕ) (s : Text) → n < f → read_nat 0 (digits f n s) ≡ read_nat n s
unfolding digits
read_nat-digits zero n s h = absurd (omega arith)
read_nat-digits (suc f) n s h = elim (Bool-cases (ltb n 10)) [
  | inl small ↦ rw small (read_nat-digit 0 n n s (ground arith) (omega arith))
  | inr large ↦
      let less : n / 10 < f = ground arith in
      rw large (
        read_nat-digits f (n / 10) ((b'0' + n % 10) ∷ s) less
        ∙ read_nat-digit (n / 10) (n % 10) n s (omega arith) (omega arith))
]

read_nat-stop : (n : ℕ) (s : Text) → stops s ≡ true → read_nat n s ≡ (n, s)
unfolding read_nat stops is_stop
read_nat-stop n [] h = refl
read_nat-stop n (c ∷ s) h = let other : is_ascii_digit c ≡ false = ground arith in rw other refl

begins-digits :
    (f n : ℕ) (s : Text)
    → begins is_ascii_digit s ≡ true
    → begins is_ascii_digit (digits f n s) ≡ true
unfolding digits begins
begins-digits zero n s h = h
begins-digits (suc f) n s h = elim (Bool-cases (ltb n 10)) [
  | inl small ↦ rw small (ground arith)
  | inr large ↦ rw large (begins-digits f (n / 10) ((b'0' + n % 10) ∷ s) (ground arith))
]

-- The number stands before `rest` in digits.
pub read_nat-decimal :
    (n : ℕ) (rest : Text) → stops rest ≡ true → read_nat 0 (decimal n ++ rest) ≡ (n, rest)
unfolding decimal
read_nat-decimal n rest h =
    rw (digits-append (suc n) n [] rest)
      (read_nat-digits (suc n) n rest (omega arith) ∙ read_nat-stop n rest h)

pub begins-decimal : (n : ℕ) (rest : Text) → begins is_ascii_digit (decimal n ++ rest) ≡ true
unfolding decimal digits begins
begins-decimal n rest = rw (digits-append (suc n) n [] rest) (elim (Bool-cases (ltb n 10)) [
  | inl small ↦ rw small (ground arith)
  | inr large ↦ rw large (begins-digits n (n / 10) ((b'0' + n % 10) ∷ rest) (ground arith))
])
