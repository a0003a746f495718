-- ===== src/Parser/Buffer/Ring.antt =====
-- Stretches of a list in the slots of the ring.
use tsqlremaker.Base.{
  ℕ, zero, suc, ◌+◌, ◌-◌, ◌%◌, ◌≤◌, ◌<◌, ◌≡◌, ◌≢◌, inl, inr, sym, ◌&&◌, ◌==◌, ==_iff, ==_refl, ltb,
  lt→ltb, if◌then◌else◌, Option, none, some, List, [], ◌∷◌, drop, length, get_elem?, arith,
  Bool-cases,
}
use tsqlremaker.Lexer.Token.{Token}
use tsqlremaker.Parser.Buffer.{Slots, put}

pub put-get : (i : ℕ) (t : Option Token) (slots : Slots) → put i t slots i ≡ t
unfolding put
put-get i t slots = rw (==_refl i)

pub put-get_other : (i j : ℕ) (t : Option Token) (slots : Slots) → j ≢ i → put i t slots j ≡ slots j
unfolding put
put-get_other i j t slots n = elim (Bool-cases (j == i)) [
  | inl e ↦ absurd (n ((==_iff j i).0 e))
  | inr e ↦ rw e
]

pub drop-nil {ℓ} : {A : Type ℓ} (k : ℕ) (xs : List A) → [] ≡ drop k xs → length xs ≤ k
drop-nil zero [] e = omega arith
drop-nil zero (x ∷ xs) e = cc
drop-nil (suc k) [] e = omega arith
drop-nil (suc k) (x ∷ xs) e = omega (arith, drop-nil k xs e)

pub drop-cons {ℓ} :
    {A : Type ℓ} (k : ℕ) (xs : List A) {y : A} {ys : List A}
    → (y ∷ ys) ≡ drop k xs
    → (get_elem? xs k ≡ some y) × (drop (suc k) xs ≡ ys) × (k < length xs)
drop-cons zero [] e = cc
drop-cons zero (x ∷ xs) e = (cc, cc, omega arith)
drop-cons (suc k) [] e = cc
drop-cons (suc k) (x ∷ xs) e = let (g, d, l) = drop-cons k xs e in (g, d, omega arith)

-- Different places of a stretch of at most three have different slots.
pub slot_other : (c k f : ℕ) → c + k < f → f < c + 3 → (c + k) % 3 ≢ f % 3
slot_other c k f l h e = omega arith

-- A token that is stored behind the last one, in a ring with room, leaves the others.
pub ring-stored :
    (buffer : Slots) (c f : ℕ) (ts : List Token) {t : Token}
    → c ≤ f
    → f < c + 3
    → ((i : ℕ) → c + i < f → buffer ((c + i) % 3) ≡ get_elem? ts i)
    → get_elem? ts (f - c) ≡ some t
    → (i : ℕ) → c + i < f + 1
    → put (f % 3) (some t) buffer ((c + i) % 3) ≡ get_elem? ts i
ring-stored buffer c f ts {t} h l agrees g i k = elim (Bool-cases (c + i == f)) [
  | inl e ↦
      let at : c + i ≡ f = (==_iff (c + i) f).0 e in
      let place : f - c ≡ i = omega arith in
      rw (at, put-get (f % 3) (some t) buffer) (sym (rw place at g))
  | inr e ↦
      let inside : c + i < f = ground arith in
      rw (put-get_other (f % 3) ((c + i) % 3) (some t) buffer (slot_other c i f inside l))
        (agrees i inside)
]

-- The first token taken out leaves the others.
pub ring-taken :
    (buffer : Slots) (c f : ℕ) (t : Token) (ts : List Token)
    → f ≤ c + 3
    → ((i : ℕ) → c + i < f → buffer ((c + i) % 3) ≡ get_elem? (t ∷ ts) i)
    → (i : ℕ) → c + 1 + i < f
    → put (c % 3) none buffer ((c + 1 + i) % 3) ≡ get_elem? ts i
ring-taken buffer c f t ts l agrees i k =
    let step : c + 1 + i ≡ c + suc i = omega arith in
    let other : (c + 1 + i) % 3 ≢ c % 3 = λ e. omega arith in
    rw (put-get_other (c % 3) ((c + 1 + i) % 3) none buffer other, step)
      (agrees (suc i) (omega arith))

-- The shift of a cursor at 3 leaves the tokens from it on.
pub ring-shifted :
    (buffer : Slots) (c f : ℕ) (ts : List Token)
    → c ≡ 3
    → f ≤ c + 3
    → ((i : ℕ) → c + i < f → buffer ((c + i) % 3) ≡ get_elem? ts i)
    → (i : ℕ) → 0 + i < f - 3
    → (if ltb ((0 + i) % 3) 3 && ltb (c + (0 + i) % 3) f
        then buffer ((c + (0 + i) % 3) % 3)
        else none)
      ≡ get_elem? ts i
ring-shifted buffer c f ts e l agrees i k =
    let same : (0 + i) % 3 ≡ i = omega arith in
    let inside : c + i < f = omega arith in
    rw (same, lt→ltb i 3 (omega arith), lt→ltb (c + i) f inside) (agrees i inside)
