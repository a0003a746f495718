-- ===== src/Server/Incremental/Boundaries.antt =====
-- Where a text may be cut (crates/ase-ls-core/src/incremental.rs).
use tsqlremaker.Base.{
  ℕ, zero, suc, ◌+◌, ◌-◌, ◌≤◌, ◌≡◌, refl, ap, ◌∙◌, true, false, Bool-cases, inl, inr, [], ◌∷◌, ◌++◌,
  ltb, some, Text, byte_len, len_utf8, len_utf8_bounds, is_char_boundary, arith,
}
use tsqlremaker.Server.Incremental.{cons, get_to, snap}

to_zero : (s : Text) → get_to 0 s ≡ some []
unfolding get_to
to_zero s = refl

boundary_zero : (s : Text) → is_char_boundary 0 s ≡ true
unfolding is_char_boundary
boundary_zero s = refl

no_boundary : (n : ℕ) → ¬ (is_char_boundary (suc n) [] ≡ true)
unfolding is_char_boundary
no_boundary n h = cc

-- A character of a text is behind its first bytes.
module _ (n c m : ℕ) (s : Text) (e : suc n ≡ len_utf8 c + m) where
  over : ltb (suc n) (len_utf8 c) ≡ false
  over = ground arith

  back : suc n - len_utf8 c ≡ m
  back = omega arith

  get_to-cons : get_to (suc n) (c ∷ s) ≡ cons c (get_to m s)
  unfolding get_to
  get_to-cons = rw over (rw back refl)

  boundary-cons : is_char_boundary (suc n) (c ∷ s) ≡ is_char_boundary m s
  unfolding is_char_boundary
  boundary-cons = rw over (rw back refl)

-- An offset behind the first character.
less : ℕ → ℕ → ℕ
less c m = len_utf8 c + m - 1

suc-less : (c m : ℕ) → suc (less c m) ≡ len_utf8 c + m
unfolding less
suc-less c m = omega (arith, len_utf8_bounds c)

pub get_to-append : (p q : Text) → get_to (byte_len p) (p ++ q) ≡ some p
unfolding byte_len
get_to-append [] q = to_zero q
get_to-append (c ∷ p) q =
    let e = suc-less c (byte_len p) in
    rw⁻¹ e (
      get_to-cons (less c (byte_len p)) c (byte_len p) (p ++ q) e ∙ ap (cons c) (get_to-append p q))

pub boundary-append : (p q : Text) → is_char_boundary (byte_len p) (p ++ q) ≡ true
unfolding byte_len
boundary-append [] q = boundary_zero q
boundary-append (c ∷ p) q =
    let e = suc-less c (byte_len p) in
    rw⁻¹ e (boundary-cons (less c (byte_len p)) c (byte_len p) (p ++ q) e ∙ boundary-append p q)

-- A boundary is not inside the first character, and cuts the text behind it.
boundary-inside :
    (n c : ℕ) (s : Text)
    → is_char_boundary (suc n) (c ∷ s) ≡ true
    → (len_utf8 c ≤ suc n) × (is_char_boundary (suc n - len_utf8 c) s ≡ true)
unfolding is_char_boundary
boundary-inside n c s h =
    let l : len_utf8 c ≤ suc n = ground arith in
    let whole : ltb (suc n) (len_utf8 c) ≡ false = ground arith in (l, rw whole at h)

-- A boundary cuts the text in two.
pub boundary-cut :
    (n : ℕ) (s : Text)
    → is_char_boundary n s ≡ true
    → (p : Text) × (q : Text) × (s ≡ p ++ q) × (byte_len p ≡ n)
unfolding byte_len
boundary-cut zero s h = ([], s, refl, refl)
boundary-cut (suc n) [] h = absurd (no_boundary n h)
boundary-cut (suc n) (c ∷ s) h =
    let (l, h') = boundary-inside n c s h in
    let (p, q, e, k) = boundary-cut (suc n - len_utf8 c) s h' in
    (c ∷ p, q, ap (λ x. c ∷ x) e, omega arith)

pub snap-boundary : (n : ℕ) (s : Text) → is_char_boundary (snap n s) s ≡ true
unfolding snap
snap-boundary zero s = boundary_zero s
snap-boundary (suc n) s = elim (Bool-cases (is_char_boundary (suc n) s)) [
  | inl found ↦ rw found found
  | inr other ↦ rw other (snap-boundary n s)
]
