-- ===== src/SchemaDiff/Lookup.antt =====
-- What a map holds after insertions (crates/schema-diff/src/diff.rs).
use tsqlremaker.Base.{
  ◌≡◌, refl, sym, ap, ◌∙◌, Bool, true, false, ◌||◌, Bool-cases, inl, inr, List, [], ◌∷◌, map,
  if◌then◌else◌, Option, none, some, Text, text_eq, eq_of_text_eq,
}
use tsqlremaker.SchemaDiff.Maps.{text_lt, insert, collect_into, get, keys}
use tsqlremaker.SchemaDiff.Swap.{any}

text_eq_swap : (s t : Text) → text_eq s t ≡ text_eq t s
text_eq_swap s t = elim (Bool-cases (text_eq s t)) [
  | inl same ↦ rw (eq_of_text_eq s t same) refl
  | inr other ↦ elim (Bool-cases (text_eq t s)) [
    | inl same ↦ rw (eq_of_text_eq t s same) refl
    | inr other' ↦ other ∙ sym other'
  ]
]

unfoldable pub is_some : {A : Type 0} → Option A → Bool
is_some none = false
is_some (some a) = true

if_twice :
    {A : Type 0} (b : Bool) (x y z : A)
    → (if b then x else z) ≡ (if b then x else if b then y else z)
if_twice true x y z = refl
if_twice false x y z = refl

apart : (n k k' : Text) → text_eq k k' ≡ false → ¬ ((text_eq n k ≡ true) × (text_eq n k' ≡ true))
apart n k k' other (p, q) = let e = eq_of_text_eq n k p in cc (e, q, other)

-- Two tests that do not pass together may change places.
if_swap :
    {A : Type 0} (b c : Bool) (x y z : A)
    → ¬ ((b ≡ true) × (c ≡ true))
    → (if c then y else if b then x else z) ≡ (if b then x else if c then y else z)
if_swap true true x y z h = absurd (h (refl, refl))
if_swap true false x y z h = refl
if_swap false true x y z h = refl
if_swap false false x y z h = refl

or_move : (a b c : Bool) → (a || (b || c)) ≡ ((b || a) || c)
or_move true true c = refl
or_move true false c = refl
or_move false true c = refl
or_move false false c = refl

is_some-if :
    {A : Type 0} (b : Bool) (v : A) (o : Option A)
    → is_some (if b then some v else o) ≡ (b || is_some o)
unfolding is_some
is_some-if true v o = refl
is_some-if false v o = refl

module _ {A : Type 0} where
  -- The value at a key after an insertion.
  get-insert :
      (n k : Text) (v : A) (m : List (Text × A))
      → get n (insert k v m) ≡ (if text_eq n k then some v else get n m)
  unfolding get insert
  get-insert n k v [] = refl
  get-insert n k v ((k', v') ∷ m) = elim (Bool-cases (text_eq k k')) [
    | inl same ↦
        rw same
          (rw (eq_of_text_eq k k' same) (if_twice (text_eq n k') (some v) (some v') (get n m)))
    | inr other ↦ elim (Bool-cases (text_lt k k')) [
      | inl before ↦ rw other (rw before refl)
      | inr behind ↦ rw other (
          rw behind (
            rw (get-insert n k v m) (
              if_swap (text_eq n k) (text_eq n k') (some v) (some v') (get n m)
                (apart n k k' other))))
    ]
  ]

  is_some-insert :
      (n k : Text) (v : A) (m : List (Text × A))
      → is_some (get n (insert k v m)) ≡ (text_eq n k || is_some (get n m))
  is_some-insert n k v m = rw (get-insert n k v m) (is_some-if (text_eq n k) v (get n m))

  pub is_some-collect_into :
      (n : Text) (m kvs : List (Text × A))
      → is_some (get n (collect_into m kvs)) ≡ (any (λ kv. text_eq n kv.0) kvs || is_some (get n m))
  unfolding collect_into any
  is_some-collect_into n m [] = refl
  is_some-collect_into n m ((k, v) ∷ kvs) =
      is_some-collect_into n (insert k v m) kvs
      ∙ (ap (λ b. any (λ kv. text_eq n kv.0) kvs || b) (is_some-insert n k v m)
          ∙ or_move (any (λ kv. text_eq n kv.0) kvs) (text_eq n k) (is_some (get n m)))

  pub is_some-keys :
      (n : Text) (m : List (Text × A)) → any (λ k. text_eq k n) (keys m) ≡ is_some (get n m)
  unfolding any keys get is_some
  is_some-keys n [] = refl
  is_some-keys n ((k, v) ∷ m) =
      rw (text_eq_swap k n) (rw (is_some-keys n m) (sym (is_some-if (text_eq n k) v (get n m))))

  -- Values that know their keys.
  unfoldable pub Keyed : (A → Text) → List (Text × A) → Type 0
  Keyed name m = (k : Text) (v : A) → get k m ≡ some v → name v ≡ k

  pub nil-Keyed : (name : A → Text) → Keyed name []
  unfolding Keyed get
  nil-Keyed name k v e = absurd cc

  pub collect_into-Keyed :
      (name : A → Text) (m : List (Text × A)) (vs : List A)
      → Keyed name m
      → Keyed name (collect_into m (map (λ v. (name v, v)) vs))
  unfolding Keyed collect_into
  collect_into-Keyed name m [] h = h
  collect_into-Keyed name m (x ∷ vs) h = collect_into-Keyed name (insert (name x) x m) vs λ k v e.
      let e' = rw (get-insert k (name x) x m) at e in
      elim (Bool-cases (text_eq k (name x))) [
        | inl same ↦
            let p = eq_of_text_eq k (name x) same in
            let q : some x ≡ some v = rw same at e' in cc (p, q)
        | inr other ↦ h k v (rw other at e')
      ]
