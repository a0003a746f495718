-- ===== src/SchemaDiff/Maps.antt =====
-- The standard library's ordered maps and sorting, as crates/schema-diff/src/diff.rs uses them.
use tsqlremaker.Base.{
  Bool, true, false, List, [], ◌∷◌, ltb, if◌then◌else◌, Option, none, some, Text, text_eq,
}

-- The order of `str`. That of the bytes is that of the code points.
unfoldable pub text_lt : Text → Text → Bool
text_lt s [] = false
text_lt [] (d ∷ t) = true
text_lt (c ∷ s) (d ∷ t) =
    let rest = text_lt s t in if ltb c d then true else if ltb d c then false else rest

module _ {A : Type 0} where
  -- `BTreeMap::insert`, which replaces the value at a key that is there.
  unfoldable pub insert : Text → A → List (Text × A) → List (Text × A)
  insert k v [] = (k, v) ∷ []
  insert k v ((k', v') ∷ m) =
      let behind = insert k v m in
      if text_eq k k'
      then (k, v) ∷ m
      else if text_lt k k'
      then (k, v) ∷ (k', v') ∷ m
      else (k', v') ∷ behind

  -- `collect`
  unfoldable pub collect_into : List (Text × A) → List (Text × A) → List (Text × A)
  collect_into m [] = m
  collect_into m ((k, v) ∷ kvs) = collect_into (insert k v m) kvs

  unfoldable pub collect : List (Text × A) → List (Text × A)
  collect kvs = collect_into [] kvs

  unfoldable pub get : Text → List (Text × A) → Option A
  get k [] = none
  get k ((k', v) ∷ m) = let rest = get k m in if text_eq k k' then some v else rest

  unfoldable pub keys : List (Text × A) → List Text
  keys [] = []
  keys ((k, v) ∷ m) = k ∷ keys m

  -- `sort_by` of a key, which keeps the order of what has the same key.
  unfoldable pub put : (A → Text) → A → List A → List A
  put key x [] = x ∷ []
  put key x (y ∷ ys) =
      let behind = put key x ys in if text_lt (key y) (key x) then y ∷ behind else x ∷ y ∷ ys

  unfoldable pub sort_by : (A → Text) → List A → List A
  sort_by key [] = []
  sort_by key (x ∷ xs) = put key x (sort_by key xs)

-- `dedup` of neighbours
unfoldable pub skip_same : Text → List Text → List Text
skip_same k [] = []
skip_same k (k' ∷ ks) = let rest = skip_same k' ks in if text_eq k k' then rest else k' ∷ rest

unfoldable pub dedup : List Text → List Text
dedup [] = []
dedup (k ∷ ks) = k ∷ skip_same k ks

-- `sort_unstable` of names, and `dedup`
unfoldable pub sorted_names : List Text → List Text
sorted_names ks = dedup (sort_by (λ k. k) ks)
