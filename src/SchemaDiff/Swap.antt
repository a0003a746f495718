-- ===== src/SchemaDiff/Swap.antt =====
-- `diff_schema` with its arguments exchanged (crates/schema-diff/src/diff.rs).
use tsqlremaker.Base.{
  ◌≡◌, refl, sym, ap, ◌∙◌, Bool, true, false, ◌||◌, Bool-cases, inl, inr, List, [], ◌∷◌, ◌++◌, map,
  Option, none, some, Text, codes, text_eq, eq_of_text_eq,
}
use tsqlremaker.Common.Ddl.{DataType}
use tsqlremaker.SchemaDiff.Catalog.{
  destructive, CatalogSchema, CatalogTable, TableDiff, ColumnDiff, ConstraintDiff,
}
use tsqlremaker.SchemaDiff.Maps.{
  text_lt, get, keys, put, sort_by, skip_same, dedup, sorted_names, collect,
}
use tsqlremaker.SchemaDiff.Diff.{Warned, pick, push, diff_names, diff_maps}
use tsqlremaker.SchemaDiff.Diff.Tables.{table_diff_name}
use tsqlremaker.SchemaDiff.Diff.Schema.{
  diff_columns, diff_constraints, diff_single_table, diff_tables, diff_schema, table_change,
}

unfoldable pub any : {A : Type 0} → (A → Bool) → List A → Bool
any p [] = false
any p (x ∷ xs) = p x || any p xs

or_swap : (a b c : Bool) → (a || (b || c)) ≡ (b || (a || c))
or_swap true true c = refl
or_swap true false c = refl
or_swap false b c = refl

or_assoc : (a b c : Bool) → ((a || b) || c) ≡ (a || (b || c))
or_assoc true b c = refl
or_assoc false b c = refl

or_comm : (a b : Bool) → (a || b) ≡ (b || a)
or_comm true true = refl
or_comm true false = refl
or_comm false true = refl
or_comm false false = refl

module _ {A : Type 0} (p : A → Bool) where
  pub any-append : (xs ys : List A) → any p (xs ++ ys) ≡ (any p xs || any p ys)
  unfolding any
  any-append [] ys = refl
  any-append (x ∷ xs) ys =
      ap (λ b. p x || b) (any-append xs ys) ∙ sym (or_assoc (p x) (any p xs) (any p ys))

  any-put : (key : A → Text) (x : A) (ys : List A) → any p (put key x ys) ≡ (p x || any p ys)
  unfolding any put
  any-put key x [] = refl
  any-put key x (y ∷ ys) = elim (Bool-cases (text_lt (key y) (key x))) [
    | inl before ↦
        rw before (ap (λ b. p y || b) (any-put key x ys) ∙ or_swap (p y) (p x) (any p ys))
    | inr behind ↦ rw behind refl
  ]

  any-sort_by : (key : A → Text) (xs : List A) → any p (sort_by key xs) ≡ any p xs
  unfolding any sort_by
  any-sort_by key [] = refl
  any-sort_by key (x ∷ xs) =
      any-put key x (sort_by key xs) ∙ ap (λ b. p x || b) (any-sort_by key xs)

or_twice : (a b : Bool) → (a || (a || b)) ≡ (a || b)
or_twice true b = refl
or_twice false b = refl

module _ (p : Text → Bool) where
  any-skip_same : (k : Text) (ks : List Text) → (p k || any p (skip_same k ks)) ≡ (p k || any p ks)
  unfolding any skip_same
  any-skip_same k [] = refl
  any-skip_same k (k' ∷ ks) = elim (Bool-cases (text_eq k k')) [
    | inl same ↦ rw same (
        rw (ap p (eq_of_text_eq k k' same))
          (any-skip_same k' ks ∙ sym (or_twice (p k') (any p ks))))
    | inr other ↦ rw other (ap (λ b. p k || b) (any-skip_same k' ks))
  ]

  any-dedup : (ks : List Text) → any p (dedup ks) ≡ any p ks
  unfolding any dedup
  any-dedup [] = refl
  any-dedup (k ∷ ks) = any-skip_same k ks

  pub any-sorted_names : (ks : List Text) → any p (sorted_names ks) ≡ any p ks
  unfolding sorted_names
  any-sorted_names ks = any-dedup (sort_by (λ k. k) ks) ∙ any-sort_by p (λ k. k) ks

  any-sorted_names_swap :
      (xs ys : List Text) → any p (sorted_names (xs ++ ys)) ≡ any p (sorted_names (ys ++ xs))
  any-sorted_names_swap xs ys =
      any-sorted_names (xs ++ ys)
      ∙ (any-append p xs ys
          ∙ (or_comm (any p xs) (any p ys)
              ∙ (sym (any-append p ys xs) ∙ sym (any-sorted_names (ys ++ xs)))))

-- What a difference adds or removes.
module _ {E : Type 0} (n : Text) where
  unfoldable pub adds : TableDiff E → Bool
  adds (TableDiff.added t) = text_eq t.name n
  adds _ = false

  unfoldable pub removes : TableDiff E → Bool
  removes (TableDiff.removed name) = text_eq name n
  removes _ = false

abbrev pub optional : {E : Type 0} → (TableDiff E → Bool) → Option (TableDiff E) → Bool
optional p none = false
optional p (some d) = p d

module _ {A E : Type 0} (p : TableDiff E → Bool)
    (both : Text → A → A → Warned (Option (TableDiff E)))
    (old new : Text → A → Warned (Option (TableDiff E))) where
  any-push :
      (o : Option (TableDiff E)) (ds : List (TableDiff E))
      → any p (push both old new o ds) ≡ (optional p o || any p ds)
  unfolding any
  any-push none ds = refl
  any-push (some d) ds = refl

  any-diff_names :
      (cur des : List (Text × A)) (names : List Text)
      → any p (diff_names both old new cur des names).0
        ≡ any (λ name. optional p (pick both old new name (get name cur) (get name des)).0) names
  unfolding any diff_names
  any-diff_names cur des [] = refl
  any-diff_names cur des (name ∷ names) =
      any-push (pick both old new name (get name cur) (get name des)).0 _
      ∙ ap (λ b. optional p (pick both old new name (get name cur) (get name des)).0 || b)
          (any-diff_names cur des names)

pub any-ap :
    {A : Type 0} (p q : A → Bool) → ((x : A) → p x ≡ q x) → (xs : List A) → any p xs ≡ any q xs
unfolding any
any-ap p q e [] = refl
any-ap p q e (x ∷ xs) = rw (e x) (ap (λ b. q x || b) (any-ap p q e xs))

module _ {E : Type 0} (E_discrete : Discrete E) (debug : DataType → Text) (n : Text) where
  -- A table in both is neither added nor removed.
  pub table_change-adds :
      (name : Text) (cs : List (ColumnDiff E)) (ks : List (ConstraintDiff E))
      → adds n (table_change E_discrete debug name cs ks) ≡ false
  unfolding adds
  table_change-adds name [] [] = refl
  table_change-adds name [] (k ∷ ks) = refl
  table_change-adds name (c ∷ cs) ks = refl

  table_change-removes :
      (name : Text) (cs : List (ColumnDiff E)) (ks : List (ConstraintDiff E))
      → removes n (table_change E_discrete debug name cs ks) ≡ false
  unfolding removes
  table_change-removes name [] [] = refl
  table_change-removes name [] (k ∷ ks) = refl
  table_change-removes name (c ∷ cs) ks = refl

  abbrev pub old_table : Text → CatalogTable E → Warned (Option (TableDiff E))
  old_table name c = (
    some (TableDiff.removed c.name),
    destructive c.name (codes "DROP TABLE (destructive: data loss)") ∷ [],
  )

  abbrev pub new_table : Text → CatalogTable E → Warned (Option (TableDiff E))
  new_table name d = (some (TableDiff.added d), [])

  pick_swap :
      (name : Text) (c d : Option (CatalogTable E))
      → optional
          (adds n)
          (pick (λ name. diff_single_table E_discrete debug) old_table new_table name c d).0
        ≡ optional
            (removes n)
            (pick (λ name. diff_single_table E_discrete debug) old_table new_table name d c).0
  unfolding diff_single_table adds removes
  pick_swap name none none = refl
  pick_swap name none (some d) = refl
  pick_swap name (some c) none = refl
  pick_swap name (some c) (some d) =
      table_change-adds c.name (diff_columns E_discrete debug c d).0
        (diff_constraints E_discrete debug c d).0
      ∙ sym (
          table_change-removes d.name (diff_columns E_discrete debug d c).0
            (diff_constraints E_discrete debug d c).0)

  pub diff_tables-any :
      (p : TableDiff E → Bool) (current desired : List (CatalogTable E))
      → any p (diff_tables E_discrete debug current desired).0
        ≡ any
            (λ name.
              optional p
                (pick
                  (λ name. diff_single_table E_discrete debug)
                  old_table
                  new_table
                  name
                  (get name (collect (map (λ t. (t.name, t)) current)))
                  (get name (collect (map (λ t. (t.name, t)) desired)))).0)
            (sorted_names (
              keys (collect (map (λ t. (t.name, t)) current))
              ++ keys (collect (map (λ t. (t.name, t)) desired))))
  unfolding diff_tables diff_maps
  diff_tables-any p current desired =
      any-sort_by p table_diff_name _
      ∙ any-diff_names p (λ name. diff_single_table E_discrete debug) old_table new_table
          (collect (map (λ t. (t.name, t)) current)) (collect (map (λ t. (t.name, t)) desired)) _

  -- With its arguments exchanged the comparison removes the tables that it added, and no others: a name
  -- is among the added of `current` and `desired` where it is among the removed of `desired` and
  -- `current`.
  pub diff_schema_swap :
      (current desired : CatalogSchema E)
      → any (adds n) (diff_schema E_discrete debug current desired).table_diffs
        ≡ any (removes n) (diff_schema E_discrete debug desired current).table_diffs
  unfolding diff_schema
  diff_schema_swap current desired =
      let cur = collect (map (λ t. (t.name, t)) current.tables) in
      let des = collect (map (λ t. (t.name, t)) desired.tables) in
      diff_tables-any (adds n) current.tables desired.tables
      ∙ (any-ap _ _ (λ name. pick_swap name (get name cur) (get name des)) _
          ∙ (any-sorted_names_swap _ (keys cur) (keys des)
              ∙ sym (diff_tables-any (removes n) desired.tables current.tables)))
