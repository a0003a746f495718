-- ===== src/SchemaDiff/Laws.antt =====
-- What `diff_schema` finds and what it does not (crates/schema-diff/src/diff.rs).
use mathlib.Core.Bool.{Bool-discrete}
use tsqlremaker.Base.{
  ◌≡◌, refl, ◌∙◌, Bool, true, false, ◌&&◌, Bool-cases, inl, inr, List, [], ◌∷◌, ◌++◌, if◌then◌else◌,
  Option, none, some, Text, arith,
}
use mathlib.Core.Option as Options
use tsqlremaker.Common.Ddl.{
  DataType, DataType-discrete, TableConstraint, ColumnDef-discrete, TableConstraint-discrete,
  IndexColumns-discrete,
}
use tsqlremaker.SchemaDiff.Catalog.{
  CatalogColumn, CatalogSchema, CatalogTable, CatalogIndex, TableDiff,
}
use tsqlremaker.SchemaDiff.Maps.{text_lt, get, keys, put, sort_by, sorted_names}
use tsqlremaker.SchemaDiff.Diff.{Warned, is_equal, pick, push, diff_names, diff_maps}
use tsqlremaker.SchemaDiff.Diff.Tables.{
  catalog_column_to_column_def, diff_single_index, diff_indices,
}
use tsqlremaker.SchemaDiff.Diff.Schema.{
  diff_single_column, diff_columns, diff_single_constraint, diff_constraints, diff_single_table,
  diff_tables, diff_schema,
}

is_equal-yes : {A : Type 0} (d : Discrete A) (x y : A) → x ≡ y → is_equal d x y ≡ true
is_equal-yes d x y e = decided (d x y)
  where
    decided : (c : Dec (x ≡ y)) → elim c [ yes same ↦ true | no other ↦ false ] ≡ true
    decided (yes p) = refl
    decided (no n) = absurd (n e)

module _ {A D : Type 0} (both : Text → A → A → Warned (Option D))
    (old new : Text → A → Warned (Option D)) (diff_name : D → Text)
    (same : (name : Text) (a : A) → both name a a ≡ (none, [])) where
  pick-same : (name : Text) (o : Option A) → pick both old new name o o ≡ (none, [])
  pick-same name none = refl
  pick-same name (some a) = same name a

  diff_names-same :
      (m : List (Text × A)) (names : List Text) → diff_names both old new m m names ≡ ([], [])
  unfolding diff_names
  diff_names-same m [] = refl
  diff_names-same m (name ∷ names) =
      rw (pick-same name (get name m)) (rw (diff_names-same m names) refl)

  diff_maps-same : (m : List (Text × A)) → diff_maps both old new diff_name m m ≡ ([], [])
  unfolding diff_maps sort_by
  diff_maps-same m = rw (diff_names-same m (sorted_names (keys m ++ keys m))) refl

if_same : {A : Type 0} (b : Bool) {x : A} → (if b then x else x) ≡ x
if_same true = refl
if_same false = refl

diff_single_index-same : (name : Text) (i : CatalogIndex) → diff_single_index name i i ≡ (none, [])
unfolding diff_single_index
diff_single_index-same name i =
    rw (is_equal-yes IndexColumns-discrete i.columns i.columns refl)
      (rw (is_equal-yes Bool-discrete i.unique i.unique refl) refl)

diff_indices-same : (is : List CatalogIndex) → diff_indices is is ≡ ([], [])
unfolding diff_indices
diff_indices-same is = diff_maps-same _ _ _ _ diff_single_index-same _

module _ {E : Type 0} where
  abbrev pub is_unchanged : TableDiff E → Bool
  is_unchanged (TableDiff.unchanged name) = true
  is_unchanged _ = false

  -- No table is reported but as unchanged.
  pub all_unchanged : List (TableDiff E) → Bool
  all_unchanged [] = true
  all_unchanged (d ∷ ds) = is_unchanged d && all_unchanged ds

  put-unchanged :
      (key : TableDiff E → Text) (d : TableDiff E) (ds : List (TableDiff E))
      → is_unchanged d ≡ true
      → all_unchanged ds ≡ true
      → all_unchanged (put key d ds) ≡ true
  unfolding put all_unchanged
  put-unchanged key d [] h h' = rw h refl
  put-unchanged key d (e ∷ ds) h h' =
      let first : is_unchanged e ≡ true = ground arith in
      let rest : all_unchanged ds ≡ true = ground arith in
      elim (Bool-cases (text_lt (key e) (key d))) [
        | inl before ↦ rw before (rw first (put-unchanged key d ds h rest))
        | inr behind ↦ rw behind (rw h (rw first rest))
      ]

  sort_by-unchanged :
      (key : TableDiff E → Text) (ds : List (TableDiff E))
      → all_unchanged ds ≡ true
      → all_unchanged (sort_by key ds) ≡ true
  unfolding sort_by all_unchanged
  sort_by-unchanged key [] h = refl
  sort_by-unchanged key (d ∷ ds) h =
      put-unchanged key d (sort_by key ds) (ground arith) (sort_by-unchanged key ds (ground arith))

module _ {A E : Type 0} (both : Text → A → A → Warned (Option (TableDiff E)))
    (old new : Text → A → Warned (Option (TableDiff E))) (diff_name : TableDiff E → Text)
    (same : (name : Text) (a : A)
      → (n : Text) × (both name a a ≡ (some (TableDiff.unchanged n), []))) where
  pick-unchanged :
      (name : Text) (o : Option A) (ds : List (TableDiff E)) (ws : _)
      → all_unchanged ds ≡ true
      → (all_unchanged (push both old new (pick both old new name o o).0 ds) ≡ true)
        × ((pick both old new name o o).1 ++ ws ≡ ws)
  unfolding all_unchanged
  pick-unchanged name none ds ws h = (h, refl)
  pick-unchanged name (some a) ds ws h = let (n, e) = same name a in (rw e h, rw e refl)

  diff_names-unchanged :
      (m : List (Text × A)) (names : List Text)
      → (all_unchanged (diff_names both old new m m names).0 ≡ true)
        × ((diff_names both old new m m names).1 ≡ [])
  unfolding diff_names all_unchanged
  diff_names-unchanged m [] = (refl, refl)
  diff_names-unchanged m (name ∷ names) =
      let (u, w) = diff_names-unchanged m names in
      let (u', w') = pick-unchanged name (get name m) _ _ u in (u', w' ∙ w)

  diff_maps-unchanged :
      (m : List (Text × A))
      → (all_unchanged (diff_maps both old new diff_name m m).0 ≡ true)
        × ((diff_maps both old new diff_name m m).1 ≡ [])
  unfolding diff_maps
  diff_maps-unchanged m =
      let (u, w) = diff_names-unchanged m (sorted_names (keys m ++ keys m)) in
      (sort_by-unchanged diff_name _ u, w)

module _ {E : Type 0} (E_discrete : Discrete E) (debug : DataType → Text) where
  diff_single_column-same :
      (table : CatalogTable E) (c : CatalogColumn E)
      → diff_single_column E_discrete debug table c c ≡ (none, [])
  unfolding diff_single_column
  diff_single_column-same table c =
      rw (is_equal-yes (ColumnDef-discrete E_discrete) (catalog_column_to_column_def c) _ refl) refl

  diff_columns-same : (t : CatalogTable E) → diff_columns E_discrete debug t t ≡ ([], [])
  unfolding diff_columns
  diff_columns-same t = diff_maps-same _ _ _ _ (λ name c. diff_single_column-same t c) _

  diff_single_constraint-same :
      (name : Text) (c : TableConstraint E)
      → diff_single_constraint E_discrete debug name c c ≡ (none, [])
  unfolding diff_single_constraint
  diff_single_constraint-same name c =
      rw (is_equal-yes (TableConstraint-discrete E_discrete) c c refl) refl

  diff_constraints-same : (t : CatalogTable E) → diff_constraints E_discrete debug t t ≡ ([], [])
  unfolding diff_constraints
  diff_constraints-same t = diff_maps-same _ _ _ _ diff_single_constraint-same _

  pub diff_single_table-same :
      (t : CatalogTable E)
      → diff_single_table E_discrete debug t t ≡ (some (TableDiff.unchanged t.name), [])
  unfolding diff_single_table
  diff_single_table-same t = rw (diff_columns-same t) (rw (diff_constraints-same t) refl)

  diff_tables-same :
      (ts : List (CatalogTable E))
      → (all_unchanged (diff_tables E_discrete debug ts ts).0 ≡ true)
        × ((diff_tables E_discrete debug ts ts).1 ≡ [])
  unfolding diff_tables
  diff_tables-same ts = diff_maps-unchanged _ _ _ _ (λ name t. (t.name, diff_single_table-same t)) _

  -- What is reported of a catalog compared with itself.
  pub diff_schema-unchanged :
      (s : CatalogSchema E)
      → (all_unchanged (diff_schema E_discrete debug s s).table_diffs ≡ true)
        × ((diff_schema E_discrete debug s s).index_diffs ≡ [])
        × ((diff_schema E_discrete debug s s).warnings ≡ [])
  unfolding diff_schema
  diff_schema-unchanged s =
      let (u, w) = diff_tables-same s.tables in
      (u, rw (diff_indices-same s.indices) refl, rw (w, diff_indices-same s.indices) refl)

  -- A column whose type, whose admission of nulls and whose default stay is not reported, and brings no
  -- warning, whatever becomes of its constraints and of its identity.
  pub diff_single_column-constraints :
      (table : CatalogTable E) (current desired : CatalogColumn E)
      → current.data_type ≡ desired.data_type
      → current.nullable ≡ desired.nullable
      → current.default ≡ desired.default
      → diff_single_column E_discrete debug table current desired ≡ (none, [])
  unfolding diff_single_column
  diff_single_column-constraints table current desired e e' e'' =
      rw (is_equal-yes DataType-discrete current.data_type desired.data_type e) (
        rw (is_equal-yes Bool-discrete current.nullable desired.nullable e') (
          rw (is_equal-yes (Options.discrete E_discrete) current.default desired.default e'') (
            if_same (
              is_equal (ColumnDef-discrete E_discrete) (catalog_column_to_column_def current)
                (catalog_column_to_column_def desired)))))
