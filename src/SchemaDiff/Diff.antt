-- ===== src/SchemaDiff/Diff.antt =====
-- `diff_schema` (crates/schema-diff/src/diff.rs).
pub mod Tables
pub mod Schema
use tsqlremaker.Base.{
  ℕ, Bool, true, false, ◌&&◌, ◌||◌, not, List, [], ◌∷◌, ◌++◌, map, ltb, ◌==◌, if◌then◌else◌, Option,
  none, some, Text, codes,
}
use tsqlremaker.Common.Ddl.{
  DataType, var_char, decimal, numeric, DataType-discrete, Identifier, QualifiedName,
  ColumnConstraint, TableConstraint, ColumnDef, ColumnDef-discrete, CreateIndexStatement,
  TableConstraint-discrete, IndexColumn, IndexColumns-discrete,
}
use tsqlremaker.SchemaDiff.Catalog.{
  CatalogColumn, CatalogTable, CatalogIndex, ColumnChange, type_changed, nullability_changed,
  default_changed, ColumnDiff, ConstraintDiff, IndexDiff, MigrationWarning, destructive,
}
use tsqlremaker.SchemaDiff.Maps.{collect, get, keys, sort_by, sorted_names}

-- An answer, and the warnings pushed on the way.
abbrev pub Warned : Type 0 → Type 0
Warned A = A × List MigrationWarning

abbrev pub is_equal : {A : Type 0} → Discrete A → A → A → Bool
is_equal d x y = elim (d x y) [ yes same ↦ true | no other ↦ false ]

-- `format!("{}.{}", a, b)`
abbrev pub dotted : Text → Text → Text
dotted a b = a ++ (codes "." ++ b)

-- The `filter_map` over the names in both maps or in one.
module _ {A D : Type 0} (both : Text → A → A → Warned (Option D))
    (old new : Text → A → Warned (Option D)) where
  abbrev pub pick : Text → Option A → Option A → Warned (Option D)
  pick name (some c) (some d) = both name c d
  pick name (some c) none = old name c
  pick name none (some d) = new name d
  pick name none none = (none, [])

  abbrev pub push : Option D → List D → List D
  push none ds = ds
  push (some d) ds = d ∷ ds

  unfoldable pub diff_names : List (Text × A) → List (Text × A) → List Text → Warned (List D)
  diff_names cur des [] = ([], [])
  diff_names cur des (name ∷ names) =
      let (o, w) = pick name (get name cur) (get name des) in
      let (ds, ws) = diff_names cur des names in (push o ds, w ++ ws)

  -- The names of both, sorted; the differences are sorted again by the name that they have.
  unfoldable pub diff_maps : (D → Text) → List (Text × A) → List (Text × A) → Warned (List D)
  diff_maps diff_name cur des =
      let (ds, ws) = diff_names cur des (sorted_names (keys cur ++ keys des)) in
      (sort_by diff_name ds, ws)

abbrev pub shrinks : Option ℕ → Option ℕ → Bool
shrinks (some from) (some to) = ltb to from
shrinks _ _ = false

unfoldable pub is_narrowing_type_change : DataType → DataType → Bool
is_narrowing_type_change (var_char none) (var_char (some to)) = true
is_narrowing_type_change (var_char from) (var_char to) = shrinks from to
is_narrowing_type_change (decimal from s) (decimal to s') = shrinks from to
is_narrowing_type_change (numeric from s) (numeric to s') = shrinks from to
is_narrowing_type_change _ _ = false
