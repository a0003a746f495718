-- ===== src/SchemaDiff/Diff/Tables.antt =====
-- The differences of columns, constraints, indices and tables (crates/schema-diff/src/diff.rs, with
-- `catalog_to_create_index` of mapper.rs).
use mathlib.Core.Bool.{Bool-discrete}
use tsqlremaker.Base.{
  Bool, true, false, ◌&&◌, ◌||◌, not, List, [], ◌∷◌, ◌++◌, map, if◌then◌else◌, Option, none, some,
  Text, codes,
}
use tsqlremaker.Common.Ddl.{
  Identifier, ColumnConstraint, TableConstraint, ColumnDef, CreateIndexStatement,
  IndexColumns-discrete,
}
use tsqlremaker.SchemaDiff.Catalog.{
  CatalogColumn, CatalogIndex, ColumnDiff, ConstraintDiff, IndexDiff, TableDiff, MigrationWarning,
  destructive,
}
use tsqlremaker.SchemaDiff.Maps.{collect}
use tsqlremaker.SchemaDiff.Diff.{Warned, is_equal, dotted, diff_maps}

abbrev plain : Text → Identifier
plain name = record { value = name; quoted = false }

abbrev pub add_warning : Bool → Text → Text → List MigrationWarning
add_warning b target detail = if b then destructive target detail ∷ [] else []

-- `{kind}_{}` with the columns joined
unfoldable pub with_columns : Text → List Text → Text
with_columns s [] = s
with_columns s (c ∷ cs) = with_columns (s ++ (codes "_" ++ c)) cs

module _ {E : Type 0} where
  abbrev pub is_auto_increment : ColumnConstraint E → Bool
  is_auto_increment ColumnConstraint.auto_increment = true
  is_auto_increment _ = false

  unfoldable pub any_auto_increment : List (ColumnConstraint E) → Bool
  any_auto_increment [] = false
  any_auto_increment (c ∷ cs) = is_auto_increment c || any_auto_increment cs

  unfoldable pub catalog_column_to_column_def : CatalogColumn E → ColumnDef E
  catalog_column_to_column_def col = record {
    name = plain col.name;
    data_type = col.data_type;
    nullable = col.nullable;
    default = col.default;
    constraints =
        if col.identity && not (any_auto_increment col.constraints)
        then col.constraints ++ (ColumnConstraint.auto_increment ∷ [])
        else col.constraints;
  }

  abbrev pub column_diff_name : ColumnDiff E → Text
  column_diff_name (ColumnDiff.added c) = c.name.value
  column_diff_name (ColumnDiff.removed name) = name
  column_diff_name (ColumnDiff.modified name from to changes) = name

  abbrev pub constraint_diff_name : ConstraintDiff E → Text
  constraint_diff_name (ConstraintDiff.added name c) = name
  constraint_diff_name (ConstraintDiff.removed name) = name
  constraint_diff_name (ConstraintDiff.modified name c) = name

  abbrev pub table_diff_name : TableDiff E → Text
  table_diff_name (TableDiff.added t) = t.name
  table_diff_name (TableDiff.removed name) = name
  table_diff_name (TableDiff.unchanged name) = name
  table_diff_name (TableDiff.modified name cs ks) = name

  abbrev pub constraint_declared_name : TableConstraint E → Option Text
  constraint_declared_name (TableConstraint.primary_key name cs) = name
  constraint_declared_name (TableConstraint.unique name cs) = name
  constraint_declared_name (TableConstraint.foreign_key name cs t rs) = name
  constraint_declared_name (TableConstraint.check name e) = name

  abbrev pub constraint_columns : TableConstraint E → List Text
  constraint_columns (TableConstraint.primary_key name cs) = map (λ c. c.value) cs
  constraint_columns (TableConstraint.unique name cs) = map (λ c. c.value) cs
  constraint_columns (TableConstraint.foreign_key name cs t rs) = map (λ c. c.value) cs
  constraint_columns (TableConstraint.check name e) = []

  abbrev pub constraint_kind : TableConstraint E → Text
  constraint_kind (TableConstraint.primary_key name cs) = codes "pk"
  constraint_kind (TableConstraint.unique name cs) = codes "uq"
  constraint_kind (TableConstraint.foreign_key name cs t rs) = codes "fk"
  constraint_kind (TableConstraint.check name e) = codes "ck"

  unfoldable pub constraint_name : TableConstraint E → Text
  constraint_name tc = elim (constraint_declared_name tc) [
    | none ↦ with_columns (constraint_kind tc) (constraint_columns tc)
    | some name ↦ name
  ]

unfoldable pub catalog_to_create_index : CatalogIndex → CreateIndexStatement
catalog_to_create_index idx = record {
  unique = idx.unique;
  if_not_exists = false;
  name = plain idx.name;
  table = record { schema = none; name = idx.table };
  columns = map (λ c. record { name = plain c.name.value; direction = c.direction }) idx.columns;
}

-- `{table}\u{0}{name}`
abbrev pub joined : Text → Text → Text
joined table name = table ++ (0 ∷ name)

abbrev pub index_key : CatalogIndex → Text
index_key idx = joined idx.table idx.name

abbrev pub indices_equal : CatalogIndex → CatalogIndex → Bool
indices_equal a b =
    is_equal IndexColumns-discrete a.columns b.columns && is_equal Bool-discrete a.unique b.unique

abbrev pub index_diff_key : IndexDiff → Text
index_diff_key (IndexDiff.added s) = joined s.table.name s.name.value
index_diff_key (IndexDiff.modified s) = joined s.table.name s.name.value
index_diff_key (IndexDiff.removed name table) = joined table name

unfoldable pub diff_single_index : Text → CatalogIndex → CatalogIndex → Warned (Option IndexDiff)
diff_single_index key c d =
    if indices_equal c d
    then (none, [])
    else (some (IndexDiff.modified (catalog_to_create_index d)), [])

unfoldable pub diff_indices : List CatalogIndex → List CatalogIndex → Warned (List IndexDiff)
diff_indices current desired =
    diff_maps diff_single_index
      (λ key c. (
        some (IndexDiff.removed c.name c.table),
        destructive (dotted c.table c.name)
              (codes "DROP INDEX (destructive: query performance regression)")
            ∷ [],
      ))
      (λ key d. (some (IndexDiff.added (catalog_to_create_index d)), [])) index_diff_key
      (collect (map (λ i. (index_key i, i)) current))
      (collect (map (λ i. (index_key i, i)) desired))
