-- ===== src/SchemaDiff/Diff/Schema.antt =====
-- `diff_schema` and what it calls for each table (crates/schema-diff/src/diff.rs).
use mathlib.Core.Bool.{Bool-discrete}
use tsqlremaker.Base.{
  ◌&&◌, not, List, [], ◌∷◌, ◌++◌, map, if◌then◌else◌, Option, none, some, Text, codes,
}
use tsqlremaker.Common.Ddl.{
  DataType, DataType-discrete, TableConstraint, ColumnDef-discrete, TableConstraint-discrete,
}
use tsqlremaker.SchemaDiff.Catalog.{
  CatalogColumn, CatalogSchema, SchemaDiff, CatalogTable, ColumnChange, type_changed,
  nullability_changed, default_changed, ColumnDiff, ConstraintDiff, TableDiff, destructive,
}
use tsqlremaker.SchemaDiff.Maps.{collect}
use tsqlremaker.SchemaDiff.Diff.{Warned, is_equal, dotted, diff_maps, is_narrowing_type_change}
use tsqlremaker.SchemaDiff.Diff.Tables.{
  add_warning, catalog_column_to_column_def, column_diff_name, constraint_diff_name,
  table_diff_name, constraint_name, diff_indices,
}
use mathlib.Core.Option as Options

-- `E_discrete` is the derived equality of expressions, and `debug` the derived format of data types.
module _ {E : Type 0} (E_discrete : Discrete E) (debug : DataType → Text) where
  abbrev pub type_changes :
      CatalogTable E → CatalogColumn E → CatalogColumn E → Warned (List (ColumnChange E))
  type_changes table current desired =
      let is_narrowing = is_narrowing_type_change current.data_type desired.data_type in
      if is_equal DataType-discrete current.data_type desired.data_type then ([], []) else (
        type_changed current.data_type desired.data_type is_narrowing ∷ [],
        add_warning is_narrowing (dotted table.name current.name) (
            codes "type narrowing "
            ++ (debug current.data_type
                ++ (codes " -> "
                    ++ (debug desired.data_type ++ codes " (destructive: may truncate data)")))),
      )

  abbrev pub nullability_changes :
      CatalogTable E → CatalogColumn E → CatalogColumn E → Warned (List (ColumnChange E))
  nullability_changes table current desired =
      let tightens = current.nullable && not desired.nullable in
      if is_equal Bool-discrete current.nullable desired.nullable then ([], []) else (
        nullability_changed current.nullable desired.nullable tightens ∷ [],
        add_warning tightens (dotted table.name current.name)
            (codes "NOT NULL added (destructive: existing NULLs violate constraint)"),
      )

  abbrev pub default_changes : CatalogColumn E → CatalogColumn E → List (ColumnChange E)
  default_changes current desired =
      if is_equal (Options.discrete E_discrete) current.default desired.default
      then []
      else default_changed current.default desired.default ∷ []

  abbrev pub column_change :
      CatalogColumn E → CatalogColumn E → List (ColumnChange E) → Option (ColumnDiff E)
  column_change current desired [] = none
  column_change current desired (change ∷ changes) = some (
      ColumnDiff.modified current.name (catalog_column_to_column_def current)
        (catalog_column_to_column_def desired) (change ∷ changes))

  unfoldable pub diff_single_column :
      CatalogTable E → CatalogColumn E → CatalogColumn E → Warned (Option (ColumnDiff E))
  diff_single_column table current desired =
      let (ts, w) = type_changes table current desired in
      let (ns, w') = nullability_changes table current desired in
      if is_equal (ColumnDef-discrete E_discrete) (catalog_column_to_column_def current)
        (catalog_column_to_column_def desired)
      then (none, [])
      else (column_change current desired (ts ++ (ns ++ default_changes current desired)), w ++ w')

  unfoldable pub diff_columns : CatalogTable E → CatalogTable E → Warned (List (ColumnDiff E))
  diff_columns current desired =
      diff_maps (λ name. diff_single_column current)
        (λ name c. (
          some (ColumnDiff.removed c.name),
          destructive (dotted current.name c.name) (codes "DROP COLUMN (destructive: data loss)")
              ∷ [],
        ))
        (λ name d. (some (ColumnDiff.added (catalog_column_to_column_def d)), [])) column_diff_name
        (collect (map (λ c. (c.name, c)) current.columns))
        (collect (map (λ c. (c.name, c)) desired.columns))

  unfoldable pub diff_single_constraint :
      Text → TableConstraint E → TableConstraint E → Warned (Option (ConstraintDiff E))
  diff_single_constraint name c d =
      if is_equal (TableConstraint-discrete E_discrete) c d
      then (none, [])
      else (some (ConstraintDiff.modified name d), [])

  unfoldable pub diff_constraints :
      CatalogTable E → CatalogTable E → Warned (List (ConstraintDiff E))
  diff_constraints current desired =
      diff_maps diff_single_constraint
        (λ name c. (
          some (ConstraintDiff.removed name),
          destructive (dotted current.name name)
                (codes "DROP CONSTRAINT (destructive: may allow invalid data)")
              ∷ [],
        ))
        (λ name d. (some (ConstraintDiff.added name d), [])) constraint_diff_name
        (collect (map (λ c. (constraint_name c, c)) current.constraints))
        (collect (map (λ c. (constraint_name c, c)) desired.constraints))

  abbrev pub table_change : Text → List (ColumnDiff E) → List (ConstraintDiff E) → TableDiff E
  table_change name [] [] = TableDiff.unchanged name
  table_change name column_diffs constraint_diffs =
      TableDiff.modified name column_diffs constraint_diffs

  unfoldable pub diff_single_table : CatalogTable E → CatalogTable E → Warned (Option (TableDiff E))
  diff_single_table current desired =
      let (cs, w) = diff_columns current desired in
      let (ks, w') = diff_constraints current desired in
      (some (table_change current.name cs ks), w ++ w')

  unfoldable pub diff_tables :
      List (CatalogTable E) → List (CatalogTable E) → Warned (List (TableDiff E))
  diff_tables current desired =
      diff_maps (λ name. diff_single_table)
        (λ name c. (
          some (TableDiff.removed c.name),
          destructive c.name (codes "DROP TABLE (destructive: data loss)") ∷ [],
        ))
        (λ name d. (some (TableDiff.added d), [])) table_diff_name
        (collect (map (λ t. (t.name, t)) current)) (collect (map (λ t. (t.name, t)) desired))

  unfoldable pub diff_schema : CatalogSchema E → CatalogSchema E → SchemaDiff E
  diff_schema current desired =
      let (tables, w) = diff_tables current.tables desired.tables in
      let (indices, w') = diff_indices current.indices desired.indices in
      record { table_diffs = tables; index_diffs = indices; warnings = w ++ w' }
