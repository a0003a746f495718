-- ===== src/SchemaDiff/Catalog.antt =====
-- Catalogs and the differences between them (crates/schema-diff/src/catalog.rs, diff.rs and
-- warning.rs). `E` is the type of expressions, which the comparison only tests for equality.
use tsqlremaker.Common.Ddl.{
  DataType, ColumnConstraint, TableConstraint, IndexColumn, ColumnDef, CreateIndexStatement,
}
use tsqlremaker.Base.{Bool, List, Option, Text}

pub record CatalogColumn (E : Type 0) : Type 0 where
  pub name : Text
  pub data_type : DataType
  pub nullable : Bool
  pub default : Option E
  pub raw_default : Option Text
  pub identity : Bool
  pub constraints : List (ColumnConstraint E)

pub record CatalogTable (E : Type 0) : Type 0 where
  pub name : Text
  pub columns : List (CatalogColumn E)
  pub constraints : List (TableConstraint E)

pub record CatalogIndex : Type 0 where
  pub name : Text
  pub table : Text
  pub columns : List IndexColumn
  pub unique : Bool

pub record CatalogSchema (E : Type 0) : Type 0 where
  pub schema_name : Text
  pub tables : List (CatalogTable E)
  pub indices : List CatalogIndex

pub data ColumnChange (E : Type 0) : Type 0 where
  type_changed : (from to : DataType) (is_narrowing : Bool) → ColumnChange E
  nullability_changed : (from to : Bool) (tightens : Bool) → ColumnChange E
  default_changed : (from to : Option E) → ColumnChange E

pub data ColumnDiff (E : Type 0) : Type 0 where
  added : ColumnDef E → ColumnDiff E
  removed : (name : Text) → ColumnDiff E
  modified : (name : Text) (from to : ColumnDef E) (changes : List (ColumnChange E)) → ColumnDiff E

pub data ConstraintDiff (E : Type 0) : Type 0 where
  added : (name : Text) (constraint : TableConstraint E) → ConstraintDiff E
  removed : (name : Text) → ConstraintDiff E
  modified : (name : Text) (new_constraint : TableConstraint E) → ConstraintDiff E

pub data TableDiff (E : Type 0) : Type 0 where
  added : CatalogTable E → TableDiff E
  removed unchanged : (name : Text) → TableDiff E
  modified :
      (name : Text) (column_diffs : List (ColumnDiff E))
      (constraint_diffs : List (ConstraintDiff E))
      → TableDiff E

pub data IndexDiff : Type 0 where
  added modified : CreateIndexStatement → IndexDiff
  removed : (name table : Text) → IndexDiff

pub data MigrationWarning : Type 0 where
  destructive : (target detail : Text) → MigrationWarning
  unsupported_dialect : (dialect operation : Text) → MigrationWarning

pub record SchemaDiff (E : Type 0) : Type 0 where
  pub table_diffs : List (TableDiff E)
  pub index_diffs : List IndexDiff
  pub warnings : List MigrationWarning
