-- ===== src/Tests/Diffing.antt =====
-- Instances of the theorems on the comparison of catalogs. A number stands for an expression.
use native.Mathlib.Decide.{ℕ_discrete}
use tsqlremaker.Base.{ℕ, ◌&&◌, not, ◌≡◌, refl, true, false, [], ◌∷◌, none, Text, codes}
use tsqlremaker.Common.Ddl.{DataType, int, ColumnConstraint, TableConstraint}
use tsqlremaker.SchemaDiff.Catalog.{CatalogColumn, CatalogTable, CatalogIndex, CatalogSchema}
use tsqlremaker.SchemaDiff.Diff.Schema.{diff_schema, diff_single_column}
use tsqlremaker.SchemaDiff.Laws.{all_unchanged, diff_single_column-constraints}
use tsqlremaker.SchemaDiff.Swap.{any, adds, removes, diff_schema_swap}
use tsqlremaker.SchemaDiff.Names.{keeps, diff_schema-same, has_table, diff_schema-adds}

abbrev debug : DataType → Text
debug t = codes "type"

abbrev id_column : CatalogColumn ℕ
id_column = record {
  name = codes "id";
  data_type = int;
  nullable = false;
  default = none;
  raw_default = none;
  identity = false;
  constraints = [];
}

abbrev unique_column : CatalogColumn ℕ
unique_column = record id_column { identity = true; constraints = ColumnConstraint.unique ∷ [] }

abbrev users : CatalogTable ℕ
users = record {
  name = codes "users";
  columns = id_column ∷ [];
  constraints =
      TableConstraint.primary_key none (record { value = codes "id"; quoted = false } ∷ []) ∷ [];
}

abbrev orders : CatalogTable ℕ
orders = record users { name = codes "orders" }

abbrev index : CatalogIndex
index = record { name = codes "ix"; table = codes "users"; columns = []; unique = true }

abbrev one_table : CatalogSchema ℕ
one_table = record { schema_name = codes "dbo"; tables = users ∷ []; indices = index ∷ [] }

abbrev two_tables : CatalogSchema ℕ
two_tables = record { schema_name = codes "dbo"; tables = users ∷ orders ∷ []; indices = [] }

diff_schema-same_example :
    (any (keeps (codes "users")) (diff_schema ℕ_discrete debug one_table one_table).table_diffs
      ≡ has_table (codes "users") one_table)
    × (all_unchanged (diff_schema ℕ_discrete debug one_table one_table).table_diffs ≡ true)
    × ((diff_schema ℕ_discrete debug one_table one_table).index_diffs ≡ [])
    × ((diff_schema ℕ_discrete debug one_table one_table).warnings ≡ [])
diff_schema-same_example = diff_schema-same ℕ_discrete debug (codes "users") one_table

diff_single_column-constraints_example :
    diff_single_column ℕ_discrete debug users id_column unique_column ≡ (none, [])
diff_single_column-constraints_example =
    diff_single_column-constraints ℕ_discrete debug users id_column unique_column refl refl refl

diff_schema_swap_example :
    any (adds (codes "orders")) (diff_schema ℕ_discrete debug one_table two_tables).table_diffs
    ≡ any (removes (codes "orders")) (diff_schema ℕ_discrete debug two_tables one_table).table_diffs
diff_schema_swap_example = diff_schema_swap ℕ_discrete debug (codes "orders") one_table two_tables

diff_schema-adds_example :
    any (adds (codes "orders")) (diff_schema ℕ_discrete debug one_table two_tables).table_diffs
    ≡ (has_table (codes "orders") two_tables && not (has_table (codes "orders") one_table))
diff_schema-adds_example = diff_schema-adds ℕ_discrete debug (codes "orders") one_table two_tables
