-- ===== src/Translate/Definition.antt =====
-- The definitions of tables and indices (crates/tsql-parser/src/ast/to_common_sql.rs).
use mathlib.Core.Option
use mathlib.Core.Option.{get_or}
use tsqlremaker.Base.{true, false, List, [], ◌∷◌, map, Option, none, some, Text}
use tsqlremaker.Parser.Ast.{Identifier}
use tsqlremaker.Parser.Ast.Definition as Tsql
use tsqlremaker.Common.Ddl.{
  QualifiedName, DataType, ColumnConstraint, TableConstraint, ColumnDef, IndexColumn,
  CreateIndexStatement,
}
use tsqlremaker.Common.Ast.{Expression, MaybeExpression}
use tsqlremaker.Common.Ddl as Common
use tsqlremaker.Common.Statement.{CreateTableStatement, AlterTableAction, Statement}
use tsqlremaker.Parser.Ast.Statement.{CreateStatement}
use tsqlremaker.Translate.Fallible.{◌>>=◌}
use tsqlremaker.Translate.Operators.{new}
use tsqlremaker.Translate.Expression.{convert_expr, convert_maybe}

unfoldable pub convert_data_type : Tsql.DataType → Option DataType
convert_data_type Tsql.DataType.int = some DataType.int
convert_data_type Tsql.DataType.small_int = some DataType.small_int
convert_data_type Tsql.DataType.tiny_int = some DataType.tiny_int
convert_data_type Tsql.DataType.big_int = some DataType.big_int
convert_data_type (Tsql.DataType.varchar length) = some (DataType.var_char length)
convert_data_type (Tsql.DataType.char n) = some (DataType.char (some n))
convert_data_type (Tsql.DataType.decimal p s) = some (DataType.decimal p s)
convert_data_type (Tsql.DataType.numeric p s) = some (DataType.numeric p s)
convert_data_type Tsql.DataType.float = some DataType.double_precision
convert_data_type Tsql.DataType.real = some DataType.real
convert_data_type Tsql.DataType.double = some DataType.double_precision
convert_data_type Tsql.DataType.date = some DataType.date
convert_data_type Tsql.DataType.time = some (DataType.time none)
convert_data_type Tsql.DataType.datetime = some (DataType.date_time none)
convert_data_type Tsql.DataType.timestamp = some (DataType.timestamp none)
convert_data_type Tsql.DataType.text = some DataType.text
convert_data_type (Tsql.DataType.binary n) = some (DataType.binary (some n))
convert_data_type (Tsql.DataType.var_binary length) = some (DataType.var_binary length)
convert_data_type Tsql.DataType.unique_identifier = some DataType.uuid
convert_data_type Tsql.DataType.small_date_time = none
convert_data_type Tsql.DataType.bit = none
convert_data_type Tsql.DataType.money = none
convert_data_type Tsql.DataType.small_money = none

-- A loop that pushes what a conversion answers, and ends with the first that has no answer.
unfoldable pub all_converted : {A B : Type 0} → (A → Option B) → List A → Option (List B)
all_converted convert [] = some []
all_converted convert (x ∷ xs) = do y ← convert x; ys ← all_converted convert xs; some (y ∷ ys)

abbrev pub unqualified : Identifier → QualifiedName
unqualified i = record { schema = none; name = i.name }

abbrev pub name_of : Option Identifier → Option Text
name_of = Option.map λ (i : Identifier). i.name

abbrev pub names_of : List Identifier → List Common.Identifier
names_of = map λ (i : Identifier). new i.name

abbrev pub as_option : MaybeExpression → Option Expression
as_option MaybeExpression.no_expression = none
as_option (MaybeExpression.an_expression e) = some e

abbrev pub convert_create_index : Tsql.IndexDefinition → Option CreateIndexStatement
convert_create_index i = some (record {
  unique = i.unique;
  if_not_exists = false;
  name = new i.name.name;
  table = unqualified i.table;
  columns = map (λ (c : Identifier). record { name = new c.name; direction = none }) i.columns;
})

-- The three operations of ALTER TABLE.
unfoldable pub convert_alter_operation : Tsql.AlterTableOperation → Option AlterTableAction
convert_alter_operation (Tsql.AlterTableOperation.add_column add) = do
  data_type ← convert_data_type add.data_type
  some (
      AlterTableAction.add_column (record {
        name = new add.name.name;
        data_type = data_type;
        nullable = get_or add.nullability true;
        default = none;
        constraints = [];
      }))
convert_alter_operation (Tsql.AlterTableOperation.drop_column name) =
    some (AlterTableAction.drop_column (new name.name))
convert_alter_operation (Tsql.AlterTableOperation.alter_column alter) = do
  data_type ← convert_data_type alter.data_type
  some (AlterTableAction.alter_column (new alter.name.name) (some data_type) none alter.nullability)

unfoldable pub convert_alter_table : Tsql.AlterTableStatement → Option Statement
convert_alter_table alter = do
  action ← convert_alter_operation alter.operation
  some (Statement.alter_table (record { name = unqualified alter.table; actions = action ∷ [] }))

module _ (parse_f64 : Text → Option Text) where
  unfoldable pub convert_column_constraint :
      Tsql.ColumnConstraint → Option (ColumnConstraint Expression)
  convert_column_constraint Tsql.ColumnConstraint.primary_key = some ColumnConstraint.primary_key
  convert_column_constraint Tsql.ColumnConstraint.unique = some ColumnConstraint.unique
  convert_column_constraint (Tsql.ColumnConstraint.check e) = do
    e' ← convert_expr parse_f64 e
    some (ColumnConstraint.check e')
  convert_column_constraint (Tsql.ColumnConstraint.foreign ref_table ref_column) =
      some (ColumnConstraint.references (unqualified ref_table) (ref_column.name ∷ []))

  unfoldable pub convert_table_constraint :
      Tsql.TableConstraint → Option (TableConstraint Expression)
  convert_table_constraint (Tsql.TableConstraint.primary_key name columns) =
      some (TableConstraint.primary_key (name_of name) (names_of columns))
  convert_table_constraint (Tsql.TableConstraint.unique name columns) =
      some (TableConstraint.unique (name_of name) (names_of columns))
  convert_table_constraint (Tsql.TableConstraint.foreign name columns ref_table ref_columns) =
      some (
        TableConstraint.foreign_key (name_of name) (names_of columns) (unqualified ref_table)
          (names_of ref_columns))
  convert_table_constraint (Tsql.TableConstraint.check name e) = do
    e' ← convert_expr parse_f64 e
    some (TableConstraint.check (name_of name) e')

  unfoldable pub convert_column_def : Tsql.ColumnDefinition → Option (ColumnDef Expression)
  convert_column_def col = do
    data_type ← convert_data_type col.data_type
    constraints ← all_converted convert_column_constraint col.constraints
    some (record {
      name = new col.name.name;
      data_type = data_type;
      nullable = get_or col.nullability true;
      default = as_option (convert_maybe parse_f64 col.default_value);
      constraints = constraints;
    })

  unfoldable pub convert_create_table : Tsql.TableDefinition → Option CreateTableStatement
  convert_create_table t = do
    columns ← all_converted convert_column_def t.columns
    constraints ← all_converted convert_table_constraint t.constraints
    some (record {
      if_not_exists = false;
      temporary = t.temporary;
      name = unqualified t.name;
      columns = columns;
      constraints = constraints;
      options = record { engine = none; charset = none; collation = none; comment = none };
    })

  unfoldable pub convert_create : CreateStatement → Option Statement
  convert_create (CreateStatement.table t) = do
    table ← convert_create_table t
    some (Statement.create_table table)
  convert_create (CreateStatement.index i) = do
    index ← convert_create_index i
    some (Statement.create_index index)
  convert_create (CreateStatement.view v) = none
  convert_create (CreateStatement.procedure s n p b) = none
  convert_create (CreateStatement.trigger s n t e b) = none
