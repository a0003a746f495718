-- ===== src/Translate/Statement.antt =====
-- `to_common_sql` and the changes of tables (crates/tsql-parser/src/ast/to_common_sql.rs).
use tsqlremaker.Base.{ℕ, suc, ◌==◌, if◌then◌else◌, List, [], ◌∷◌, Option, none, some, Text}
use tsqlremaker.Parser.Ast as Tree
use tsqlremaker.Parser.Ast.Definition as Tsql
use tsqlremaker.Parser.Ast.Statement as Source
use tsqlremaker.Parser.Ast.Statement.{statement_span}
use tsqlremaker.Common.Ast.{Expressions, MaybeFrom, TableFactor}
use tsqlremaker.Common.Statement.{
  Assignment, InsertSource, InsertStatement, UpdateStatement, DeleteStatement, Statement,
}
use tsqlremaker.Translate.Fallible.{◌>>=◌}
use tsqlremaker.Translate.Operators.{new}
use tsqlremaker.Translate.Expression.{convert_expr, convert_each, convert_maybe, convert_select}
use tsqlremaker.Translate.Definition.{unqualified, names_of, convert_create, convert_alter_table}

unfoldable pub keep_in : {A : Type 0} → Option A → List A → List A
keep_in none xs = xs
keep_in (some x) xs = x ∷ xs

-- `filter_map`
unfoldable pub keep_some : {A B : Type 0} → (A → Option B) → List A → List B
keep_some f [] = []
keep_some f (x ∷ xs) = keep_in (f x) (keep_some f xs)

unfoldable pub count : Expressions → ℕ
count Expressions.no_expressions = 0
count (Expressions.expression_then e es) = suc (count es)

unfoldable pub count_row : Tree.Expressions → ℕ
count_row Tree.Expressions.no_expressions = 0
count_row (Tree.Expressions.expression_then e es) = suc (count_row es)

-- The table that an UPDATE names, without its alias.
unfoldable pub updated_table : Tree.TableReference → Option TableFactor
updated_table (Tree.TableReference.table_ref name alias span) =
    some (TableFactor.table (unqualified name) none)
updated_table (Tree.TableReference.subquery_ref query alias span) = none
updated_table (Tree.TableReference.joined_ref joins span) = none

-- A FROM clause ends the conversion of an UPDATE or a DELETE.
unfoldable pub no_from_clause : Tree.MaybeFrom → Option (Unit {0})
no_from_clause Tree.MaybeFrom.no_from = some tt
no_from_clause (Tree.MaybeFrom.from_clause t j) = none

module _ (parse_f64 : Text → Option Text) where
  -- A row is left out if the lengths differ.
  unfoldable pub convert_row : Tree.Expressions → Option Expressions
  convert_row row =
      if count (convert_each parse_f64 row) == count_row row
      then some (convert_each parse_f64 row)
      else none

  unfoldable pub convert_insert_source : Tsql.InsertSource → Option InsertSource
  convert_insert_source (Tsql.InsertSource.values rows) =
      some (InsertSource.values (keep_some convert_row rows))
  convert_insert_source (Tsql.InsertSource.select query) = do
    query' ← convert_select parse_f64 query
    some (InsertSource.select query')
  convert_insert_source Tsql.InsertSource.default_values = some (InsertSource.values [])

  unfoldable pub convert_assignment : Tsql.Assignment → Option Assignment
  convert_assignment a = do
    value ← convert_expr parse_f64 a.value
    some (record { column = new a.column.name; value = value })

  unfoldable pub convert_insert : Tsql.InsertStatement → Option InsertStatement
  convert_insert ins = do
    source ← convert_insert_source ins.source
    some (record {
      table = unqualified ins.table;
      columns = names_of ins.columns;
      source = source;
      on_conflict = none;
    })

  unfoldable pub convert_update : Tsql.UpdateStatement → Option UpdateStatement
  convert_update upd = do
    plain ← no_from_clause upd.from_clause
    table ← updated_table upd.table
    some (record {
      table = table;
      assignments = keep_some convert_assignment upd.assignments;
      from = MaybeFrom.no_from;
      where_clause = convert_maybe parse_f64 upd.where_clause;
    })

  unfoldable pub convert_delete : Tsql.DeleteStatement → Option DeleteStatement
  convert_delete del = do
    plain ← no_from_clause del.from_clause
    some (record {
      table = TableFactor.table (unqualified del.table) none;
      using = none;
      where_clause = convert_maybe parse_f64 del.where_clause;
    })

  -- `debug` is the derived `Debug` of a statement.
  module _ (debug : Source.Statement → Text) where
    abbrev pub dialect_specific : Source.Statement → Statement
    dialect_specific s = Statement.dialect_specific (debug s) (statement_span s)

    unfoldable pub to_common_sql : Source.Statement → Option Statement
    to_common_sql (Source.Statement.select s) = do
      s' ← convert_select parse_f64 s
      some (Statement.select s')
    to_common_sql (Source.Statement.insert s) = do s' ← convert_insert s; some (Statement.insert s')
    to_common_sql (Source.Statement.update s) = do s' ← convert_update s; some (Statement.update s')
    to_common_sql (Source.Statement.delete s) = do s' ← convert_delete s; some (Statement.delete s')
    to_common_sql (Source.Statement.create c) = convert_create parse_f64 c
    to_common_sql (Source.Statement.alter_table a) = convert_alter_table a
    to_common_sql (Source.Statement.batch_separator span repeat_count) = none
    to_common_sql s = some (dialect_specific s)
