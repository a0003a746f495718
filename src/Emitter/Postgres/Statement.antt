-- ===== src/Emitter/Postgres/Statement.antt =====
-- INSERT, UPDATE and DELETE (crates/postgresql-emitter/src/lib.rs).
use tsqlremaker.Base.{Bool, if◌then◌else◌, List, [], ◌∷◌, map, Option, none, some, Text, codes}
use tsqlremaker.Common.Ddl.{Identifier, QualifiedName}
use tsqlremaker.Common.Ast.{Expressions, MaybeExpression, TableFactor, GroupByItem}
use tsqlremaker.Common.Statement.{
  Assignment, InsertSource, InsertStatement, UpdateStatement, DeleteStatement,
}
use tsqlremaker.Emitter.Quoting.{quote}
use tsqlremaker.Emitter.Postgres.Words.{format, join, join_word}
use tsqlremaker.Emitter.Postgres.Expression.{emit, emit_each, emit_select, alias_name}

-- Over `str::to_uppercase`, the derived `Debug` of an item of GROUP BY, and `quote_identifiers` of the
-- configuration. The buffer is the text that a function adds to it.
module _ (to_uppercase : Text → Text) (debug : GroupByItem → Text) (quote_identifiers : Bool) where
  unfoldable pub write_identifier : Text → Text
  write_identifier name = if quote_identifiers then quote to_uppercase name else name

  unfoldable pub write_qualified : Option Text → Text → Text
  write_qualified none name = write_identifier name
  write_qualified (some schema) name =
      format (write_identifier schema ∷ codes "." ∷ write_identifier name ∷ [])

  abbrev pub write_qualified_name : QualifiedName → Text
  write_qualified_name n = write_qualified n.schema n.name

  unfoldable pub write_alias : Option Text → Text
  write_alias none = []
  write_alias (some alias) = format (codes " AS " ∷ write_identifier alias ∷ [])

  unfoldable pub write_table_factor : TableFactor → Text
  write_table_factor (TableFactor.table name alias) =
      format (write_qualified_name name ∷ write_alias (alias_name to_uppercase debug alias) ∷ [])
  write_table_factor (TableFactor.derived query alias) = format (
      codes "("
      ∷ emit_select to_uppercase debug query
      ∷ codes ")"
      ∷ write_alias (alias_name to_uppercase debug alias)
      ∷ [])
  write_table_factor (TableFactor.join join_type right condition lateral) =
      format (join_word join_type ∷ codes " " ∷ write_table_factor right ∷ [])

  unfoldable pub write_where : MaybeExpression → Text
  write_where MaybeExpression.no_expression = []
  write_where (MaybeExpression.an_expression e) =
      format (codes " WHERE " ∷ emit to_uppercase debug e ∷ [])

  unfoldable pub write_columns : List Identifier → Text
  write_columns [] = []
  write_columns (c ∷ cs) = format (
      codes " ("
      ∷ join (codes ", ") (map (λ (i : Identifier). write_identifier i.value) (c ∷ cs))
      ∷ codes ")"
      ∷ [])

  unfoldable pub write_row : Expressions → Text
  write_row row =
      format (codes "(" ∷ join (codes ", ") (emit_each to_uppercase debug row) ∷ codes ")" ∷ [])

  unfoldable pub write_source : InsertSource → Text
  write_source (InsertSource.values rows) =
      format (codes " VALUES " ∷ join (codes ", ") (map write_row rows) ∷ [])
  write_source (InsertSource.select query) =
      format (codes "\n" ∷ emit_select to_uppercase debug query ∷ [])

  unfoldable pub visit_insert_statement : InsertStatement → Text
  visit_insert_statement s = format (
      codes "INSERT INTO "
      ∷ write_qualified_name s.table
      ∷ write_columns s.columns
      ∷ write_source s.source
      ∷ [])

  unfoldable pub write_assignment : Assignment → Text
  write_assignment a =
      format (write_identifier a.column.value ∷ codes " = " ∷ emit to_uppercase debug a.value ∷ [])

  unfoldable pub visit_update_statement : UpdateStatement → Text
  visit_update_statement s = format (
      codes "UPDATE "
      ∷ write_table_factor s.table
      ∷ codes " SET "
      ∷ join (codes ", ") (map write_assignment s.assignments)
      ∷ write_where s.where_clause
      ∷ [])

  unfoldable pub visit_delete_statement : DeleteStatement → Text
  visit_delete_statement s =
      format (codes "DELETE FROM " ∷ write_table_factor s.table ∷ write_where s.where_clause ∷ [])
