-- ===== src/Emitter/Postgres/Words.antt =====
-- Names, operators, literals and types (crates/postgresql-emitter/src/mappers/expression.rs).
use tsqlremaker.Base.{
  ℕ, if◌then◌else◌, List, [], ◌∷◌, ◌++◌, Option, none, some, Text, codes, text_eq, decimal,
  show_i64,
}
use tsqlremaker.Common.Ddl.{Identifier, DataType, QualifiedName}
use tsqlremaker.Common.Ast.{
  Literal, BinaryOperator, UnaryOperator, LogicalOperator, ComparisonOperator, JoinType,
}
use tsqlremaker.Emitter.Quoting.{quote, emit_string}

-- `format!`
abbrev pub format : List Text → Text
format [] = []
format (part ∷ parts) = part ++ format parts

-- `join`
unfoldable pub join : Text → List Text → Text
join separator [] = []
join separator (part ∷ []) = part
join separator (part ∷ (next ∷ parts)) = part ++ (separator ++ join separator (next ∷ parts))

-- `emit_literal`
unfoldable pub emit_literal : Literal → Text
emit_literal (Literal.string s) = emit_string s
emit_literal (Literal.integer n) = show_i64 n
emit_literal (Literal.float s) = s
emit_literal Literal.null = codes "NULL"
emit_literal (Literal.boolean b) = if b then codes "TRUE" else codes "FALSE"

unfoldable pub emit_unary_op : UnaryOperator → Text
emit_unary_op UnaryOperator.plus = codes "+"
emit_unary_op UnaryOperator.minus = codes "-"
emit_unary_op UnaryOperator.not = codes "NOT"

unfoldable pub emit_binary_op : BinaryOperator → Text
emit_binary_op BinaryOperator.add = codes "+"
emit_binary_op BinaryOperator.sub = codes "-"
emit_binary_op BinaryOperator.mul = codes "*"
emit_binary_op BinaryOperator.div = codes "/"
emit_binary_op BinaryOperator.modulo = codes "%"
emit_binary_op BinaryOperator.concat = codes "||"

unfoldable pub emit_comparison_op : ComparisonOperator → Text
emit_comparison_op ComparisonOperator.eq = codes "="
emit_comparison_op ComparisonOperator.ne = codes "<>"
emit_comparison_op ComparisonOperator.lt = codes "<"
emit_comparison_op ComparisonOperator.le = codes "<="
emit_comparison_op ComparisonOperator.gt = codes ">"
emit_comparison_op ComparisonOperator.ge = codes ">="
emit_comparison_op ComparisonOperator.like = codes "LIKE"
emit_comparison_op ComparisonOperator.not_like = codes "NOT LIKE"
emit_comparison_op ComparisonOperator.ilike = codes "ILIKE"
emit_comparison_op ComparisonOperator.not_ilike = codes "NOT ILIKE"

unfoldable pub emit_logical_op : LogicalOperator → Text
emit_logical_op LogicalOperator.and = codes "AND"
emit_logical_op LogicalOperator.or = codes "OR"

unfoldable pub sized : Text → Option ℕ → Text
sized word none = word
sized word (some n) = format (word ∷ codes "(" ∷ decimal n ∷ codes ")" ∷ [])

unfoldable pub scaled : Text → Option ℕ → Option ℕ → Text
scaled word (some p) (some s) =
    format (word ∷ codes "(" ∷ decimal p ∷ codes "," ∷ decimal s ∷ codes ")" ∷ [])
scaled word (some p) none = format (word ∷ codes "(" ∷ decimal p ∷ codes ")" ∷ [])
scaled word none s = word

unfoldable pub emit_data_type : DataType → Text
emit_data_type DataType.tiny_int = codes "SMALLINT"
emit_data_type DataType.small_int = codes "SMALLINT"
emit_data_type DataType.int = codes "INTEGER"
emit_data_type DataType.big_int = codes "BIGINT"
emit_data_type DataType.boolean = codes "BOOLEAN"
emit_data_type (DataType.var_char length) = sized (codes "VARCHAR") length
emit_data_type (DataType.char length) = sized (codes "CHAR") length
emit_data_type DataType.text = codes "TEXT"
emit_data_type DataType.real = codes "REAL"
emit_data_type DataType.double_precision = codes "DOUBLE PRECISION"
emit_data_type (DataType.decimal p s) = scaled (codes "DECIMAL") p s
emit_data_type (DataType.numeric p s) = scaled (codes "NUMERIC") p s
emit_data_type DataType.date = codes "DATE"
emit_data_type (DataType.timestamp precision) = codes "TIMESTAMP"
emit_data_type _ = codes "TEXT"

unfoldable pub join_word : JoinType → Text
join_word JoinType.inner = codes "INNER JOIN"
join_word JoinType.left = codes "LEFT JOIN"
join_word JoinType.right = codes "RIGHT JOIN"
join_word JoinType.full = codes "FULL JOIN"
join_word JoinType.cross = codes "CROSS JOIN"

-- Names, over `str::to_uppercase`.
module _ (to_uppercase : Text → Text) where
  unfoldable pub emit_identifier : Identifier → Text
  emit_identifier i = if text_eq i.value (codes "*") then codes "*" else quote to_uppercase i.value

  unfoldable pub emit_qualified_identifier : Identifier → Identifier → Text
  emit_qualified_identifier table column =
      if text_eq column.value (codes "*")
      then format (emit_identifier table ∷ codes ".*" ∷ [])
      else format (emit_identifier table ∷ codes "." ∷ emit_identifier column ∷ [])

  unfoldable pub qualified : Option Text → Text → Text
  qualified none name = quote to_uppercase name
  qualified (some schema) name =
      format (quote to_uppercase schema ∷ codes "." ∷ quote to_uppercase name ∷ [])

  abbrev pub emit_qualified_name : QualifiedName → Text
  emit_qualified_name n = qualified n.schema n.name
