-- ===== src/Translate/Operators.antt =====
-- The literals, the names and the operators (crates/tsql-parser/src/ast/to_common_sql.rs).
use tsqlremaker.Base.{false, Option, none, some, Text, parse_i64}
use tsqlremaker.Parser.Ast as Tsql
use tsqlremaker.Common.Ddl.{Identifier}
use tsqlremaker.Common.Ast.{
  Literal, BinaryOperator, UnaryOperator, LogicalOperator, ComparisonOperator, Expression, literal,
  identifier, qualified_identifier, binary_op, logical_op, comparison,
}
use tsqlremaker.Translate.Fallible.{◌>>=◌}

-- `Identifier::new`
abbrev pub new : Text → Identifier
new value = record { value = value; quoted = false }

-- What the literals need: `str::parse::<f64>` with `f64::to_string` behind it.
module _ (parse_f64 : Text → Option Text) where
  unfoldable pub convert_literal : Tsql.Literal → Option Expression
  convert_literal (Tsql.Literal.string s span) = some (literal (Literal.string s))
  convert_literal (Tsql.Literal.number n span) = do
    i ← parse_i64 n
    some (literal (Literal.integer i))
  convert_literal (Tsql.Literal.float f span) = do
    shown ← parse_f64 f
    some (literal (Literal.float shown))
  convert_literal (Tsql.Literal.hex h span) = none
  convert_literal (Tsql.Literal.null span) = some (literal Literal.null)
  convert_literal (Tsql.Literal.boolean b span) = some (literal (Literal.boolean b))

-- The two cases of `convert_column_reference`.
unfoldable pub column_of : Option Tsql.Identifier → Tsql.Identifier → Expression
column_of none column = identifier (new column.name)
column_of (some table) column = qualified_identifier (new table.name) (new column.name)

unfoldable pub convert_column_reference : Tsql.ColumnReference → Expression
convert_column_reference col = column_of col.table col.column

unfoldable pub convert_unary_op : Tsql.UnaryOperator → Option UnaryOperator
convert_unary_op Tsql.UnaryOperator.plus = some UnaryOperator.plus
convert_unary_op Tsql.UnaryOperator.minus = some UnaryOperator.minus
convert_unary_op Tsql.UnaryOperator.not = some UnaryOperator.not
convert_unary_op Tsql.UnaryOperator.tilde = none

unfoldable pub convert_binary_op : Expression → Tsql.BinaryOperator → Expression → Option Expression
convert_binary_op l Tsql.BinaryOperator.plus r = some (binary_op l BinaryOperator.add r)
convert_binary_op l Tsql.BinaryOperator.minus r = some (binary_op l BinaryOperator.sub r)
convert_binary_op l Tsql.BinaryOperator.multiply r = some (binary_op l BinaryOperator.mul r)
convert_binary_op l Tsql.BinaryOperator.divide r = some (binary_op l BinaryOperator.div r)
convert_binary_op l Tsql.BinaryOperator.modulo r = some (binary_op l BinaryOperator.modulo r)
convert_binary_op l Tsql.BinaryOperator.concat r = some (binary_op l BinaryOperator.concat r)
convert_binary_op l Tsql.BinaryOperator.eq r = some (comparison l ComparisonOperator.eq r)
convert_binary_op l Tsql.BinaryOperator.ne_alt r = some (comparison l ComparisonOperator.eq r)
convert_binary_op l Tsql.BinaryOperator.ne r = some (comparison l ComparisonOperator.ne r)
convert_binary_op l Tsql.BinaryOperator.lt r = some (comparison l ComparisonOperator.lt r)
convert_binary_op l Tsql.BinaryOperator.le r = some (comparison l ComparisonOperator.le r)
convert_binary_op l Tsql.BinaryOperator.gt r = some (comparison l ComparisonOperator.gt r)
convert_binary_op l Tsql.BinaryOperator.ge r = some (comparison l ComparisonOperator.ge r)
convert_binary_op l Tsql.BinaryOperator.and r = some (logical_op l LogicalOperator.and r)
convert_binary_op l Tsql.BinaryOperator.or r = some (logical_op l LogicalOperator.or r)
convert_binary_op l Tsql.BinaryOperator.not_lt r = none
convert_binary_op l Tsql.BinaryOperator.not_gt r = none
convert_binary_op l Tsql.BinaryOperator.in_kw r = none
convert_binary_op l Tsql.BinaryOperator.between r = none
