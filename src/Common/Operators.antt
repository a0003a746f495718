-- ===== src/Common/Operators.antt =====
-- The three kinds of operators between two expressions (crates/common-sql/src/ast/expression.rs).
use tsqlremaker.Common.Ast.{
  BinaryOperator, ComparisonOperator, LogicalOperator, Expression, binary_op, comparison,
  logical_op,
}

pub data SqlOperator : Type 0 where
  arithmetic : BinaryOperator → SqlOperator
  compares : ComparisonOperator → SqlOperator
  connects : LogicalOperator → SqlOperator

-- Two operands under an operator.
abbrev pub joined : SqlOperator → Expression → Expression → Expression
joined (arithmetic op) l r = binary_op l op r
joined (compares op) l r = comparison l op r
joined (connects op) l r = logical_op l op r
