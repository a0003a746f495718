-- ===== src/Parser/Expression/Power.antt =====
-- Binding powers (crates/tsql-parser/src/expression/binary.rs).
use tsqlremaker.Base.{ℕ, Option, none, some}
use tsqlremaker.Token.Kind.{TokenKind}
use tsqlremaker.Token.Position.{Span}
use tsqlremaker.Parser.Ast.{BinaryOperator}

pub data BindingPower : Type 0 where
  lowest logical_or logical_and comparison is additive multiplicative unary primary : BindingPower

-- The derived order compares the discriminants.
unfoldable pub strength : BindingPower → ℕ
strength lowest = 0
strength logical_or = 1
strength logical_and = 2
strength comparison = 3
strength is = 4
strength additive = 5
strength multiplicative = 6
strength unary = 7
strength primary = 8

unfoldable pub get_infix_binding_power : TokenKind → Option (BindingPower × BinaryOperator)
get_infix_binding_power TokenKind.or = some (logical_or, BinaryOperator.or)
get_infix_binding_power TokenKind.and = some (logical_and, BinaryOperator.and)
get_infix_binding_power TokenKind.in_kw = some (is, BinaryOperator.in_kw)
get_infix_binding_power TokenKind.between = some (is, BinaryOperator.between)
get_infix_binding_power TokenKind.assign = some (comparison, BinaryOperator.eq)
get_infix_binding_power TokenKind.eq = some (comparison, BinaryOperator.eq)
get_infix_binding_power TokenKind.ne = some (comparison, BinaryOperator.ne)
get_infix_binding_power TokenKind.ne_alt = some (comparison, BinaryOperator.ne_alt)
get_infix_binding_power TokenKind.lt = some (comparison, BinaryOperator.lt)
get_infix_binding_power TokenKind.le = some (comparison, BinaryOperator.le)
get_infix_binding_power TokenKind.gt = some (comparison, BinaryOperator.gt)
get_infix_binding_power TokenKind.ge = some (comparison, BinaryOperator.ge)
get_infix_binding_power TokenKind.not_lt = some (comparison, BinaryOperator.not_lt)
get_infix_binding_power TokenKind.not_gt = some (comparison, BinaryOperator.not_gt)
get_infix_binding_power TokenKind.plus = some (additive, BinaryOperator.plus)
get_infix_binding_power TokenKind.minus = some (additive, BinaryOperator.minus)
get_infix_binding_power TokenKind.concat = some (additive, BinaryOperator.concat)
get_infix_binding_power TokenKind.star = some (multiplicative, BinaryOperator.multiply)
get_infix_binding_power TokenKind.slash = some (multiplicative, BinaryOperator.divide)
get_infix_binding_power TokenKind.percent = some (multiplicative, BinaryOperator.modulo)
get_infix_binding_power _ = none

abbrev pub span_for_binary : Span → Span → Span
span_for_binary left right = record { start = left.start; end = right.end }
