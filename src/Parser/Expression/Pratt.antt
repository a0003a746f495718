-- ===== src/Parser/Expression/Pratt.antt =====
-- `parse_bp`, and the parser as a whole (crates/tsql-parser/src/expression/mod.rs).
use tsqlremaker.Base.{
  ℕ, zero, suc, ◌+◌, ◌*◌, ◌-◌, Bool, false, ◌&&◌, ◌||◌, ltb, leb, List, Option, none, some, length,
  Text, if◌then◌else◌,
}
use tsqlremaker.Token.Kind.{TokenKind}
use tsqlremaker.Token.Tag.{is_kind}
use tsqlremaker.Lexer.Token.{Token}
use tsqlremaker.Parser.Error.{recursion_limit_exceeded}
use tsqlremaker.Parser.Buffer.Refinement.{nth}
use tsqlremaker.Parser.Ast.{Expression, expression_span, binary_op, BinaryOperator}
use tsqlremaker.Parser.Monad.{
  ExpressionParser, Parser, ◌>>=◌, ◌>>◌, return, fail, exhaust, current, consume, if_check,
  on_tokens,
}
use tsqlremaker.Parser.Expression.Power.{
  BindingPower, lowest, strength, get_infix_binding_power, span_for_binary,
}
use tsqlremaker.Parser.Expression.Calls.{Calls}
use tsqlremaker.Parser.Expression.Subquery.{parse_select}
use tsqlremaker.Parser.Expression.Special.{
  parse_is_expression, parse_not_special_expression, parse_in_expression, parse_between_expression,
  parse_like_expression,
}
use tsqlremaker.Parser.Expression.Prefix.{parse_prefix}

-- `ExpressionParser::new` and `with_max_depth`
unfoldable pub new : List Token → ExpressionParser
new buffer = record { buffer = buffer; depth = 0; max_depth = 1000 }

unfoldable pub with_max_depth : ℕ → ExpressionParser → ExpressionParser
with_max_depth max s = record s { max_depth = max }

unfoldable pub check_depth : Parser (Unit {0})
check_depth s =
    if leb s.max_depth s.depth
    then fail
        (recursion_limit_exceeded s.max_depth
          (record { line = 0; column = 0; offset = (nth 0 s.buffer).span.start }))
        s
    else return tt s

unfoldable pub deeper : Parser (Unit {0})
deeper s = return tt (record s { depth = s.depth + 1 })

unfoldable pub shallower : Parser (Unit {0})
shallower s = return tt (record s { depth = s.depth - 1 })

-- `matches!(kind, In | Between | Like)`
abbrev pub is_special : TokenKind → Bool
is_special kind =
    is_kind kind TokenKind.in_kw || is_kind kind TokenKind.between || is_kind kind TokenKind.like

-- NOT, and behind it IN, BETWEEN or LIKE
unfoldable pub if_not_special : {A : Type 0} → Parser A → Parser A → Parser A
if_not_special x y s =
    if is_kind (nth 0 s.buffer).kind TokenKind.not && is_special (nth 1 s.buffer).kind
    then x s
    else y s

module _ (to_uppercase : Text → Text) (calls : Calls) where
  -- The new left side that an infix operator makes.
  unfoldable pub extend : BindingPower → BinaryOperator → Expression → Parser Expression
  extend power BinaryOperator.between left = do consume; parse_between_expression calls left false
  extend power BinaryOperator.in_kw left = do consume; parse_in_expression calls left false
  extend power op left = do
    consume
    right ← calls.parse_bp power
    return
        (binary_op left op right (span_for_binary (expression_span left) (expression_span right)))

  -- The end of a round, at an operator or none.
  unfoldable pub infix_at :
      Option (BindingPower × BinaryOperator)
      → BindingPower
      → Expression
      → (Expression → Parser Expression)
      → Parser Expression
  infix_at none min_bp left again = return left
  infix_at (some (power, op)) min_bp left again =
      if ltb (strength power) (strength min_bp)
      then return left
      else (extend power op left >>= again)

  -- A round of the loop of `parse_bp`, which goes on with `again` or leaves with the left side.
  unfoldable pub round :
      BindingPower → Expression → (Expression → Parser Expression) → Parser Expression
  round min_bp left again = if_not_special (parse_not_special_expression calls left >>= again) (
      if_check TokenKind.is (parse_is_expression to_uppercase left >>= again) (
        if_check TokenKind.like (consume >> parse_like_expression calls left false >>= again)
          (current >>= λ t. infix_at (get_infix_binding_power t.kind) min_bp left again)))

  unfoldable pub bp_loop : ℕ → BindingPower → Expression → Parser Expression
  bp_loop zero min_bp left = exhaust
  bp_loop (suc n) min_bp left = round min_bp left (bp_loop n min_bp)

  -- A round takes a token, so one unit for each token and one more is enough.
  abbrev pub bp_rounds : BindingPower → Expression → Parser Expression
  bp_rounds min_bp left = on_tokens λ n. bp_loop n min_bp left

  -- `parse_bp`
  unfoldable pub bp_body : BindingPower → Parser Expression
  bp_body min_bp = do
    check_depth
    deeper
    left ← parse_prefix to_uppercase calls
    result ← bp_rounds min_bp left
    shallower
    return result

  -- `parse_atomic`
  unfoldable pub parse_atomic : Parser Expression
  parse_atomic = check_depth >> parse_prefix to_uppercase calls

-- The calls of `parse_bp` and `parse_subquery_select` into themselves, on fuel.
unfoldable pub level : (Text → Text) → ℕ → Calls
level to_uppercase zero = record { parse_bp = λ min_bp. exhaust; parse_subquery_select = exhaust }
level to_uppercase (suc n) = record {
  parse_bp = bp_body to_uppercase (level to_uppercase n);
  parse_subquery_select = parse_select (level to_uppercase n);
}

-- Two units for each token, since a call that goes deeper takes a token first, and a call to
-- `parse_subquery_select` comes between.
abbrev pub fuel_for : ExpressionParser → ℕ
fuel_for s = suc (2 * length s.buffer)

-- `ExpressionParser::parse`
unfoldable pub parse_expression : (Text → Text) → Parser Expression
parse_expression to_uppercase s = (level to_uppercase (fuel_for s)).parse_bp lowest s
