-- ===== src/Parser/Expression/Special.antt =====
-- CASE, EXISTS, IS, IN, BETWEEN and LIKE (crates/tsql-parser/src/expression/special.rs).
use tsqlremaker.Base.{
  ℕ, zero, suc, Bool, true, false, [], ◌∷◌, ◌++◌, Text, codes, text_eq, if◌then◌else◌,
}
use tsqlremaker.Token.Kind.{TokenKind}
use tsqlremaker.Token.Position.{Span, Position}
use tsqlremaker.Parser.Error.{unexpected_eof, invalid_syntax}
use tsqlremaker.Parser.Ast.{
  Expression, expression_span, case_expression, exists, in_list, between, like, is, MaybeExpression,
  no_expression, an_expression, Expressions, no_expressions, expression_then, Branches, no_branches,
  branch_then, InList, values, select_list, IsValue,
}
use tsqlremaker.Parser.Monad.{
  Parser, ◌>>=◌, ◌>>◌, return, fail, exhaust, current, consume, if_check, if_consumed, expect,
  unexpected, on_tokens,
}
use tsqlremaker.Parser.Expression.Power.{comparison}
use tsqlremaker.Parser.Expression.Calls.{Calls, parse}

-- The word behind IS.
unfoldable pub is_value : Text → Position → Parser IsValue
is_value word position =
    if text_eq word (codes "TRUE")
    then return IsValue.true_value
    else if text_eq word (codes "FALSE")
    then return IsValue.false_value
    else if text_eq word (codes "UNKNOWN")
    then return IsValue.unknown
    else fail (
        invalid_syntax
          (codes "Expected NULL, TRUE, FALSE, or UNKNOWN after IS, found '" ++ (word ++ codes "'"))
          position)

abbrev pub take_not : Parser Bool
take_not = if_check TokenKind.not (do consume; return true) (return false)

-- `parse_is_expression`, over `str::to_uppercase`
unfoldable pub parse_is_expression : (Text → Text) → Expression → Parser Expression
parse_is_expression to_uppercase left = do
  consume
  negated ← take_not
  value ←
      if_check TokenKind.null (do consume; return IsValue.null)
        (do t ← current; consume; is_value (to_uppercase t.text) t.position)
  last ← current
  return
      (is left negated value (record { start = (expression_span left).start; end = last.span.end }))

-- The error of a list with no closing parenthesis.
abbrev pub unclosed : {A : Type 0} → Parser A
unclosed = do
  t ← current
  fail (unexpected_eof (codes ")") (record { line = 1; column = t.span.end; offset = t.span.end }))

module _ (calls : Calls) where
  -- The loop over the branches of a CASE.
  unfoldable pub parse_branches : ℕ → Parser Branches
  parse_branches zero = exhaust
  parse_branches (suc n) =
      if_check TokenKind.when
        (do
          consume
          condition ← parse calls
          expect (TokenKind.then_kw ∷ []) TokenKind.then_kw
          result ← parse calls
          rest ← parse_branches n
          return (branch_then condition result rest))
        (return no_branches)

  abbrev pub case_branches : Parser Branches
  case_branches = on_tokens parse_branches

  abbrev pub optional_behind : TokenKind → Parser MaybeExpression
  optional_behind kind =
      if_check kind (do consume; e ← parse calls; return (an_expression e)) (return no_expression)

  unfoldable pub parse_case_expression : Parser Expression
  parse_case_expression = do
    first ← current
    consume
    branches ← case_branches
    else_result ← optional_behind TokenKind.else_kw
    last ← expect (TokenKind.end ∷ []) TokenKind.end
    return (
        case_expression branches else_result
          (record { start = first.span.start; end = last.span.end }))

  unfoldable pub parse_exists_expression : Parser Expression
  parse_exists_expression = do
    consume
    expect (TokenKind.lparen ∷ []) TokenKind.lparen
    query ← calls.parse_subquery_select
    expect (TokenKind.rparen ∷ []) TokenKind.rparen
    return (exists query)

  -- The loop over the values of an IN.
  unfoldable pub parse_values : ℕ → Parser Expressions
  parse_values zero = exhaust
  parse_values (suc n) = if_check TokenKind.rparen (return no_expressions) (
      if_check TokenKind.eof (return no_expressions) (do
        value ← parse calls
        rest ← if_consumed TokenKind.comma (parse_values n) (return no_expressions)
        return (expression_then value rest)))

  abbrev pub in_values : Parser InList
  in_values = do vs ← on_tokens parse_values; return (values vs)

  abbrev pub in_parens : Parser InList
  in_parens = do
    consume
    list ←
        if_check TokenKind.select (do q ← calls.parse_subquery_select; return (select_list q))
          in_values
    if_check TokenKind.rparen (do consume; return list) unclosed

  -- Behind IN
  unfoldable pub parse_in_expression : Expression → Bool → Parser Expression
  parse_in_expression left negated = do
    list ← if_check TokenKind.lparen in_parens (unexpected (TokenKind.lparen ∷ []))
    last ← current
    return (
        in_list left list negated
          (record { start = (expression_span left).start; end = last.span.end }))

  -- Behind BETWEEN
  unfoldable pub parse_between_expression : Expression → Bool → Parser Expression
  parse_between_expression left negated = do
    low ← calls.parse_bp comparison
    expect (TokenKind.and ∷ []) TokenKind.and
    high ← calls.parse_bp comparison
    return (
        between left low high negated
          (record { start = (expression_span left).start; end = (expression_span high).end }))

  abbrev pub like_end : Expression → MaybeExpression → Span
  like_end pattern_expr no_expression = expression_span pattern_expr
  like_end pattern_expr (an_expression e) = expression_span e

  -- Behind LIKE
  unfoldable pub parse_like_expression : Expression → Bool → Parser Expression
  parse_like_expression left negated = do
    pattern_expr ← parse calls
    escape ← optional_behind TokenKind.escape
    return (
        like left pattern_expr escape negated (record {
          start = (expression_span left).start;
          end = (like_end pattern_expr escape).end;
        }))

  -- At the NOT before IN, BETWEEN or LIKE
  unfoldable pub parse_not_special_expression : Expression → Parser Expression
  parse_not_special_expression left = do
    consume
    if_check TokenKind.in_kw (do consume; parse_in_expression left true)
        (if_check TokenKind.between (do consume; parse_between_expression left true)
          (if_check TokenKind.like (do consume; parse_like_expression left true)
            (unexpected (TokenKind.in_kw ∷ TokenKind.between ∷ TokenKind.like ∷ []))))
