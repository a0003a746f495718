-- ===== src/Parser/Expression/Fuel/Special.antt =====
-- CASE, EXISTS, IN, BETWEEN and LIKE, on enough fuel.
use tsqlremaker.Base.{ℕ, zero, suc, ◌+◌, ◌-◌, ◌*◌, ◌≤◌, ◌<◌, refl, Bool, true, [], ◌∷◌, arith}
use tsqlremaker.Token.Kind.{TokenKind}
use tsqlremaker.Token.Tag.{is_kind}
use tsqlremaker.Parser.Ast.{Expression}
use tsqlremaker.Parser.Expression.Power.{lowest, comparison}
use tsqlremaker.Parser.Expression.Calls.{Calls}
use tsqlremaker.Parser.Expression.Special.{
  parse_branches, parse_case_expression, parse_exists_expression, parse_values, in_parens,
  parse_in_expression, parse_between_expression, parse_like_expression,
  parse_not_special_expression,
}
use tsqlremaker.Parser.Expression.Fuel.{
  Bounded, return-Bounded, fail-Bounded, unexpected-Bounded, consume-Bounded, if_check-Bounded,
  if_check-Bounded_any, bind-Bounded, expect-Bounded, on_tokens-Bounded,
}
use tsqlremaker.Parser.Expression.Fuel.Parts.{
  Enough, take-Bounded, keep-Bounded, current_then-Bounded, parse_then-Bounded, comma-Bounded,
}
use tsqlremaker.Parser.Expression.Fuel.Select.{clause-Bounded}
use tsqlremaker.Parser.Ast.{
  no_branches, branch_then, no_expressions, expression_then, select_list, values, exists,
}

module _ {f : ℕ} {calls : Calls} (enough : Enough f calls) where
  parse_branches-Bounded : (r n : ℕ) → n < r → 2 * n < f → Bounded n n (parse_branches calls r)
  unfolding parse_branches is_kind
  parse_branches-Bounded zero n l h = absurd (omega arith)
  parse_branches-Bounded (suc r) n l h =
      if_check-Bounded TokenKind.when refl
        (λ p. take-Bounded λ _. parse_then-Bounded enough lowest (omega arith) λ condition.
          bind-Bounded (expect-Bounded (TokenKind.then_kw ∷ []) TokenKind.then_kw) λ _.
            parse_then-Bounded enough lowest (omega arith) λ result.
              bind-Bounded (parse_branches-Bounded r (n - 1) (omega arith) (omega arith))
                λ rest. return-Bounded (branch_then condition result rest) (omega arith))
        (return-Bounded no_branches (omega arith))

  pub case-Bounded : {n : ℕ} → 2 * (n - 1) < f → Bounded n (n - 1) (parse_case_expression calls)
  unfolding parse_case_expression
  case-Bounded {n} l = current_then-Bounded λ first. take-Bounded λ _.
      bind-Bounded (on_tokens-Bounded λ r j m m'. parse_branches-Bounded r j m (omega arith))
        λ branches. bind-Bounded (clause-Bounded enough TokenKind.else_kw l) λ else_result.
          bind-Bounded (expect-Bounded (TokenKind.end ∷ []) TokenKind.end)
            λ last. return-Bounded _ (omega arith)

  pub exists-Bounded :
      {n : ℕ} → 2 * (n - 1) + 1 < f → Bounded n (n - 1) (parse_exists_expression calls)
  unfolding parse_exists_expression
  exists-Bounded {n} l = take-Bounded λ _.
      bind-Bounded (expect-Bounded (TokenKind.lparen ∷ []) TokenKind.lparen) λ _.
        bind-Bounded (enough.parse_subquery_select-Bounded (n - 1) l) λ query.
          bind-Bounded (expect-Bounded (TokenKind.rparen ∷ []) TokenKind.rparen)
            λ _. return-Bounded (exists query) (omega arith)

  parse_values-Bounded : (r n : ℕ) → n < r → 2 * n < f → Bounded n n (parse_values calls r)
  unfolding parse_values
  parse_values-Bounded zero n l h = absurd (omega arith)
  parse_values-Bounded (suc r) n l h =
      if_check-Bounded_any TokenKind.rparen (return-Bounded no_expressions (omega arith)) (
        if_check-Bounded_any TokenKind.eof (return-Bounded no_expressions (omega arith)) (
          parse_then-Bounded enough lowest h λ value.
            bind-Bounded
              (comma-Bounded enough {r = r} (omega arith)
                (λ j m m'. parse_values-Bounded r j m (omega arith))
                (return-Bounded no_expressions (omega arith)))
              λ rest. return-Bounded (expression_then value rest) (omega arith)))

  in_parens-Bounded : {n : ℕ} → 1 ≤ n → 2 * n < f → Bounded n n (in_parens calls)
  in_parens-Bounded {n} p l = bind-Bounded consume-Bounded λ _.
      bind-Bounded {j = n - 1}
        (if_check-Bounded_any TokenKind.select
          (bind-Bounded (enough.parse_subquery_select-Bounded (n - 1) (omega arith))
            λ q. return-Bounded (select_list q) (omega arith))
          (bind-Bounded (on_tokens-Bounded λ r j m m'. parse_values-Bounded r j m (omega arith))
            λ vs. return-Bounded (values vs) (omega arith)))
        λ list.
          if_check-Bounded_any TokenKind.rparen
            (keep-Bounded λ _. return-Bounded list (omega arith))
            (current_then-Bounded λ t. fail-Bounded _)

  pub in-Bounded :
      {n : ℕ} (left : Expression) (negated : Bool)
      → 2 * n < f
      → Bounded n n (parse_in_expression calls left negated)
  unfolding parse_in_expression is_kind
  in-Bounded left negated l =
      bind-Bounded
        (if_check-Bounded TokenKind.lparen refl (λ p. in_parens-Bounded p l)
          (unexpected-Bounded (TokenKind.lparen ∷ [])))
        λ list. current_then-Bounded λ last. return-Bounded _ (omega arith)

  pub between-Bounded :
      {n : ℕ} (left : Expression) (negated : Bool)
      → 2 * n < f
      → Bounded n n (parse_between_expression calls left negated)
  unfolding parse_between_expression
  between-Bounded left negated l = parse_then-Bounded enough comparison l λ low.
      bind-Bounded (expect-Bounded (TokenKind.and ∷ []) TokenKind.and)
        λ _. parse_then-Bounded enough comparison l λ high. return-Bounded _ (omega arith)

  pub like-Bounded :
      {n : ℕ} (left : Expression) (negated : Bool)
      → 2 * n < f
      → Bounded n n (parse_like_expression calls left negated)
  unfolding parse_like_expression
  like-Bounded left negated l = parse_then-Bounded enough lowest l λ pattern_expr.
      bind-Bounded (clause-Bounded enough TokenKind.escape l)
        λ escape. return-Bounded _ (omega arith)

  pub not_special-Bounded :
      {n : ℕ} (left : Expression)
      → 2 * (n - 1) < f
      → Bounded n (n - 1) (parse_not_special_expression calls left)
  unfolding parse_not_special_expression
  not_special-Bounded left l = take-Bounded λ _.
      if_check-Bounded_any TokenKind.in_kw (keep-Bounded λ _. in-Bounded left true l) (
        if_check-Bounded_any TokenKind.between (keep-Bounded λ _. between-Bounded left true l) (
          if_check-Bounded_any TokenKind.like (keep-Bounded λ _. like-Bounded left true l)
            (unexpected-Bounded (TokenKind.in_kw ∷ TokenKind.between ∷ TokenKind.like ∷ []))))
