-- ===== src/Parser/Expression/Fuel/Select.antt =====
-- The parts of a SELECT statement inside an expression, on enough fuel.
use tsqlremaker.Base.{ℕ, zero, suc, ◌-◌, ◌*◌, ◌≤◌, ◌<◌, refl, true, false, [], ◌∷◌, arith}
use tsqlremaker.Token.Kind.{TokenKind}
use tsqlremaker.Token.Tag.{is_kind}
use tsqlremaker.Parser.Monad.{Parser, ◌>>◌, return, consume, if_check, expect, on_tokens}
use tsqlremaker.Parser.Expression.Power.{lowest}
use tsqlremaker.Parser.Expression.Calls.{Calls}
use tsqlremaker.Parser.Expression.Subquery.{
  parse_subquery_select_item, parse_table, parse_items, parse_tables, parse_expressions,
  parse_order, parse_subquery_from_clause, clause, parse_select,
}
use tsqlremaker.Parser.Expression.Fuel.{
  Bounded, return-Bounded, if_check-Bounded, if_check-Bounded_any, bind-Bounded,
  if_consumed-Bounded, expect-Bounded, on_tokens-Bounded,
}
use tsqlremaker.Parser.Expression.Fuel.Parts.{
  Enough, take-Bounded, keep-Bounded, current_then-Bounded, option_token-Bounded,
  take_identifier-Bounded, parse_optional_alias-Bounded, parse_then-Bounded, comma-Bounded,
}
use tsqlremaker.Parser.Ast.{
  an_expression, no_expression, table_then, item_then, expression_then, order_then, no_tables,
  no_items, no_expressions, no_order, no_from,
}

module _ {f : ℕ} {calls : Calls} (enough : Enough f calls) where
  item-Bounded : {n : ℕ} → 2 * n < f → Bounded n n (parse_subquery_select_item calls)
  unfolding parse_subquery_select_item
  item-Bounded l =
      if_check-Bounded_any TokenKind.star (keep-Bounded λ _. return-Bounded _ (omega arith)) (
        parse_then-Bounded enough lowest l
          λ expr. bind-Bounded parse_optional_alias-Bounded λ alias. return-Bounded _ (omega arith))

  parse_table-Bounded : {n : ℕ} → 2 * n < f → Bounded n n (parse_table calls)
  unfolding parse_table is_kind
  parse_table-Bounded {n} l =
      if_check-Bounded TokenKind.lparen refl
        (λ p. current_then-Bounded λ first. take-Bounded λ _.
          bind-Bounded (enough.parse_subquery_select-Bounded (n - 1) (omega arith)) λ query.
            bind-Bounded (expect-Bounded (TokenKind.rparen ∷ []) TokenKind.rparen) λ _.
              bind-Bounded parse_optional_alias-Bounded
                λ alias. current_then-Bounded λ last. return-Bounded _ (omega arith))
        (bind-Bounded take_identifier-Bounded λ name.
          bind-Bounded parse_optional_alias-Bounded
            λ alias. current_then-Bounded λ last. return-Bounded _ (omega arith))

  parse_items-Bounded : (r n : ℕ) → n < r → 2 * n < f → Bounded n n (parse_items calls r)
  unfolding parse_items
  parse_items-Bounded zero n l h = absurd (omega arith)
  parse_items-Bounded (suc r) n l h = bind-Bounded (item-Bounded h) λ item.
      bind-Bounded
        (comma-Bounded enough {r = r} (omega arith)
          (λ j m m'. parse_items-Bounded r j m (omega arith))
          (return-Bounded no_items (omega arith)))
        λ rest. return-Bounded (item_then item rest) (omega arith)

  parse_tables-Bounded : (r n : ℕ) → n < r → 2 * n < f → Bounded n n (parse_tables calls r)
  unfolding parse_tables
  parse_tables-Bounded zero n l h = absurd (omega arith)
  parse_tables-Bounded (suc r) n l h = bind-Bounded (parse_table-Bounded h) λ table.
      bind-Bounded
        (comma-Bounded enough {r = r} (omega arith)
          (λ j m m'. parse_tables-Bounded r j m (omega arith))
          (return-Bounded no_tables (omega arith)))
        λ rest. return-Bounded (table_then table rest) (omega arith)

  parse_expressions-Bounded :
      (r n : ℕ) → n < r → 2 * n < f → Bounded n n (parse_expressions calls r)
  unfolding parse_expressions
  parse_expressions-Bounded zero n l h = absurd (omega arith)
  parse_expressions-Bounded (suc r) n l h = parse_then-Bounded enough lowest h λ expr.
      bind-Bounded
        (comma-Bounded enough {r = r} (omega arith)
          (λ j m m'. parse_expressions-Bounded r j m (omega arith))
          (return-Bounded no_expressions (omega arith)))
        λ rest. return-Bounded (expression_then expr rest) (omega arith)

  parse_order-Bounded : (r n : ℕ) → n < r → 2 * n < f → Bounded n n (parse_order calls r)
  unfolding parse_order
  parse_order-Bounded zero n l h = absurd (omega arith)
  parse_order-Bounded (suc r) n l h = parse_then-Bounded enough lowest h λ expr.
      bind-Bounded
        (if_check-Bounded_any TokenKind.asc (keep-Bounded λ _. return-Bounded true (omega arith))
          (option_token-Bounded TokenKind.desc false true))
        λ asc.
          bind-Bounded
            (comma-Bounded enough {r = r} (omega arith)
              (λ j m m'. parse_order-Bounded r j m (omega arith))
              (return-Bounded no_order (omega arith)))
            λ rest. return-Bounded (order_then expr asc rest) (omega arith)

  from-Bounded : {n : ℕ} → 2 * n < f → Bounded n n (parse_subquery_from_clause calls)
  unfolding parse_subquery_from_clause
  from-Bounded l = keep-Bounded λ _.
      bind-Bounded (on_tokens-Bounded λ r j m m'. parse_tables-Bounded r j m (omega arith))
        λ tables. return-Bounded _ (omega arith)

  pub clause-Bounded : {n : ℕ} (kind : TokenKind) → 2 * n < f → Bounded n n (clause calls kind)
  clause-Bounded kind l =
      if_check-Bounded_any kind
        (keep-Bounded λ _.
          parse_then-Bounded enough lowest l λ e. return-Bounded (an_expression e) (omega arith))
        (return-Bounded no_expression (omega arith))

  -- A list behind two keywords.
  by_list-Bounded :
      {A : Type 0} {n : ℕ} (kind : TokenKind) {p : ℕ → Parser A} (a : A)
      → ((r j : ℕ) → j < r → j ≤ n → Bounded j j (p r))
      → Bounded n n (
          if_check kind
            (consume >> (expect (TokenKind.by ∷ []) TokenKind.by >> on_tokens p))
            (return a))
  by_list-Bounded kind a h =
      if_check-Bounded_any kind
        (keep-Bounded λ _.
          bind-Bounded (expect-Bounded (TokenKind.by ∷ []) TokenKind.by) λ _. on_tokens-Bounded h)
        (return-Bounded a (omega arith))

  pub parse_select-Bounded : (n : ℕ) → 2 * (n - 1) < f → Bounded n (n - 1) (parse_select calls)
  unfolding parse_select is_kind
  parse_select-Bounded n l = current_then-Bounded λ first. take-Bounded λ _.
      bind-Bounded {j = n - 1}
        (if_consumed-Bounded TokenKind.distinct refl (λ p. return-Bounded true (omega arith))
          (return-Bounded false (omega arith)))
        λ distinct.
          bind-Bounded (on_tokens-Bounded λ r j m m'. parse_items-Bounded r j m (omega arith))
            λ columns.
              bind-Bounded
                (if_check-Bounded_any TokenKind.from (from-Bounded l)
                  (return-Bounded no_from (omega arith)))
                λ from. bind-Bounded (clause-Bounded TokenKind.where_kw l) λ where_clause.
                  bind-Bounded
                    (by_list-Bounded TokenKind.group no_expressions
                      λ r j m m'. parse_expressions-Bounded r j m (omega arith))
                    λ group_by. bind-Bounded (clause-Bounded TokenKind.having l) λ having.
                      bind-Bounded
                        (by_list-Bounded TokenKind.order no_order
                          λ r j m m'. parse_order-Bounded r j m (omega arith))
                        λ order_by. current_then-Bounded λ last. return-Bounded _ (omega arith)
