-- ===== src/Parser/Expression/Subquery.antt =====
-- SELECT statements inside expressions (crates/tsql-parser/src/expression/mod.rs).
use tsqlremaker.Base.{ℕ, zero, suc, Bool, true, false, [], ◌∷◌, Option, none, some}
use tsqlremaker.Token.Kind.{TokenKind}
use tsqlremaker.Parser.Ast.{
  Identifier, MaybeExpression, no_expression, an_expression, Expressions, no_expressions,
  expression_then, SelectStatement, select_statement, SelectItem, expression_item, wildcard_item,
  SelectItems, no_items, item_then, MaybeFrom, no_from, from_clause, TableReference, table_ref,
  subquery_ref, TableReferences, no_tables, table_then, no_joins, OrderByItems, no_order,
  order_then, no_limit,
}
use tsqlremaker.Parser.Monad.{
  Parser, ◌>>=◌, ◌>>◌, return, exhaust, current, consume, if_check, if_consumed, expect, on_tokens,
}
use tsqlremaker.Parser.Expression.Calls.{Calls, parse}

-- The token at hand as a name, taken.
abbrev pub take_identifier : Parser Identifier
take_identifier = do t ← current; consume; return (record { name = t.text; span = t.span })

-- `parse_optional_alias`, which `parse_subquery_select_item` repeats
unfoldable pub parse_optional_alias : Parser (Option Identifier)
parse_optional_alias =
    if_check TokenKind.as_kw (do consume; i ← take_identifier; return (some i))
      (if_check TokenKind.ident (do i ← take_identifier; return (some i)) (return none))

module _ (calls : Calls) where
  unfoldable pub parse_subquery_select_item : Parser SelectItem
  parse_subquery_select_item =
      if_check TokenKind.star (do consume; return wildcard_item)
        (do expr ← parse calls; alias ← parse_optional_alias; return (expression_item expr alias))

  unfoldable pub parse_table : Parser TableReference
  parse_table =
      if_check TokenKind.lparen
        (do
          first ← current
          consume
          query ← calls.parse_subquery_select
          expect (TokenKind.rparen ∷ []) TokenKind.rparen
          alias ← parse_optional_alias
          last ← current
          return
              (subquery_ref query alias (record { start = first.span.start; end = last.span.end })))
        (do
          name ← take_identifier
          alias ← parse_optional_alias
          last ← current
          return (table_ref name alias (record { start = name.span.start; end = last.span.end })))

  -- The loops over lists with commas: items, tables, the expressions of GROUP BY, and the keys of
  -- ORDER BY.
  unfoldable pub parse_items : ℕ → Parser SelectItems
  parse_items zero = exhaust
  parse_items (suc n) = do
    item ← parse_subquery_select_item
    rest ← if_consumed TokenKind.comma (parse_items n) (return no_items)
    return (item_then item rest)

  unfoldable pub parse_tables : ℕ → Parser TableReferences
  parse_tables zero = exhaust
  parse_tables (suc n) = do
    table ← parse_table
    rest ← if_consumed TokenKind.comma (parse_tables n) (return no_tables)
    return (table_then table rest)

  unfoldable pub parse_expressions : ℕ → Parser Expressions
  parse_expressions zero = exhaust
  parse_expressions (suc n) = do
    expr ← parse calls
    rest ← if_consumed TokenKind.comma (parse_expressions n) (return no_expressions)
    return (expression_then expr rest)

  abbrev pub take_direction : Parser Bool
  take_direction =
      if_check TokenKind.asc (do consume; return true)
        (if_check TokenKind.desc (do consume; return false) (return true))

  unfoldable pub parse_order : ℕ → Parser OrderByItems
  parse_order zero = exhaust
  parse_order (suc n) = do
    expr ← parse calls
    asc ← take_direction
    rest ← if_consumed TokenKind.comma (parse_order n) (return no_order)
    return (order_then expr asc rest)

  unfoldable pub parse_subquery_from_clause : Parser MaybeFrom
  parse_subquery_from_clause = do
    consume
    tables ← on_tokens parse_tables
    return (from_clause tables no_joins)

  -- An expression behind a keyword, if the keyword is there.
  abbrev pub clause : TokenKind → Parser MaybeExpression
  clause kind =
      if_check kind (do consume; e ← parse calls; return (an_expression e)) (return no_expression)

  abbrev pub group_by_clause : Parser Expressions
  group_by_clause =
      if_check TokenKind.group
        (do consume; expect (TokenKind.by ∷ []) TokenKind.by; on_tokens parse_expressions)
        (return no_expressions)

  abbrev pub order_by_clause : Parser OrderByItems
  order_by_clause =
      if_check TokenKind.order
        (do consume; expect (TokenKind.by ∷ []) TokenKind.by; on_tokens parse_order)
        (return no_order)

  -- `parse_subquery_select`
  unfoldable pub parse_select : Parser SelectStatement
  parse_select = do
    first ← current
    consume
    distinct ← if_consumed TokenKind.distinct (return true) (return false)
    columns ← on_tokens parse_items
    from ← if_check TokenKind.from parse_subquery_from_clause (return no_from)
    where_clause ← clause TokenKind.where_kw
    group_by ← group_by_clause
    having ← clause TokenKind.having
    order_by ← order_by_clause
    last ← current
    return (
        select_statement (record { start = first.span.start; end = last.span.end }) distinct
          no_expression columns from where_clause group_by having order_by no_limit)
