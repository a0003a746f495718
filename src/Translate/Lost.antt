-- ===== src/Translate/Lost.antt =====
-- Conditions that the translation loses (crates/tsql-parser/src/ast/to_common_sql.rs).
use tsqlremaker.Base.{◌≡◌, refl, inl, inr, Bool, Option, none, some, Text}
use tsqlremaker.Token.Position.{Span}
use tsqlremaker.Parser.Ast as Tsql
use tsqlremaker.Parser.Ast.Definition as Source
use tsqlremaker.Parser.Ast.Statement as Statements
use tsqlremaker.Common.Ast.{Expression, MaybeExpression, TableFactor}
use tsqlremaker.Common.Statement.{Statement}
use tsqlremaker.Translate.Fallible.{◌>>=◌, Option-cases}
use tsqlremaker.Translate.Operators.{convert_literal, convert_unary_op, convert_binary_op}
use tsqlremaker.Translate.Expression.{
  convert_is, maybe, convert_expr, convert_maybe, convert_select, convert_select_items,
}
use tsqlremaker.Translate.Definition.{unqualified}
use tsqlremaker.Translate.Statement.{no_from_clause, convert_update, convert_delete, to_common_sql}

-- Expressions that hold a `!<` or a `!>`, a `~`, a hexadecimal literal or a test for TRUE or FALSE
-- below signs, NOT and operators, in one of the three places of BETWEEN, on a side of LIKE, on the
-- left of IN with values, or below IS NULL.
pub data Lost : Tsql.Expression → Type 0 where
  hex : (h : Text) (p : Span) → Lost (Tsql.Expression.literal (Tsql.Literal.hex h p))
  tilde :
      (e : Tsql.Expression) (p : Span)
      → Lost (Tsql.Expression.unary_op Tsql.UnaryOperator.tilde e p)
  not_lt :
      (l r : Tsql.Expression) (p : Span)
      → Lost (Tsql.Expression.binary_op l Tsql.BinaryOperator.not_lt r p)
  not_gt :
      (l r : Tsql.Expression) (p : Span)
      → Lost (Tsql.Expression.binary_op l Tsql.BinaryOperator.not_gt r p)
  is_true :
      (e : Tsql.Expression) (n : Bool) (p : Span)
      → Lost (Tsql.Expression.is e n Tsql.IsValue.true_value p)
  is_false :
      (e : Tsql.Expression) (n : Bool) (p : Span)
      → Lost (Tsql.Expression.is e n Tsql.IsValue.false_value p)
  under_sign :
      {e : Tsql.Expression} (op : Tsql.UnaryOperator) (p : Span)
      → Lost e
      → Lost (Tsql.Expression.unary_op op e p)
  on_left :
      {l : Tsql.Expression} (op : Tsql.BinaryOperator) (r : Tsql.Expression) (p : Span)
      → Lost l
      → Lost (Tsql.Expression.binary_op l op r p)
  on_right :
      {r : Tsql.Expression} (l : Tsql.Expression) (op : Tsql.BinaryOperator) (p : Span)
      → Lost r
      → Lost (Tsql.Expression.binary_op l op r p)
  compared_low :
      {l : Tsql.Expression} (e h : Tsql.Expression) (n : Bool) (p : Span)
      → Lost l
      → Lost (Tsql.Expression.between e l h n p)
  compared_high :
      {h : Tsql.Expression} (e l : Tsql.Expression) (n : Bool) (p : Span)
      → Lost h
      → Lost (Tsql.Expression.between e l h n p)
  between :
      {e : Tsql.Expression} (l h : Tsql.Expression) (n : Bool) (p : Span)
      → Lost e
      → Lost (Tsql.Expression.between e l h n p)
  like :
      {e : Tsql.Expression} (q : Tsql.Expression) (x : Tsql.MaybeExpression) (n : Bool) (p : Span)
      → Lost e
      → Lost (Tsql.Expression.like e q x n p)
  pattern :
      {q : Tsql.Expression} (e : Tsql.Expression) (x : Tsql.MaybeExpression) (n : Bool) (p : Span)
      → Lost q
      → Lost (Tsql.Expression.like e q x n p)
  in_values :
      {e : Tsql.Expression} (es : Tsql.Expressions) (n : Bool) (p : Span)
      → Lost e
      → Lost (Tsql.Expression.in_list e (Tsql.InList.values es) n p)
  is_null :
      {e : Tsql.Expression} (n : Bool) (p : Span)
      → Lost e
      → Lost (Tsql.Expression.is e n Tsql.IsValue.null p)

-- What `!<` and `!>` make of their operands.
abbrev lose : Expression → Expression → Option Expression
lose l r = none

module _ (parse_f64 : Text → Option Text) where
  -- A subexpression that is lost behind one that may be kept.
  second-Lost :
      (l r : Tsql.Expression) (f : Expression → Expression → Option Expression)
      → convert_expr parse_f64 r ≡ none
      → (convert_expr parse_f64 l >>= λ l'. convert_expr parse_f64 r >>= f l') ≡ none
  second-Lost l r f h = elim (Option-cases (convert_expr parse_f64 l)) [
    | inl n ↦ rw n refl
    | inr (l', q) ↦ rw q (rw h refl)
  ]

  -- Two subexpressions that an operator loses.
  operands-Lost :
      (l r : Tsql.Expression)
      → (convert_expr parse_f64 l >>= λ l'. convert_expr parse_f64 r >>= lose l') ≡ none
  operands-Lost l r = elim (Option-cases (convert_expr parse_f64 r)) [
    | inl n ↦ second-Lost l r _ n
    | inr (r', q) ↦ elim (Option-cases (convert_expr parse_f64 l)) [
      | inl n ↦ rw n refl
      | inr (l', q') ↦ rw q' (rw q refl)
    ]
  ]

  convert_expr-Lost : {e : Tsql.Expression} → Lost e → convert_expr parse_f64 e ≡ none
  unfolding convert_expr convert_literal convert_unary_op convert_binary_op convert_is
  convert_expr-Lost (hex h p) = refl
  convert_expr-Lost (tilde e p) = refl
  convert_expr-Lost (not_lt l r p) = operands-Lost l r
  convert_expr-Lost (not_gt l r p) = operands-Lost l r
  convert_expr-Lost (is_true e n p) = refl
  convert_expr-Lost (is_false e n p) = refl
  convert_expr-Lost (under_sign op p h) = elim (Option-cases (convert_unary_op op)) [
    | inl n ↦ rw n refl
    | inr (o, q) ↦ rw q (rw (convert_expr-Lost h) refl)
  ]
  convert_expr-Lost (on_left op r p h) = rw (convert_expr-Lost h) refl
  convert_expr-Lost (on_right {r} l op p h) = second-Lost l r _ (convert_expr-Lost h)
  convert_expr-Lost (compared_low {l} e h n p lost) = second-Lost e l _ (convert_expr-Lost lost)
  convert_expr-Lost (compared_high {h} e l n p lost) =
      elim (Option-cases (convert_expr parse_f64 e)) [
        | inl n ↦ rw n refl
        | inr (e', q) ↦ rw q (second-Lost l h _ (convert_expr-Lost lost))
      ]
  convert_expr-Lost (between l h n p lost) = rw (convert_expr-Lost lost) refl
  convert_expr-Lost (like q x n p h) = rw (convert_expr-Lost h) refl
  convert_expr-Lost (pattern {q} e x n p h) = second-Lost e q _ (convert_expr-Lost h)
  convert_expr-Lost (in_values es n p h) = rw (convert_expr-Lost h) refl
  convert_expr-Lost (is_null n p h) = rw (convert_expr-Lost h) refl

  convert_maybe-Lost :
      {e : Tsql.Expression}
      → Lost e
      → convert_maybe parse_f64 (Tsql.MaybeExpression.an_expression e)
        ≡ MaybeExpression.no_expression
  unfolding convert_expr maybe
  convert_maybe-Lost h = rw (convert_expr-Lost h) refl

  convert_select-Lost :
      {e : Tsql.Expression} (p : Span) (d : Bool) (top : Tsql.MaybeExpression)
      (columns : Tsql.SelectItems) (from : Tsql.MaybeFrom) (groups : Tsql.Expressions)
      (having : Tsql.MaybeExpression) (order : Tsql.OrderByItems) (limit : Tsql.MaybeLimit)
      → Lost e
      → convert_select parse_f64 (
          Tsql.SelectStatement.select_statement p d top columns from
            (Tsql.MaybeExpression.an_expression e)
            groups
            having
            order
            limit)
        ≡ none
  unfolding convert_expr
  convert_select-Lost p d top columns from groups having order limit h =
      elim (Option-cases (convert_select_items parse_f64 columns)) [
        | inl n ↦ rw n refl
        | inr (items, q) ↦ rw q (rw (convert_expr-Lost h) refl)
      ]

  module _ (debug : Statements.Statement → Text) where
    -- A condition that is lost is no error where rows are changed: a DELETE with it and without a FROM of
    -- its own is translated to one that deletes every row of the table, and an UPDATE to what it would be
    -- with no condition. A SELECT with it is not translated. Lost is a condition with a `!<`, a `!>`, a
    -- `~`, a hexadecimal literal or a test for TRUE or FALSE: as a whole, below signs, NOT and operators,
    -- in one of the three places of BETWEEN, on a side of LIKE, on the left of IN with values, or below
    -- IS NULL.
    pub to_common_sql-Lost :
        {e : Tsql.Expression} (del : Source.DeleteStatement) (upd : Source.UpdateStatement)
        (p : Span) (d : Bool) (top : Tsql.MaybeExpression) (columns : Tsql.SelectItems)
        (from : Tsql.MaybeFrom) (groups : Tsql.Expressions) (having : Tsql.MaybeExpression)
        (order : Tsql.OrderByItems) (limit : Tsql.MaybeLimit)
        → Lost e
        → del.from_clause ≡ Tsql.MaybeFrom.no_from
        → (to_common_sql parse_f64 debug (
              Statements.Statement.delete
                (record del { where_clause = Tsql.MaybeExpression.an_expression e }))
            ≡ some (
                Statement.delete (record {
                  table = TableFactor.table (unqualified del.table) none;
                  using = none;
                  where_clause = MaybeExpression.no_expression;
                })))
          × (to_common_sql parse_f64 debug (
                Statements.Statement.update
                  (record upd { where_clause = Tsql.MaybeExpression.an_expression e }))
              ≡ to_common_sql parse_f64 debug (
                  Statements.Statement.update
                    (record upd { where_clause = Tsql.MaybeExpression.no_expression })))
          × (to_common_sql parse_f64 debug (
                Statements.Statement.select (
                  Tsql.SelectStatement.select_statement p d top columns from
                    (Tsql.MaybeExpression.an_expression e)
                    groups
                    having
                    order
                    limit))
              ≡ none)
    unfolding to_common_sql convert_delete convert_update no_from_clause convert_expr
    to_common_sql-Lost del upd p d top columns from groups having order limit h e = (
      rw e (rw (convert_maybe-Lost h) refl),
      rw (convert_maybe-Lost h) refl,
      rw (convert_select-Lost p d top columns from groups having order limit h) refl,
    )
