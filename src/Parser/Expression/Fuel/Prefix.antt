-- ===== src/Parser/Expression/Fuel/Prefix.antt =====
-- Prefix operators and primary expressions, on enough fuel.
use tsqlremaker.Base.{
  ℕ, zero, suc, ◌+◌, ◌-◌, ◌*◌, ◌≤◌, ◌<◌, true, false, List, [], ◌∷◌, length, arith, Text, codes,
  text_eq,
}
use tsqlremaker.Token.Kind.{TokenKind}
use tsqlremaker.Token.Position.{Span}
use tsqlremaker.Lexer.Token.{Token}
use tsqlremaker.Parser.Ast.{Literal, UnaryOperator}
use tsqlremaker.Parser.Monad.{◌>>=◌, fail, current, unexpected}
use tsqlremaker.Parser.Expression.Power.{lowest}
use tsqlremaker.Parser.Expression.Calls.{Calls, inner}
use tsqlremaker.Parser.Expression.Fuel.{
  Runs, fails, Bounded, return-Bounded, unexpected-Bounded, sliced-Bounded, if_check-Bounded_any,
  bind-Bounded, if-Bounded, expect-Bounded,
}
use tsqlremaker.Parser.Expression.Fuel.Parts.{
  Enough, take-Bounded, current_then-Bounded, parse_then-Bounded, parse_identifier_tail-Bounded,
}
use tsqlremaker.Parser.Expression.Fuel.Special.{case-Bounded, exists-Bounded}
use tsqlremaker.Parser.Ast.{literal, subquery, unary_op}
use tsqlremaker.Parser.Expression.Power.{unary}
use tsqlremaker.Parser.Expression.Prefix.{
  take_name, primary_at, take_literal, take_string, take_unary, take_parens, operand_at,
  can_keyword_be_identifier, prefix_at, parse_prefix,
}

take_literal-Bounded :
    {n : ℕ} (make : Text → Span → Literal) (t : Token) → Bounded n (n - 1) (take_literal make t)
take_literal-Bounded make t =
    take-Bounded λ _. return-Bounded (literal (make t.text t.span)) (omega arith)

take_string-Bounded : {n : ℕ} (first : ℕ) (t : Token) → Bounded n (n - 1) (take_string first t)
take_string-Bounded first t =
    bind-Bounded (sliced-Bounded (inner first t.text))
      λ value. take-Bounded λ _. return-Bounded _ (omega arith)

module _ {f : ℕ} (upper : Text → Text) {calls : Calls} (enough : Enough f calls) where
  take_name-Bounded :
      {n : ℕ} (t : Token) → 2 * (n - 1) < f → Bounded n (n - 1) (take_name upper calls t)
  unfolding take_name
  take_name-Bounded t l = take-Bounded λ _.
      if-Bounded (text_eq (upper t.text) (codes "TRUE"))
        (return-Bounded (literal (Literal.boolean true t.span)) (omega arith))
        (if-Bounded (text_eq (upper t.text) (codes "FALSE"))
          (return-Bounded (literal (Literal.boolean false t.span)) (omega arith))
          (parse_identifier_tail-Bounded enough _ l))

  -- Whatever the kind, a primary expression takes a token.
  primary_at-Bounded :
      {n : ℕ} (kind : TokenKind) (t : Token)
      → 2 * (n - 1) < f
      → Bounded n (n - 1) (primary_at upper calls kind t)
  unfolding primary_at
  primary_at-Bounded TokenKind.string t l = take_string-Bounded 1 t
  primary_at-Bounded TokenKind.nstring t l = take_string-Bounded 2 t
  primary_at-Bounded TokenKind.number t l = take_literal-Bounded Literal.number t
  primary_at-Bounded TokenKind.float_literal t l = take_literal-Bounded Literal.float t
  primary_at-Bounded TokenKind.hex_string t l = take_literal-Bounded Literal.hex t
  primary_at-Bounded TokenKind.null t l =
      take-Bounded λ _. return-Bounded (literal (Literal.null t.span)) (omega arith)
  primary_at-Bounded TokenKind.ident t l = take_name-Bounded t l
  primary_at-Bounded TokenKind.local_var t l = take_name-Bounded t l
  primary_at-Bounded TokenKind.global_var t l = take_name-Bounded t l
  primary_at-Bounded TokenKind.temp_table t l = take_name-Bounded t l
  primary_at-Bounded TokenKind.global_temp_table t l = take_name-Bounded t l
  primary_at-Bounded TokenKind.quoted_ident t l =
      bind-Bounded (sliced-Bounded (inner 1 t.text))
        λ name. take-Bounded λ _. parse_identifier_tail-Bounded enough _ l
  primary_at-Bounded _ t l =
      unexpected-Bounded
        (TokenKind.string ∷ TokenKind.number ∷ TokenKind.ident ∷ TokenKind.lparen ∷ [])

  operand_at-Bounded :
      {n : ℕ} (kind : TokenKind) (t : Token)
      → 2 * (n - 1) < f
      → Bounded n (n - 1) (operand_at upper calls kind t)
  unfolding operand_at
  operand_at-Bounded kind t l =
      if-Bounded (can_keyword_be_identifier kind)
        (take-Bounded λ _. parse_identifier_tail-Bounded enough _ l) (primary_at-Bounded kind t l)

  take_unary-Bounded :
      {n : ℕ} (op : UnaryOperator) (t : Token)
      → 2 * (n - 1) < f
      → Bounded n (n - 1) (take_unary upper calls op t)
  take_unary-Bounded op t l = take-Bounded λ _.
      parse_then-Bounded enough unary l λ e. return-Bounded (unary_op op e t.span) (omega arith)

  take_parens-Bounded : {n : ℕ} → 2 * (n - 1) + 1 < f → Bounded n (n - 1) (take_parens upper calls)
  unfolding take_parens
  take_parens-Bounded {n} l = take-Bounded λ _.
      if_check-Bounded_any TokenKind.select
        (bind-Bounded (enough.parse_subquery_select-Bounded (n - 1) l) λ query.
          bind-Bounded (expect-Bounded (TokenKind.rparen ∷ []) TokenKind.rparen)
            λ _. return-Bounded (subquery query) (omega arith))
        (parse_then-Bounded enough lowest (omega arith) λ expr.
          bind-Bounded (expect-Bounded (TokenKind.rparen ∷ []) TokenKind.rparen)
            λ _. return-Bounded expr (omega arith))

  prefix_at-Bounded :
      {n : ℕ} (kind : TokenKind) (t : Token)
      → 2 * (n - 1) + 1 < f
      → Bounded n (n - 1) (prefix_at upper calls kind t)
  unfolding prefix_at
  prefix_at-Bounded TokenKind.plus t l = take_unary-Bounded UnaryOperator.plus t (omega arith)
  prefix_at-Bounded TokenKind.minus t l = take_unary-Bounded UnaryOperator.minus t (omega arith)
  prefix_at-Bounded TokenKind.tilde t l = take_unary-Bounded UnaryOperator.tilde t (omega arith)
  prefix_at-Bounded TokenKind.not t l = take_unary-Bounded UnaryOperator.not t (omega arith)
  prefix_at-Bounded TokenKind.lparen t l = take_parens-Bounded l
  prefix_at-Bounded TokenKind.case t l = case-Bounded enough (omega arith)
  prefix_at-Bounded TokenKind.exists t l = exists-Bounded enough l
  prefix_at-Bounded kind t l = operand_at-Bounded kind t (omega arith)

  -- Without a token there is no expression.
  parse_prefix-empty :
      (b : List Token) (d m : ℕ)
      → length b ≤ 0
      → Runs 0 d m (parse_prefix upper calls (record { buffer = b; depth = d; max_depth = m }))
  unfolding parse_prefix ◌>>=◌ current prefix_at operand_at can_keyword_be_identifier primary_at
      unexpected fail
  parse_prefix-empty [] d m l = fails
  parse_prefix-empty (t ∷ b) d m l = absurd (omega arith)

  pub parse_prefix-Bounded : (n : ℕ) → 2 * n ≤ f → Bounded n (n - 1) (parse_prefix upper calls)
  unfolding parse_prefix
  parse_prefix-Bounded zero l = record {
    run = λ s h. parse_prefix-empty s.buffer s.depth s.max_depth h;
  }
  parse_prefix-Bounded (suc n) l =
      current_then-Bounded λ t. prefix_at-Bounded t.kind t (omega arith)
