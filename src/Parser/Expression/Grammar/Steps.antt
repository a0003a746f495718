-- ===== src/Parser/Expression/Grammar/Steps.antt =====
-- One step of `parse_bp` at each construct of the grammar
-- (crates/tsql-parser/src/expression/mod.rs, prefix.rs).
use tsqlremaker.Base.{
  ℕ, suc, ◌≤◌, ◌≡◌, refl, List, [], ◌∷◌, drop, arith, Text, true, false, Bool-cases, inl, inr, ltb,
  Option, none, some,
}
use tsqlremaker.Token.Kind.{TokenKind}
use tsqlremaker.Token.Tag.{is_kind}
use tsqlremaker.Token.Tag.Equality.{is_kind_iff}
use tsqlremaker.Lexer.Token.{Token}
use tsqlremaker.Parser.Error.{ok, err}
use tsqlremaker.Parser.Buffer.Refinement.{nth}
use tsqlremaker.Parser.Ast.{
  Expression, BinaryOperator, binary_op, expression_span, UnaryOperator, unary_op,
}
use tsqlremaker.Parser.Monad.{
  ExpressionParser, Outcome, out_of_fuel, panicked, done, Parser, ◌>>=◌, ◌>>◌, current, consume,
  if_check, return, and_then, expect,
}
use tsqlremaker.Parser.Expression.Power.{
  BindingPower, lowest, unary, strength, get_infix_binding_power, span_for_binary,
}
use tsqlremaker.Parser.Expression.Calls.{Calls}
use tsqlremaker.Parser.Expression.Pratt.{bp_loop, round, infix_at, if_not_special, extend}
use tsqlremaker.Parser.Expression.Prefix.{
  parse_prefix, prefix_at, take_parens, operand_at, can_keyword_be_identifier, primary_at,
}
use tsqlremaker.Parser.Expression.Grammar.{
  IsAtom, number, float, hex, null, IsPrefix, plus, minus, tilde, not, IsInfix, infix_operator,
  is_below, is_plain, Stops,
}

abbrev pub at : List Token → ℕ → ℕ → ExpressionParser
at ts d m = record { buffer = ts; depth = d; max_depth = m }

-- An infix operator is no other kind of token.
pub infix-other :
    {x : BindingPower × BinaryOperator} (k j : TokenKind)
    → get_infix_binding_power k ≡ some x
    → get_infix_binding_power j ≡ none
    → is_kind k j ≡ false
infix-other k j e e' = elim (Bool-cases (is_kind k j)) [
  | inl same ↦ let p : k ≡ j = (is_kind_iff k j).0 same in absurd cc
  | inr other ↦ other
]

and_then-return :
    {A B C : Type 0} (o : Outcome A) (g : A → B) (f : B → Parser C)
    → and_then (and_then o λ a. return (g a)) f ≡ and_then o λ a. f (g a)
unfolding return
and_then-return out_of_fuel g f = refl
and_then-return panicked g f = refl
and_then-return (done (ok a) s) g f = refl
and_then-return (done (err e) s) g f = refl

pub and_then_assoc :
    {A B C : Type 0} (o : Outcome A) (g : A → Parser B) (f : B → Parser C)
    → and_then (and_then o g) f ≡ and_then o λ a s. and_then (g a s) f
and_then_assoc out_of_fuel g f = refl
and_then_assoc panicked g f = refl
and_then_assoc (done (ok a) s) g f = refl
and_then_assoc (done (err e) s) g f = refl

pub prefix-other :
    {op : UnaryOperator} (k : TokenKind) → IsPrefix k op → is_kind k TokenKind.select ≡ false
unfolding is_kind
prefix-other _ plus = refl
prefix-other _ minus = refl
prefix-other _ tilde = refl
prefix-other _ not = refl

module _ (upper : Text → Text) (calls : Calls) where
  pub prefix-atom :
      {t : Token} {e : Expression} (rest : List Token) (d m : ℕ)
      → IsAtom t e
      → parse_prefix upper calls (at (t ∷ rest) d m) ≡ done (ok e) (at rest d m)
  unfolding parse_prefix ◌>>=◌ current prefix_at operand_at can_keyword_be_identifier primary_at
      consume return
  prefix-atom rest d m (number k) = simp k refl
  prefix-atom rest d m (float k) = simp k refl
  prefix-atom rest d m (hex k) = simp k refl
  prefix-atom rest d m (null k) = simp k refl

  infix_at-below :
      {w : ℕ} (o : Option (BindingPower × BinaryOperator)) (min_bp : BindingPower)
      (left : Expression) (again : Expression → Parser Expression) (s : ExpressionParser)
      → is_below w o ≡ true
      → w ≤ strength min_bp
      → infix_at upper calls o min_bp left again s ≡ done (ok left) s
  unfolding infix_at is_below return
  infix_at-below none min_bp left again s e l = refl
  infix_at-below (some (p, op)) min_bp left again s e l = ground arith

  -- The loop ends at tokens that do not go on with the expression.
  pub loop-Stops :
      {w : ℕ} {rest : List Token} (n : ℕ) (min_bp : BindingPower) (left : Expression) (d m : ℕ)
      → Stops w rest
      → w ≤ strength min_bp
      → bp_loop upper calls (suc n) min_bp left (at rest d m) ≡ done (ok left) (at rest d m)
  unfolding bp_loop round if_not_special ◌>>=◌ if_check current
  loop-Stops {w} {rest} n min_bp left d m stops l = rw stops.no_not_special (
      rw stops.no_is (
        rw stops.no_like (
          infix_at-below (get_infix_binding_power (nth 0 rest).kind) min_bp left _ (at rest d m)
            stops.no_infix l)))

  extend-plain :
      (power : BindingPower) (op : BinaryOperator) (left : Expression) (s : ExpressionParser)
      → is_plain op ≡ true
      → extend upper calls power op left s
        ≡ and_then (calls.parse_bp power (record s { buffer = drop 1 s.buffer })) λ right.
          return (
            binary_op left op right
              (span_for_binary (expression_span left) (expression_span right)))
  unfolding extend is_plain ◌>>=◌ consume
  extend-plain power BinaryOperator.between left s e = absurd cc
  extend-plain power BinaryOperator.in_kw left s e = absurd cc
  extend-plain power _ left s e = refl

  -- A round at an infix operator.
  pub loop-infix :
      {w : BindingPower} {op : BinaryOperator} (t : Token) (rest : List Token) (n : ℕ)
      (min_bp : BindingPower) (left : Expression) (d m : ℕ)
      → IsInfix t.kind w op
      → strength min_bp ≤ strength w
      → bp_loop upper calls (suc n) min_bp left (at (t ∷ rest) d m)
        ≡ and_then (calls.parse_bp w (at rest d m)) λ right.
          bp_loop upper calls n min_bp (
            binary_op left op right
              (span_for_binary (expression_span left) (expression_span right)))
  unfolding bp_loop round if_not_special ◌>>=◌ if_check current infix_at get_infix_binding_power
  loop-infix {w} {op} t rest n min_bp left d m (infix_operator e plain) l =
      let strong : ltb (strength w) (strength min_bp) ≡ false = ground arith in
      rw (infix-other t.kind TokenKind.not e refl) (
        rw (infix-other t.kind TokenKind.is e refl) (
          rw (infix-other t.kind TokenKind.like e refl) (
            rw e (
              rw strong (
                rw (extend-plain w op left (at (t ∷ rest) d m) plain)
                  (and_then-return (calls.parse_bp w (at rest d m)) _ _))))))

  prefix_at-unary :
      (kind : TokenKind) (t : Token) {op : UnaryOperator} (rest : List Token) (d m : ℕ)
      → IsPrefix kind op
      → prefix_at upper calls kind t (at (t ∷ rest) d m)
        ≡ and_then (calls.parse_bp unary (at rest d m)) λ e. return (unary_op op e t.span)
  unfolding prefix_at consume ◌>>=◌
  prefix_at-unary _ t rest d m plus = refl
  prefix_at-unary _ t rest d m minus = refl
  prefix_at-unary _ t rest d m tilde = refl
  prefix_at-unary _ t rest d m not = refl

  pub prefix-unary :
      (t : Token) {op : UnaryOperator} (rest : List Token) (d m : ℕ)
      → IsPrefix t.kind op
      → parse_prefix upper calls (at (t ∷ rest) d m)
        ≡ and_then (calls.parse_bp unary (at rest d m)) λ e. return (unary_op op e t.span)
  unfolding parse_prefix ◌>>=◌ current prefix_at consume
  prefix-unary t rest d m k = prefix_at-unary t.kind t rest d m k

  pub prefix-parens :
      (t : Token) (t' : Token) (rest : List Token) (d m : ℕ)
      → t.kind ≡ TokenKind.lparen
      → is_kind t'.kind TokenKind.select ≡ false
      → parse_prefix upper calls (at (t ∷ (t' ∷ rest)) d m)
        ≡ and_then
            (calls.parse_bp lowest (at (t' ∷ rest) d m))
            λ e. expect (TokenKind.rparen ∷ []) TokenKind.rparen >> return e
  unfolding parse_prefix ◌>>=◌ current prefix_at consume take_parens if_check
  prefix-parens t t' rest d m k k' = simp k (rw k' refl)
