-- ===== src/Parser/Expression/Fuel/Levels.antt =====
-- `parse_bp` on enough fuel: the rounds, the depth, and the induction on the fuel.
use tsqlremaker.Base.{
  ℕ, zero, suc, ◌+◌, ◌-◌, ◌*◌, ◌≤◌, ◌<◌, ◌≡◌, refl, ◌∙◌, false, Bool-cases, inl, inr, List, [], ◌∷◌,
  length, Option, none, some, arith, if_intro, Text, ltb, leb,
}
use tsqlremaker.Token.Kind.{TokenKind}
use tsqlremaker.Token.Tag.{is_kind}
use tsqlremaker.Lexer.Token.{Token}
use tsqlremaker.Parser.Ast.{Expression, BinaryOperator}
use tsqlremaker.Parser.Monad.{
  ExpressionParser, Parser, ◌>>=◌, ◌>>◌, return, fail, current, if_check,
}
use tsqlremaker.Parser.Expression.Power.{BindingPower, strength, get_infix_binding_power}
use tsqlremaker.Parser.Expression.Calls.{Calls}
use tsqlremaker.Parser.Expression.Pratt.{
  check_depth, deeper, shallower, if_not_special, extend, infix_at, round, bp_loop, bp_body, level,
}
use tsqlremaker.Parser.Expression.Fuel.{
  Runs, fails, returns, Bounded, weaken, return-Bounded, if_check-Bounded_any, bind-Bounded,
  on_tokens-Bounded, if-Bounded, depth_then-Runs,
}
use tsqlremaker.Parser.Expression.Fuel.Parts.{
  Enough, take-Bounded, current_then-Bounded, parse_then-Bounded, parse_is_expression-Bounded,
}
use tsqlremaker.Parser.Expression.Fuel.Special.{
  in-Bounded, between-Bounded, like-Bounded, not_special-Bounded,
}
use tsqlremaker.Parser.Expression.Fuel.Select.{parse_select-Bounded}
use tsqlremaker.Parser.Expression.Fuel.Prefix.{parse_prefix-Bounded}

module _ {f : ℕ} (upper : Text → Text) {calls : Calls} (enough : Enough f calls) where
  extend-Bounded :
      {n : ℕ} (power : BindingPower) (op : BinaryOperator) (left : Expression)
      → 2 * (n - 1) < f
      → Bounded n (n - 1) (extend upper calls power op left)
  unfolding extend
  extend-Bounded power BinaryOperator.between left l =
      take-Bounded λ _. between-Bounded enough left false l
  extend-Bounded power BinaryOperator.in_kw left l =
      take-Bounded λ _. in-Bounded enough left false l
  extend-Bounded power op left l =
      take-Bounded λ _. parse_then-Bounded enough power l λ right. return-Bounded _ (omega arith)

  module _ {n : ℕ} (l : 2 * (n - 1) < f) {again : Expression → Parser Expression}
      (again-Bounded : (e : Expression) → Bounded (n - 1) n (again e)) where
    infix_at-Bounded :
        (o : Option (BindingPower × BinaryOperator)) (min_bp : BindingPower) (left : Expression)
        → Bounded n n (infix_at upper calls o min_bp left again)
    unfolding infix_at
    infix_at-Bounded none min_bp left = return-Bounded left (omega arith)
    infix_at-Bounded (some (power, op)) min_bp left =
        if-Bounded (ltb (strength power) (strength min_bp)) (return-Bounded left (omega arith))
          (bind-Bounded (extend-Bounded power op left (omega arith)) again-Bounded)

    if_not_special-Bounded :
        {x y : Parser Expression} → Bounded n n x → Bounded n n y → Bounded n n (if_not_special x y)
    unfolding if_not_special
    if_not_special-Bounded bx b = record {
      run = λ s h. if_intro (Runs n s.depth s.max_depth) _ (bx.run s h) (b.run s h);
    }

    round-Bounded :
        (min_bp : BindingPower) (left : Expression)
        → Bounded n n (round upper calls min_bp left again)
    unfolding round
    round-Bounded min_bp left =
        if_not_special-Bounded
          (bind-Bounded (not_special-Bounded enough left (omega arith)) again-Bounded)
          (if_check-Bounded_any TokenKind.is
            (bind-Bounded (parse_is_expression-Bounded upper left) again-Bounded)
            (if_check-Bounded_any TokenKind.like
              (bind-Bounded (take-Bounded λ _. like-Bounded enough left false (omega arith))
                again-Bounded)
              (current_then-Bounded
                λ t. infix_at-Bounded (get_infix_binding_power t.kind) min_bp left)))

  -- Without a token the loop ends.
  round-empty :
      (again : Expression → Parser Expression) (min_bp : BindingPower) (left : Expression)
      (b : List Token) (d m : ℕ)
      → length b ≤ 0
      → Runs 0 d m
          (round upper calls min_bp left again (record { buffer = b; depth = d; max_depth = m }))
  unfolding round if_not_special if_check current ◌>>=◌ infix_at get_infix_binding_power is_kind
      return
  round-empty again min_bp left [] d m l = returns l refl refl
  round-empty again min_bp left (t ∷ b) d m l = absurd (omega arith)

  bp_loop-Bounded :
      (r n : ℕ) (min_bp : BindingPower) (left : Expression)
      → n < r
      → 2 * n ≤ f
      → Bounded n n (bp_loop upper calls r min_bp left)
  unfolding bp_loop
  bp_loop-Bounded zero n min_bp left h l = absurd (omega arith)
  bp_loop-Bounded (suc r) zero min_bp left h l = record {
    run = λ s h'. round-empty _ min_bp left s.buffer s.depth s.max_depth h';
  }
  bp_loop-Bounded (suc r) (suc n) min_bp left h l =
      round-Bounded (omega arith)
        (λ e.
          weaken (suc n - 1) (suc n) (omega arith) (omega arith)
            (bp_loop-Bounded r (suc n - 1) min_bp e (omega arith) (omega arith)))
        min_bp left

  -- The depth goes back by one.
  shallower-Runs :
      {n d m : ℕ} (e : Expression) (s : ExpressionParser)
      → length s.buffer ≤ n
      → s.depth ≡ d + 1
      → s.max_depth ≡ m
      → Runs n d m ((shallower >> return e) s)
  unfolding shallower return ◌>>=◌
  shallower-Runs e s l h h' = returns l (omega arith) h'

  pub bp_body-Bounded :
      (n : ℕ) (min_bp : BindingPower) → 2 * n ≤ f → Bounded n (n - 1) (bp_body upper calls min_bp)
  unfolding bp_body check_depth deeper fail return ◌>>=◌
  bp_body-Bounded n min_bp l = record {
    run = λ s h. elim (Bool-cases (leb s.max_depth s.depth)) [
      | inl too_deep ↦ rw too_deep fails
      | inr room ↦ rw room (
          depth_then-Runs
            ((parse_prefix-Bounded upper enough n l).run (record s { depth = s.depth + 1 }) h)
            λ left s1 l1 e1 e1'.
              depth_then-Runs
                ((on_tokens-Bounded {n = n - 1}
                    λ r j m m'. bp_loop-Bounded r j min_bp left m (omega arith)).run
                  s1 l1)
                λ result s2 l2 e2 e2'. shallower-Runs result s2 l2 (e2 ∙ e1) (e2' ∙ e1'))
    ];
  }

-- Fuel for twice the tokens and one more is enough.
pub level-Enough : (upper : Text → Text) (f : ℕ) → Enough f (level upper f)
unfolding level
level-Enough upper zero = record {
  parse_bp-Bounded = λ n power l. absurd (omega arith);
  parse_subquery_select-Bounded = λ n l. absurd (omega arith);
}
level-Enough upper (suc f) = record {
  parse_bp-Bounded =
      λ n power l. bp_body-Bounded upper (level-Enough upper f) n power (omega arith);
  parse_subquery_select-Bounded = λ n l.
      weaken n n (omega arith) (omega arith)
        (parse_select-Bounded (level-Enough upper f) n (omega arith));
}
