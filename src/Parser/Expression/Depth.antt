-- ===== src/Parser/Expression/Depth.antt =====
-- The limit on the depth of expressions (crates/tsql-parser/src/expression/mod.rs).
use tsqlremaker.Base.{
  ℕ, zero, suc, ◌+◌, ◌≤◌, ◌<◌, ◌≡◌, List, ◌∷◌, length, arith, Text, true, Bool-cases, inl, inr, leb,
}
use tsqlremaker.Token.Kind.{TokenKind}
use tsqlremaker.Token.Tag.{is_kind}
use tsqlremaker.Lexer.Token.{Token}
use tsqlremaker.Parser.Error.{err, recursion_limit_exceeded}
use tsqlremaker.Parser.Monad.{
  ExpressionParser, Outcome, done, Parser, ◌>>=◌, current, consume, if_check, fail, return,
  and_then,
}
use tsqlremaker.Parser.Expression.Power.{BindingPower, lowest}
use tsqlremaker.Parser.Expression.Pratt.{
  parse_expression, level, fuel_for, bp_body, check_depth, deeper,
}
use tsqlremaker.Parser.Expression.Prefix.{parse_prefix, prefix_at, take_parens}

-- The tokens start with `k` opening parentheses.
pub data Opens : ℕ → List Token → Type 0 where
  no_opens : {ts : List Token} → Opens zero ts
  one_more :
      {k : ℕ} {t : Token} {ts : List Token}
      → t.kind ≡ TokenKind.lparen
      → Opens k ts
      → Opens (suc k) (t ∷ ts)

-- The call ended in the error of the limit `m`.
pub data ExceedsLimit {A : Type 0} (m : ℕ) : Outcome A → Type 0 where
  exceeds :
      {s : ExpressionParser} {p : _} → ExceedsLimit m (done (err (recursion_limit_exceeded m p)) s)

and_then-ExceedsLimit :
    {A B : Type 0} {m : ℕ} {o : Outcome B} (f : B → Parser A)
    → ExceedsLimit m o
    → ExceedsLimit m (and_then o f)
and_then-ExceedsLimit f exceeds = exceeds

module _ (upper : Text → Text) where
  body-ExceedsLimit :
      (f k : ℕ) (power : BindingPower) (b : List Token) (d m : ℕ)
      → k < f
      → m ≤ d + k
      → Opens (suc k) b
      → ExceedsLimit m
          ((level upper f).parse_bp power (record { buffer = b; depth = d; max_depth = m }))
  unfolding level bp_body check_depth deeper ◌>>=◌ return fail parse_prefix current prefix_at
      take_parens consume if_check is_kind
  body-ExceedsLimit zero k power b d m l h o = absurd (omega arith)
  body-ExceedsLimit (suc f) zero power b d m l h o =
      let too_deep : leb m d ≡ true = ground arith in rw too_deep exceeds
  body-ExceedsLimit (suc f) (suc k) power _ d m l h (one_more {t} e (one_more {t = t'} {ts} e' o)) =
      elim (Bool-cases (leb m d)) [
        | inl too_deep ↦ rw too_deep exceeds
        | inr room ↦
            let deep =
              body-ExceedsLimit f k lowest (t' ∷ ts) (d + 1) m (omega arith) (omega arith)
                (one_more e' o) in
            rw room (simp e (simp e' (and_then-ExceedsLimit _ (and_then-ExceedsLimit _ deep))))
      ]

Opens-length : {k : ℕ} {ts : List Token} → Opens k ts → k ≤ length ts
Opens-length no_opens = omega arith
Opens-length (one_more e o) = let l = Opens-length o in omega arith

-- Where the buffer starts with more opening parentheses than the depth has left below its limit,
-- `parse` ends in the error of that limit, whatever follows them.
pub parse_expression-ExceedsLimit :
    (to_uppercase : Text → Text) (s : ExpressionParser) (k : ℕ)
    → Opens (suc k) s.buffer
    → s.max_depth ≤ s.depth + k
    → ExceedsLimit s.max_depth (parse_expression to_uppercase s)
unfolding parse_expression
parse_expression-ExceedsLimit upper s k o l =
    let n = Opens-length o in
    body-ExceedsLimit upper (fuel_for s) k lowest s.buffer s.depth s.max_depth (omega arith) l o
