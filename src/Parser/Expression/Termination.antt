-- ===== src/Parser/Expression/Termination.antt =====
-- `ExpressionParser::parse` comes to an end (crates/tsql-parser/src/expression/mod.rs).
use tsqlremaker.Base.{ℕ, ◌-◌, ◌≤◌, ◌<◌, ◌≡◌, subst, List, [], ◌∷◌, length, arith, Text}
use tsqlremaker.Lexer.Token.{Token}
use tsqlremaker.Parser.Error.{ok}
use tsqlremaker.Parser.Ast.{Expression}
use tsqlremaker.Parser.Monad.{
  ExpressionParser, Outcome, out_of_fuel, done, ◌>>=◌, current, unexpected, fail, return,
}
use tsqlremaker.Parser.Expression.Power.{lowest}
use tsqlremaker.Parser.Expression.Pratt.{
  parse_expression, level, fuel_for, bp_body, check_depth, deeper,
}
use tsqlremaker.Parser.Expression.Prefix.{
  parse_prefix, prefix_at, operand_at, can_keyword_be_identifier, primary_at,
}
use tsqlremaker.Parser.Expression.Fuel.{Runs, panics, fails, returns}
use tsqlremaker.Parser.Expression.Fuel.Levels.{level-Enough}

parse_expression-Runs :
    (to_uppercase : Text → Text) (s : ExpressionParser)
    → Runs (length s.buffer - 1) s.depth s.max_depth (parse_expression to_uppercase s)
unfolding parse_expression
parse_expression-Runs upper s =
    ((level-Enough upper (fuel_for s)).parse_bp-Bounded (length s.buffer) lowest (omega arith)).run
      s (omega arith)

Runs-out_of_fuel : {A : Type 0} {n d m : ℕ} {o : Outcome A} → Runs n d m o → ¬ (o ≡ out_of_fuel)
Runs-out_of_fuel panics e = cc
Runs-out_of_fuel fails e = cc
Runs-out_of_fuel (returns l h h') e = cc

-- Whatever the tokens, the depth and the limit, and whatever `str::to_uppercase` returns, the fuel of
-- twice the tokens in the buffer and one more does not run out: `parse` comes to an expression, to an
-- error or to the panic of a slice.
pub parse_expression-out_of_fuel :
    (to_uppercase : Text → Text) (s : ExpressionParser)
    → ¬ (parse_expression to_uppercase s ≡ out_of_fuel)
parse_expression-out_of_fuel upper s = Runs-out_of_fuel (parse_expression-Runs upper s)

Runs-done :
    {A : Type 0} {n d m : ℕ} {o : Outcome A} {a : A} {s : ExpressionParser}
    → Runs n d m o
    → o ≡ done (ok a) s
    → (length s.buffer ≤ n) × (s.depth ≡ d) × (s.max_depth ≡ m)
Runs-done panics e = absurd cc
Runs-done fails e = absurd cc
Runs-done {n} {d} {m} {s} (returns {s = s'} l h h') e =
    let p : s' ≡ s = cc in
    subst (λ x. (length x.buffer ≤ n) × (x.depth ≡ d) × (x.max_depth ≡ m)) p (l, h, h')

-- Without a token there is an error.
parse_expression-empty :
    (upper : Text → Text) (b : List Token) (d m : ℕ) (e : Expression) (s : ExpressionParser)
    → parse_expression upper (record { buffer = b; depth = d; max_depth = m }) ≡ done (ok e) s
    → 1 ≤ length b
unfolding parse_expression level bp_body check_depth deeper parse_prefix ◌>>=◌ current prefix_at
    operand_at can_keyword_be_identifier primary_at unexpected fail return
parse_expression-empty upper [] d m e s h = ground arith
parse_expression-empty upper (t ∷ b) d m e s h = omega arith

-- Where `parse` returns an expression, it has taken a token of the buffer at least, and the depth and
-- its limit are what they were.
pub parse_expression-done :
    (to_uppercase : Text → Text) (s : ExpressionParser) {e : Expression} {s' : ExpressionParser}
    → parse_expression to_uppercase s ≡ done (ok e) s'
    → (length s'.buffer < length s.buffer) × (s'.depth ≡ s.depth) × (s'.max_depth ≡ s.max_depth)
parse_expression-done upper s {e} {s'} h =
    let (l, d, m) = Runs-done (parse_expression-Runs upper s) h in
    let p = parse_expression-empty upper s.buffer s.depth s.max_depth e s' h in (omega arith, d, m)
