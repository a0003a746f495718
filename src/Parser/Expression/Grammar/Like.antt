-- ===== src/Parser/Expression/Grammar/Like.antt =====
-- The pattern of LIKE (crates/tsql-parser/src/expression/special.rs, mod.rs).
use tsqlremaker.Base.{
  ℕ, suc, ◌*◌, ◌<◌, ◌≡◌, refl, List, ◌∷◌, ◌++◌, length-append, length, arith, Text, false, leb,
}
use tsqlremaker.Token.Kind.{TokenKind}
use tsqlremaker.Token.Tag.{is_kind}
use tsqlremaker.Lexer.Token.{Token}
use tsqlremaker.Parser.Error.{ok}
use tsqlremaker.Parser.Buffer.Refinement.{nth}
use tsqlremaker.Parser.Ast.{Expression, expression_span}
use tsqlremaker.Parser.Monad.{done, ◌>>=◌, consume, if_check, return, and_then, on_tokens}
use tsqlremaker.Parser.Expression.Power.{BindingPower, lowest, strength}
use tsqlremaker.Parser.Expression.Calls.{Calls}
use tsqlremaker.Parser.Expression.Pratt.{
  level, bp_body, bp_loop, check_depth, deeper, shallower, parse_expression,
}
use tsqlremaker.Parser.Expression.Grammar.{IsAtom, Stops, Derives, height}
use tsqlremaker.Parser.Expression.Grammar.Steps.{at, prefix-atom, loop-Stops}
use tsqlremaker.Parser.Ast.{like, no_expression}
use tsqlremaker.Parser.Expression.Special.{parse_like_expression}
use tsqlremaker.Parser.Expression.Pratt.{round, if_not_special}
use tsqlremaker.Parser.Expression.Grammar.RoundTrip.{Reads-parse_bp, Derives-Reads, height-length}

abbrev pub like_expression : Expression → Expression → Expression
like_expression l r =
    like l r no_expression false
      (record { start = (expression_span l).start; end = (expression_span r).end })

module _ (upper : Text → Text) (calls : Calls) where
  loop-like :
      (n : ℕ) (min_bp : BindingPower) (left : Expression) (t : Token) (ts : List Token) (d m : ℕ)
      → t.kind ≡ TokenKind.like
      → bp_loop upper calls (suc n) min_bp left (at (t ∷ ts) d m)
        ≡ and_then
            (parse_like_expression calls left false (at ts d m))
            (bp_loop upper calls n min_bp)
  unfolding bp_loop round if_not_special ◌>>=◌ if_check consume is_kind
  loop-like n min_bp left t ts d m k = simp k refl

  like-no_escape :
      (left right : Expression) (ts rest : List Token) (d m : ℕ)
      → calls.parse_bp lowest (at ts d m) ≡ done (ok right) (at rest d m)
      → is_kind (nth 0 rest).kind TokenKind.escape ≡ false
      → parse_like_expression calls left false (at ts d m)
        ≡ done (ok (like_expression left right)) (at rest d m)
  unfolding parse_like_expression ◌>>=◌ if_check return
  like-no_escape left right ts rest d m h k = rw h (rw k refl)

-- LIKE takes as its pattern all that the tokens behind it stand for, an AND or an OR at its top
-- included: behind a literal `l`, `l LIKE x AND y` is `l LIKE (x AND y)`. Where no ESCAPE follows and
-- the limit on the depth is above the nesting of the pattern, `parse` returns that expression.
pub parse_expression-like :
    {p : ℕ} {ts : List Token} {l r : Expression} (to_uppercase : Text → Text) (first t : Token)
    (derivation : Derives p ts r) (rest : List Token) (m : ℕ)
    → IsAtom first l
    → t.kind ≡ TokenKind.like
    → Stops 0 rest
    → is_kind (nth 0 rest).kind TokenKind.escape ≡ false
    → suc (height derivation) < m
    → parse_expression to_uppercase
        (record { buffer = first ∷ (t ∷ (ts ++ rest)); depth = 0; max_depth = m })
      ≡ done (ok (like_expression l r)) (record { buffer = rest; depth = 0; max_depth = m })
unfolding parse_expression strength level bp_body check_depth deeper ◌>>=◌ return shallower
    on_tokens
parse_expression-like {ts} {l} {r} upper first t der rest m a k s k' h =
    let f = 2 * length (first ∷ (t ∷ (ts ++ rest))) in
    let room : leb m 0 ≡ false = ground arith in
    let deep = height-length der in
    let right =
      Reads-parse_bp upper ts r f lowest rest 1 m (Derives-Reads upper der) (omega arith) s
        (omega (arith, length-append ts rest)) (omega arith) in
    rw room (
      rw (prefix-atom upper (level upper f) (t ∷ (ts ++ rest)) 1 m a) (
        rw
          (loop-like upper (level upper f) (suc (length (ts ++ rest))) lowest l t (ts ++ rest) 1 m
            k)
          (rw (like-no_escape upper (level upper f) l r (ts ++ rest) rest 1 m right k') (
            rw
              (loop-Stops upper (level upper f) (length (ts ++ rest)) lowest (like_expression l r) 1
                m s (omega arith))
              refl))))
