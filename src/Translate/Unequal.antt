-- ===== src/Translate/Unequal.antt =====
-- What `<>` becomes, from the tokens to Common SQL (crates/tsql-parser/src/expression/mod.rs and
-- crates/tsql-parser/src/ast/to_common_sql.rs).
use tsqlremaker.Base.{
  ℕ, suc, ◌≤◌, ◌<◌, ◌≡◌, refl, List, [], ◌∷◌, ◌++◌, append-nil, Option, none, some, Text, arith,
}
use tsqlremaker.Token.Kind.{TokenKind}
use tsqlremaker.Lexer.Token.{Token}
use tsqlremaker.Parser.Error.{ok, err}
use tsqlremaker.Parser.Ast as Tsql
use tsqlremaker.Parser.Monad.{Outcome, out_of_fuel, panicked, done}
use tsqlremaker.Parser.Expression.Power.{comparison, strength, get_infix_binding_power}
use tsqlremaker.Parser.Expression.Pratt.{parse_expression}
use tsqlremaker.Parser.Expression.Grammar.{
  infix_operator, is_plain, IsInfix, Derives, binary, height, max,
}
use tsqlremaker.Parser.Expression.Grammar.RoundTrip.{parse_expression-Derives}
use tsqlremaker.Parser.Expression.Grammar.Followers.{Stops-nil}
use tsqlremaker.Common.Ast.{Expression, ComparisonOperator}
use tsqlremaker.Translate.Operators.{convert_binary_op}
use tsqlremaker.Translate.Expression.{convert_expr}
use tsqlremaker.Translate.Meaning.{Meaning, value, Means}
use tsqlremaker.Translate.Kept.{convert_expr-Means}

-- An expression that was parsed, in Common SQL.
abbrev pub translated : (Text → Option Text) → Outcome Tsql.Expression → Option Expression
translated parse_f64 out_of_fuel = none
translated parse_f64 panicked = none
translated parse_f64 (done (err e) s) = none
translated parse_f64 (done (ok e) s) = convert_expr parse_f64 e

IsInfix-ne_alt :
    (t : Token) → t.kind ≡ TokenKind.ne_alt → IsInfix t.kind comparison Tsql.BinaryOperator.ne_alt
unfolding get_infix_binding_power is_plain
IsInfix-ne_alt t k = infix_operator (simp k refl) refl

module _ {V : Type 0} (M : Meaning V) (parse_f64 : Text → Option Text)
    (to_uppercase : Text → Text) where
  -- `<>` is lost between the parser and Common SQL: where the grammar gives the tokens before and
  -- behind it an operand each, of a higher power and of one as high, which stand for the values `v`
  -- and `w`, the tokens are parsed and translated to what stands for `v = w`.
  pub translated-ne_alt :
      {p q : ℕ} {ls rs : List Token} {a b : Tsql.Expression} {v w : V} (t : Token)
      (a_derives : Derives p ls a) (b_derives : Derives q rs b) (m : ℕ)
      → t.kind ≡ TokenKind.ne_alt
      → strength comparison < p
      → strength comparison ≤ q
      → Means M a v
      → Means M b w
      → max (height a_derives) (suc (height b_derives)) < m
      → (e : Expression) × (translated parse_f64 (
            parse_expression to_uppercase
              (record { buffer = ls ++ (t ∷ rs); depth = 0; max_depth = m }))
          ≡ some e)
        × (value M e ≡ M.compared ComparisonOperator.eq v w)
  unfolding height convert_expr convert_binary_op value
  translated-ne_alt {ls} {rs} t da db m k l l' ma mb h =
      let whole = binary t (IsInfix-ne_alt t k) l l' da db in
      let read =
        parse_expression-Derives to_uppercase whole [] 0 m (Stops-nil 0) (omega (arith, h)) in
      let (a', qa, va) = convert_expr-Means M parse_f64 ma in
      let (b', qb, vb) = convert_expr-Means M parse_f64 mb in
      rw (rw (append-nil (ls ++ (t ∷ rs))) at read) (rw qa (rw qb (_, refl, rw va (rw vb refl))))
