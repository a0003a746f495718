-- ===== src/Parser/Expression/Grammar/Followers.antt =====
-- Tokens that do not go on with an expression (crates/tsql-parser/src/expression/mod.rs).
use tsqlremaker.Base.{ℕ, ◌≤◌, ◌<◌, ◌≡◌, refl, List, [], ◌∷◌, arith, true, Option, none, some}
use tsqlremaker.Token.Kind.{TokenKind}
use tsqlremaker.Token.Tag.{is_kind}
use tsqlremaker.Lexer.Token.{Token}
use tsqlremaker.Parser.Buffer.Refinement.{nth}
use tsqlremaker.Parser.Ast.{BinaryOperator}
use tsqlremaker.Parser.Expression.Power.{BindingPower, strength, get_infix_binding_power}
use tsqlremaker.Parser.Expression.Grammar.{IsInfix, infix_operator, is_below, Stops}
use tsqlremaker.Parser.Expression.Grammar.Steps.{infix-other}

is_below_mono :
    {w p : ℕ} (o : Option (BindingPower × BinaryOperator))
    → w ≤ p
    → is_below w o ≡ true
    → is_below p o ≡ true
unfolding is_below
is_below_mono none l e = refl
is_below_mono (some (q, op)) l e = ground arith

pub Stops-weaken : {w p : ℕ} {rest : List Token} → w ≤ p → Stops w rest → Stops p rest
Stops-weaken {rest} l s = record {
  no_infix = is_below_mono (get_infix_binding_power (nth 0 rest).kind) l s.no_infix;
  no_is = s.no_is;
  no_like = s.no_like;
  no_not_special = s.no_not_special;
}

pub Stops-rparen :
    (w : ℕ) (c : Token) (rest : List Token) → c.kind ≡ TokenKind.rparen → Stops w (c ∷ rest)
unfolding get_infix_binding_power is_kind is_below
Stops-rparen w c rest k = record {
  no_infix = simp k refl;
  no_is = simp k refl;
  no_like = simp k refl;
  no_not_special = simp k refl;
}

pub Stops-infix :
    {p : ℕ} {w : BindingPower} {op : BinaryOperator} (t : Token) (rest : List Token)
    → IsInfix t.kind w op
    → strength w < p
    → Stops p (t ∷ rest)
unfolding get_infix_binding_power is_below
Stops-infix t rest (infix_operator e plain) l = record {
  no_infix = rw e (ground arith);
  no_is = infix-other t.kind TokenKind.is e refl;
  no_like = infix-other t.kind TokenKind.like e refl;
  no_not_special = rw (infix-other t.kind TokenKind.not e refl) refl;
}

pub Stops-nil : (w : ℕ) → Stops w []
unfolding get_infix_binding_power is_kind is_below
Stops-nil w = record { no_infix = refl; no_is = refl; no_like = refl; no_not_special = refl }
