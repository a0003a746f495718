-- ===== src/Parser/Expression/Grammar.antt =====
-- A grammar of operator expressions, which says what `parse_bp` is to return
-- (crates/tsql-parser/src/expression): literals, parentheses, prefix and infix operators.
pub mod Steps
pub mod Followers
pub mod RoundTrip
pub mod Like
use tsqlremaker.Base.{
  ℕ, zero, suc, ◌+◌, ◌≤◌, ◌<◌, ◌≡◌, Bool, true, false, ◌&&◌, ltb, leb, List, [], ◌∷◌, ◌++◌, length,
  Option, none, some, if◌then◌else◌, arith,
}
use tsqlremaker.Token.Kind.{TokenKind}
use tsqlremaker.Token.Tag.{is_kind}
use tsqlremaker.Lexer.Token.{Token}
use tsqlremaker.Parser.Buffer.Refinement.{nth}
use tsqlremaker.Parser.Ast.{
  Expression, expression_span, literal, Literal, unary_op, UnaryOperator, binary_op, BinaryOperator,
}
use tsqlremaker.Parser.Expression.Power.{
  BindingPower, strength, get_infix_binding_power, span_for_binary,
}
use tsqlremaker.Parser.Expression.Pratt.{is_special}

-- The literals that are one token, with its text as it is.
pub data IsAtom (t : Token) : Expression → Type 0 where
  number : t.kind ≡ TokenKind.number → IsAtom t (literal (Literal.number t.text t.span))
  float : t.kind ≡ TokenKind.float_literal → IsAtom t (literal (Literal.float t.text t.span))
  hex : t.kind ≡ TokenKind.hex_string → IsAtom t (literal (Literal.hex t.text t.span))
  null : t.kind ≡ TokenKind.null → IsAtom t (literal (Literal.null t.span))

pub data IsPrefix : TokenKind → UnaryOperator → Type 0 where
  plus : IsPrefix TokenKind.plus UnaryOperator.plus
  minus : IsPrefix TokenKind.minus UnaryOperator.minus
  tilde : IsPrefix TokenKind.tilde UnaryOperator.tilde
  not : IsPrefix TokenKind.not UnaryOperator.not

-- IN and BETWEEN have more behind them than an expression.
unfoldable pub is_plain : BinaryOperator → Bool
is_plain BinaryOperator.in_kw = false
is_plain BinaryOperator.between = false
is_plain _ = true

-- An infix operator with an expression on both sides, and its power.
pub data IsInfix (kind : TokenKind) : BindingPower → BinaryOperator → Type 0 where
  infix_operator :
      {w : BindingPower} {op : BinaryOperator}
      → get_infix_binding_power kind ≡ some (w, op)
      → is_plain op ≡ true
      → IsInfix kind w op

-- `Derives p ts e`: the tokens `ts` stand for `e`, whose power is `p`: 8 for an operand, 7 for one
-- behind a prefix operator, and below an infix operator's own. What stands left of an infix operator
-- has a higher power than it, what stands right of it one that is as high or higher.
pub data Derives : ℕ → List Token → Expression → Type 0 where
  atom : {t : Token} {e : Expression} → IsAtom t e → Derives 8 (t ∷ []) e
  parens :
      {p : ℕ} {ts : List Token} {e : Expression} (o c : Token)
      → o.kind ≡ TokenKind.lparen
      → c.kind ≡ TokenKind.rparen
      → Derives p ts e
      → Derives 8 (o ∷ (ts ++ (c ∷ []))) e
  prefixed :
      {p : ℕ} {ts : List Token} {e : Expression} {op : UnaryOperator} (t : Token)
      → IsPrefix t.kind op
      → 7 ≤ p
      → Derives p ts e
      → Derives 7 (t ∷ ts) (unary_op op e t.span)
  binary :
      {p q : ℕ} {ls rs : List Token} {l r : Expression} {w : BindingPower} {op : BinaryOperator}
      (t : Token)
      → IsInfix t.kind w op
      → strength w < p
      → strength w ≤ q
      → Derives p ls l
      → Derives q rs r
      → Derives
          (strength w)
          (ls ++ (t ∷ rs))
          (binary_op l op r (span_for_binary (expression_span l) (expression_span r)))

abbrev pub max : ℕ → ℕ → ℕ
max a b = if leb a b then b else a

-- How many calls of `parse_bp` stand inside each other, the first not counted.
unfoldable pub height : {p : ℕ} {ts : List Token} {e : Expression} → Derives p ts e → ℕ
height (atom a) = 0
height (parens o c k k' d) = suc (height d)
height (prefixed t k l d) = suc (height d)
height (binary t k l l' d d') = max (height d) (suc (height d'))

-- No infix operator of the power `w` or a higher one.
unfoldable pub is_below : ℕ → Option (BindingPower × BinaryOperator) → Bool
is_below w none = true
is_below w (some (p, op)) = ltb (strength p) w

-- The tokens behind an expression of the power `w` do not go on with it.
pub record Stops (w : ℕ) (rest : List Token) : Type 0 where
  pub no_infix : is_below w (get_infix_binding_power (nth 0 rest).kind) ≡ true
  pub no_is : is_kind (nth 0 rest).kind TokenKind.is ≡ false
  pub no_like : is_kind (nth 0 rest).kind TokenKind.like ≡ false
  pub no_not_special :
      (is_kind (nth 0 rest).kind TokenKind.not && is_special (nth 1 rest).kind) ≡ false
