-- ===== src/Parser/Expression/Fuel/Parts.antt =====
-- The parts of the expression parser, where the calls back into it have fuel for the tokens at hand.
use tsqlremaker.Base.{
  ℕ, zero, suc, ◌+◌, ◌-◌, ◌*◌, ◌≤◌, ◌<◌, refl, true, false, [], ◌∷◌, none, some, arith, Text, codes,
  text_eq, ◌++◌,
}
use tsqlremaker.Token.Kind.{TokenKind}
use tsqlremaker.Token.Tag.{is_kind}
use tsqlremaker.Token.Position.{Position}
use tsqlremaker.Lexer.Token.{Token}
use tsqlremaker.Parser.Error.{invalid_syntax}
use tsqlremaker.Parser.Ast.{Identifier, Expression, IsValue, arg_then, identifier}
use tsqlremaker.Parser.Monad.{Parser, ◌>>=◌, ◌>>◌, return, consume, current, if_check, if_consumed}
use tsqlremaker.Parser.Expression.Power.{BindingPower, lowest}
use tsqlremaker.Parser.Expression.Calls.{Calls, inner}
use tsqlremaker.Parser.Expression.Function.{
  column_name, star_arg, parse_function_arg, parse_args, parse_function_call, parse_identifier_tail,
}
use tsqlremaker.Parser.Expression.Subquery.{take_identifier, parse_optional_alias}
use tsqlremaker.Parser.Expression.Special.{is_value, parse_is_expression}
use tsqlremaker.Parser.Expression.Fuel.{
  Bounded, weaken, return-Bounded, fail-Bounded, current-Bounded, consume-Bounded, sliced-Bounded,
  if_check-Bounded_any, bind-Bounded, if-Bounded, if_consumed-Bounded, expect-Bounded,
  on_tokens-Bounded,
}

-- With fuel `f` the calls come to answers on fewer tokens than half of it; an expression takes a token.
pub record Enough (f : ℕ) (calls : Calls) : Type 0 where
  pub parse_bp-Bounded :
      (n : ℕ) (power : BindingPower) → 2 * n < f → Bounded n (n - 1) (calls.parse_bp power)
  pub parse_subquery_select-Bounded :
      (n : ℕ) → 2 * n + 1 < f → Bounded n n calls.parse_subquery_select

-- A token taken, and what follows on fewer tokens.
pub take-Bounded :
    {A : Type 0} {n k : ℕ} {p : Token → Parser A}
    → ((t : Token) → Bounded (n - 1) k (p t))
    → Bounded n k (consume >>= p)
take-Bounded h = bind-Bounded consume-Bounded h

pub current_then-Bounded :
    {A : Type 0} {n k : ℕ} {p : Token → Parser A}
    → ((t : Token) → Bounded n k (p t))
    → Bounded n k (current >>= p)
current_then-Bounded h = bind-Bounded current-Bounded h

pub option_token-Bounded :
    {A : Type 0} {n : ℕ} (kind : TokenKind) (a b : A)
    → Bounded n n (if_check kind (consume >> return a) (return b))
option_token-Bounded kind a b =
    if_check-Bounded_any kind (take-Bounded λ t. return-Bounded a (omega arith))
      (return-Bounded b (omega arith))

pub take_identifier-Bounded : {n : ℕ} → Bounded n n take_identifier
take_identifier-Bounded = current_then-Bounded λ t. take-Bounded λ _. return-Bounded _ (omega arith)

pub parse_optional_alias-Bounded : {n : ℕ} → Bounded n n parse_optional_alias
unfolding parse_optional_alias
parse_optional_alias-Bounded {n} =
    let name : Bounded n n (take_identifier >>= λ i. return (some i)) =
      bind-Bounded take_identifier-Bounded λ i. return-Bounded (some i) (omega arith) in
    if_check-Bounded_any TokenKind.as_kw
      (take-Bounded λ t. weaken n n (omega arith) (omega arith) name)
      (if_check-Bounded_any TokenKind.ident name (return-Bounded none (omega arith)))

pub keep-Bounded :
    {A : Type 0} {n k : ℕ} {p : Token → Parser A}
    → ((t : Token) → Bounded n k (p t))
    → Bounded n k (consume >>= p)
keep-Bounded {A} {n} h = bind-Bounded (weaken n n (omega arith) (omega arith) consume-Bounded) h

is_value-Bounded :
    {n : ℕ} (word : Text) (position : Position) → Bounded n n (is_value word position)
unfolding is_value
is_value-Bounded word position =
    if-Bounded (text_eq word (codes "TRUE")) (return-Bounded IsValue.true_value (omega arith)) (
      if-Bounded (text_eq word (codes "FALSE")) (return-Bounded IsValue.false_value (omega arith)) (
        if-Bounded (text_eq word (codes "UNKNOWN")) (return-Bounded IsValue.unknown (omega arith)) (
          fail-Bounded (
            invalid_syntax
              (codes "Expected NULL, TRUE, FALSE, or UNKNOWN after IS, found '"
                ++ (word ++ codes "'"))
              position))))

pub parse_is_expression-Bounded :
    {n : ℕ} (upper : Text → Text) (left : Expression)
    → Bounded n (n - 1) (parse_is_expression upper left)
unfolding parse_is_expression
parse_is_expression-Bounded {n} upper left = take-Bounded λ _.
    bind-Bounded (option_token-Bounded TokenKind.not true false) λ negated.
      bind-Bounded {j = n - 1}
        (if_check-Bounded_any TokenKind.null (keep-Bounded λ _. return-Bounded _ (omega arith))
          (current_then-Bounded λ t. keep-Bounded λ _. is_value-Bounded (upper t.text) t.position))
        λ value. current_then-Bounded λ last. return-Bounded _ (omega arith)

-- The parts that call back, on `n` tokens.
module _ {f : ℕ} {calls : Calls} (enough : Enough f calls) where
  pub expression-Bounded :
      {n : ℕ} {power : BindingPower} → 2 * n < f → Bounded n n (calls.parse_bp power)
  expression-Bounded {n} {power} l =
      weaken n n (omega arith) (omega arith) (enough.parse_bp-Bounded n power l)

  -- An expression, and what follows it.
  pub parse_then-Bounded :
      {A : Type 0} {n k : ℕ} (power : BindingPower) {p : Expression → Parser A}
      → 2 * n < f
      → ((e : Expression) → Bounded n k (p e))
      → Bounded n k (calls.parse_bp power >>= p)
  parse_then-Bounded power l h = bind-Bounded (expression-Bounded l) h

  parse_function_arg-Bounded : {n : ℕ} → 2 * n < f → Bounded n n (parse_function_arg calls)
  unfolding parse_function_arg
  parse_function_arg-Bounded l =
      if_check-Bounded_any TokenKind.star (keep-Bounded λ _. return-Bounded _ (omega arith)) (
        parse_then-Bounded lowest l λ e.
          if_check-Bounded_any TokenKind.dot
            (keep-Bounded λ _.
              if_check-Bounded_any TokenKind.star
                (keep-Bounded λ _. return-Bounded (star_arg e) (omega arith))
                (return-Bounded _ (omega arith)))
            (return-Bounded _ (omega arith)))

  pub comma-Bounded :
      {A : Type 0} {n r : ℕ} {x y : Parser A}
      → n ≤ r
      → ((j : ℕ) → j < r → j ≤ n → Bounded j j x)
      → Bounded n n y
      → Bounded n n (if_consumed TokenKind.comma x y)
  unfolding is_kind
  comma-Bounded {n} l bx b =
      if_consumed-Bounded TokenKind.comma refl
        (λ p. weaken (n - 1) n (omega arith) (omega arith) (bx (n - 1) (omega arith) (omega arith)))
        b

  parse_args-Bounded : (r n : ℕ) → n < r → 2 * n < f → Bounded n n (parse_args calls r)
  unfolding parse_args
  parse_args-Bounded zero n l h = absurd (omega arith)
  parse_args-Bounded (suc r) n l h =
      if_check-Bounded_any TokenKind.rparen (return-Bounded _ (omega arith)) (
        if_check-Bounded_any TokenKind.eof (return-Bounded _ (omega arith)) (
          bind-Bounded (parse_function_arg-Bounded h) λ arg.
            bind-Bounded
              (comma-Bounded {r = r} (omega arith)
                (λ j m m'. parse_args-Bounded r j m (omega arith)) (return-Bounded _ (omega arith)))
              λ rest. return-Bounded (arg_then arg rest) (omega arith)))

  parse_function_call-Bounded :
      {n : ℕ} (name : Identifier) → 2 * n < f → Bounded n n (parse_function_call calls name)
  unfolding parse_function_call
  parse_function_call-Bounded {n} name l = keep-Bounded λ _.
      bind-Bounded (option_token-Bounded TokenKind.distinct true false) λ distinct.
        bind-Bounded (on_tokens-Bounded λ r j m m'. parse_args-Bounded r j m (omega arith)) λ args.
          current_then-Bounded λ last.
            bind-Bounded (expect-Bounded (TokenKind.rparen ∷ TokenKind.comma ∷ []) TokenKind.rparen)
              λ _. return-Bounded _ (omega arith)

  pub parse_identifier_tail-Bounded :
      {n : ℕ} (ident : Identifier) → 2 * n < f → Bounded n n (parse_identifier_tail calls ident)
  unfolding parse_identifier_tail column_name
  parse_identifier_tail-Bounded {n} ident l =
      if_check-Bounded_any TokenKind.dot
        (keep-Bounded λ _. current_then-Bounded λ next.
          bind-Bounded
            (if-Bounded (is_kind next.kind TokenKind.quoted_ident)
              (sliced-Bounded (inner 1 next.text)) (return-Bounded next.text (omega arith)))
            λ name. keep-Bounded λ _. return-Bounded _ (omega arith))
        (if_check-Bounded_any TokenKind.lparen (parse_function_call-Bounded ident l)
          (return-Bounded (identifier ident) (omega arith)))
