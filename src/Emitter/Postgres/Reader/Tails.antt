-- ===== src/Emitter/Postgres/Reader/Tails.antt =====
-- What the reader does with an operation, a sign, NOT, IS NULL, IN and BETWEEN, each from what the
-- readers that it calls answer (crates/postgresql-emitter/src/mappers/expression.rs).
use tsqlremaker.Base.{ℕ, suc, ◌≡◌, refl, Bool, true, false, ◌∷◌, ◌++◌, Option, some, Text, codes}
use tsqlremaker.Common.Ast.{UnaryOperator, Literal, Expression, Expressions, InList, GroupByItem}
use tsqlremaker.Common.Operators.{SqlOperator, joined}
use tsqlremaker.Emitter.Reserved.{reserved_words}
use tsqlremaker.Emitter.Quoting.Reading.{missed_words}
use tsqlremaker.Emitter.Quoting.{is_ascii_lowercase, contains}
use tsqlremaker.Emitter.Postgres.Words.{emit_literal, emit_unary_op}
use tsqlremaker.Emitter.Postgres.Expression.{emit, not_word, neg_word}
use tsqlremaker.Emitter.Postgres.Reader.{
  strip, starts_word, Reading, fits, read_joined, tight, tail, read_range, read_among, read_tight,
  read_any, read_values,
}
use tsqlremaker.Emitter.Postgres.Reader.Words.{stops, is_stop}
use tsqlremaker.Emitter.Postgres.Reader.Clear.{Tight}
use tsqlremaker.Emitter.Postgres.Reader.Steps.{symbol, read_operator_lem}
use tsqlremaker.Emitter.Postgres.Reader.Atoms.{no_not}

pub read_joined-steps :
    (any : Reading) (o : SqlOperator) (l r : Expression) (left right rest : Text)
    → fits o l r ≡ true
    → any (left ++ (b' ' ∷ (symbol o ++ (b' ' ∷ (right ++ (b')' ∷ rest))))))
      ≡ some (l, b' ' ∷ (symbol o ++ (b' ' ∷ (right ++ (b')' ∷ rest)))))
    → any (right ++ (b')' ∷ rest)) ≡ some (r, b')' ∷ rest)
    → read_joined any (left ++ (b' ' ∷ (symbol o ++ (b' ' ∷ (right ++ (b')' ∷ rest))))))
      ≡ some (joined o l r, rest)
unfolding strip
read_joined-steps any o l r left right rest fit h k =
    rw (h, read_operator_lem o (right ++ (b')' ∷ rest)), k, fit) refl

pub read_range-steps :
    (operand : Reading) (e l h : Expression) (negated : Bool) (low high rest : Text)
    → operand (low ++ (codes " AND " ++ (high ++ rest))) ≡ some (l, codes " AND " ++ (high ++ rest))
    → operand (high ++ rest) ≡ some (h, rest)
    → read_range operand e negated (low ++ (codes " AND " ++ (high ++ rest)))
      ≡ some (Expression.between e l h negated, rest)
unfolding strip
read_range-steps operand e l h negated low high rest p q = rw (p, q) refl

pub read_among-steps :
    (values : Text → Option (Expressions × Text)) (e : Expression) (es : Expressions)
    (negated : Bool) (text rest : Text)
    → values (text ++ (b')' ∷ rest)) ≡ some (es, b')' ∷ rest)
    → read_among values e negated (text ++ (b')' ∷ rest))
      ≡ some (Expression.in_list e (InList.values es) negated, rest)
unfolding strip
read_among-steps values e es negated text rest h = rw h refl

module _ (operand : Reading) (values : Text → Option (Expressions × Text)) where
  pub tail-is_null :
      (e : Expression) (negated : Bool) (rest : Text)
      → tail operand values e (codes " IS " ++ (not_word negated ++ (codes "NULL" ++ rest)))
        ≡ some (Expression.is_null e negated, rest)
  unfolding tail strip
  tail-is_null e false rest = refl
  tail-is_null e true rest = refl

  pub tail-between :
      (e : Expression) (negated : Bool) (text : Text) (found : Expression × Text)
      → read_range operand e negated text ≡ some found
      → tail operand values e (b' ' ∷ (not_word negated ++ (codes "BETWEEN " ++ text))) ≡ some found
  unfolding tail strip
  tail-between e false text found h = rw h refl
  tail-between e true text found h = rw h refl

  pub tail-in_list :
      (e : Expression) (negated : Bool) (text : Text) (found : Expression × Text)
      → read_among values e negated text ≡ some found
      → tail operand values e (neg_word negated ++ (codes " IN (" ++ text)) ≡ some found
  unfolding tail strip
  tail-in_list e false text found h = rw h refl
  tail-in_list e true text found h = rw h refl

pub space_stops : (s : Text) → stops (b' ' ∷ s) ≡ true
unfolding stops is_stop
space_stops s = refl

pub neg_stops :
    (negated : Bool) (s : Text) → stops (neg_word negated ++ (codes " IN (" ++ s)) ≡ true
unfolding stops is_stop
neg_stops false s = refl
neg_stops true s = refl

module _ (is_reserved : Text → Bool) where
  pub read_last :
      (f : ℕ) (e : Expression) (text rest : Text)
      → read_any is_reserved f (text ++ (b')' ∷ rest)) ≡ some (e, b')' ∷ rest)
      → read_values is_reserved (suc f) (text ++ (b')' ∷ rest))
        ≡ some (Expressions.expression_then e Expressions.no_expressions, b')' ∷ rest)
  unfolding read_values strip
  read_last f e text rest h = rw h refl

  pub read_more :
      (f : ℕ) (e : Expression) (es : Expressions) (text more rest : Text)
      → read_any is_reserved f (text ++ (codes ", " ++ (more ++ (b')' ∷ rest))))
        ≡ some (e, codes ", " ++ (more ++ (b')' ∷ rest)))
      → read_values is_reserved f (more ++ (b')' ∷ rest)) ≡ some (es, b')' ∷ rest)
      → read_values is_reserved (suc f) (text ++ (codes ", " ++ (more ++ (b')' ∷ rest))))
        ≡ some (Expressions.expression_then e es, b')' ∷ rest)
  unfolding read_values strip
  read_more f e es text more rest h k = rw (h, k) refl

module _ (upper : Text → Text) (debug : GroupByItem → Text) (is_reserved : Text → Bool)
    (listed : (s : Text)
      → is_reserved s ≡ true
      → contains missed_words s ≡ false
      → contains reserved_words (upper s) ≡ true) where
  pub read_constant :
      (operand any : Reading) (b : Bool) (rest : Text)
      → tight is_reserved operand any
          (emit upper debug (Expression.literal (Literal.boolean b)) ++ rest)
        ≡ some (Expression.literal (Literal.boolean b), rest)
  unfolding emit emit_literal tight strip starts_word is_ascii_lowercase
  read_constant operand any false rest = refl
  read_constant operand any true rest = refl

  pub read_null :
      (operand any : Reading) (rest : Text)
      → tight is_reserved operand any (emit upper debug (Expression.literal Literal.null) ++ rest)
        ≡ some (Expression.literal Literal.null, rest)
  unfolding emit emit_literal tight strip starts_word is_ascii_lowercase
  read_null operand any rest = refl

  pub read_plus :
      (operand any : Reading) (e : Expression) (text rest : Text)
      → operand text ≡ some (e, rest)
      → tight is_reserved operand any (emit_unary_op UnaryOperator.plus ++ (b' ' ∷ text))
        ≡ some (Expression.unary_op UnaryOperator.plus e, rest)
  unfolding tight strip starts_word is_ascii_lowercase emit_unary_op
  read_plus operand any e text rest h = rw h refl

  pub read_minus :
      (operand any : Reading) (e : Expression) (text rest : Text)
      → operand text ≡ some (e, rest)
      → tight is_reserved operand any (emit_unary_op UnaryOperator.minus ++ (b' ' ∷ text))
        ≡ some (Expression.unary_op UnaryOperator.minus e, rest)
  unfolding tight strip starts_word is_ascii_lowercase emit_unary_op
  read_minus operand any e text rest h = rw h refl

  pub read_parens :
      (operand any : Reading) (text : Text)
      → tight is_reserved operand any (b'(' ∷ text) ≡ read_joined any text
  unfolding tight starts_word is_ascii_lowercase
  read_parens operand any text = refl

  -- Behind a tight text, `read_any` goes on with what follows it.
  pub read_any-tail :
      {e : Expression} (d : Tight e) (f : ℕ) (rest : Text)
      → read_tight is_reserved f (emit upper debug e ++ rest) ≡ some (e, rest)
      → read_any is_reserved (suc f) (emit upper debug e ++ rest)
        ≡ tail (read_tight is_reserved f) (read_values is_reserved f) e rest
  unfolding read_any
  read_any-tail d f rest h = rw (no_not upper debug is_reserved listed d rest, h) refl

  pub read_not :
      (f : ℕ) (e : Expression) (text rest : Text)
      → read_any is_reserved f text ≡ some (e, rest)
      → read_any is_reserved (suc f) (emit_unary_op UnaryOperator.not ++ (b' ' ∷ text))
        ≡ some (Expression.unary_op UnaryOperator.not e, rest)
  unfolding read_any strip emit_unary_op
  read_not f e text rest h = rw h refl
