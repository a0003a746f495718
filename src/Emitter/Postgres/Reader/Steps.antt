-- ===== src/Emitter/Postgres/Reader/Steps.antt =====
-- What each step of the reader does on the text that the PostgreSQL emitter writes
-- (crates/postgresql-emitter/src/mappers/expression.rs).
use tsqlremaker.Base.{
  ℕ, ◌≡◌, refl, Bool, true, false, List, [], ◌∷◌, ◌++◌, append_assoc, Option, some, Text,
  is_ascii_digit, arith,
}
use tsqlremaker.Common.Ast.{
  BinaryOperator, LogicalOperator, ComparisonOperator, Expression, Expressions,
}
use tsqlremaker.Common.Operators.{SqlOperator, arithmetic, compares, connects}
use tsqlremaker.Emitter.Quoting.{is_ascii_lowercase}
use tsqlremaker.Emitter.Quoting.Bytes.{false-true}
use tsqlremaker.Emitter.Postgres.Words.{format, emit_binary_op, emit_comparison_op, emit_logical_op}
use tsqlremaker.Emitter.Postgres.Reader.{
  strip, operators, read_operator, starts_word, Reading, an_integer, read_nat, read_reference,
  tight, tail,
}
use tsqlremaker.Emitter.Postgres.Reader.Words.{begins, is_stop, stops, is_name_start}

-- The parts of a text before `rest`.
abbrev pub onto : List Text → Text → Text
onto [] rest = rest
onto (part ∷ parts) rest = part ++ onto parts rest

pub format-onto : (parts : List Text) (rest : Text) → format parts ++ rest ≡ onto parts rest
format-onto [] rest = refl
format-onto (part ∷ parts) rest =
    rw (append_assoc part (format parts) rest, format-onto parts rest) refl

unfoldable pub symbol : SqlOperator → Text
symbol (arithmetic op) = emit_binary_op op
symbol (compares op) = emit_comparison_op op
symbol (connects op) = emit_logical_op op

-- What may stand behind an expression as the emitter writes it.
pub data Ends : Text → Type 0 where
  no_more : Ends []
  a_close : (s : Text) → Ends (b')' ∷ s)
  a_comma : (s : Text) → Ends (b',' ∷ s)
  an_operator : (o : SqlOperator) (s : Text) → Ends (b' ' ∷ (symbol o ++ (b' ' ∷ s)))

pub Ends-stops : {s : Text} → Ends s → stops s ≡ true
unfolding stops is_stop
Ends-stops no_more = refl
Ends-stops (a_close s) = refl
Ends-stops (a_comma s) = refl
Ends-stops (an_operator o s) = refl

pub read_operator_lem :
    (o : SqlOperator) (s : Text)
    → read_operator operators (b' ' ∷ (symbol o ++ (b' ' ∷ s))) ≡ some (o, s)
unfolding read_operator symbol emit_binary_op emit_comparison_op emit_logical_op strip
read_operator_lem (arithmetic BinaryOperator.add) s = refl
read_operator_lem (arithmetic BinaryOperator.sub) s = refl
read_operator_lem (arithmetic BinaryOperator.mul) s = refl
read_operator_lem (arithmetic BinaryOperator.div) s = refl
read_operator_lem (arithmetic BinaryOperator.modulo) s = refl
read_operator_lem (arithmetic BinaryOperator.concat) s = refl
read_operator_lem (compares ComparisonOperator.eq) s = refl
read_operator_lem (compares ComparisonOperator.ne) s = refl
read_operator_lem (compares ComparisonOperator.lt) s = refl
read_operator_lem (compares ComparisonOperator.le) s = refl
read_operator_lem (compares ComparisonOperator.gt) s = refl
read_operator_lem (compares ComparisonOperator.ge) s = refl
read_operator_lem (compares ComparisonOperator.like) s = refl
read_operator_lem (compares ComparisonOperator.not_like) s = refl
read_operator_lem (compares ComparisonOperator.ilike) s = refl
read_operator_lem (compares ComparisonOperator.not_ilike) s = refl
read_operator_lem (connects LogicalOperator.and) s = refl
read_operator_lem (connects LogicalOperator.or) s = refl

module _ (operand : Reading) (values : Text → Option (Expressions × Text)) where
  operator-tail :
      (e : Expression) (o : SqlOperator) (s : Text)
      → tail operand values e (b' ' ∷ (symbol o ++ (b' ' ∷ s)))
        ≡ some (e, b' ' ∷ (symbol o ++ (b' ' ∷ s)))
  unfolding tail strip symbol emit_binary_op emit_comparison_op emit_logical_op
  operator-tail e (arithmetic BinaryOperator.add) s = refl
  operator-tail e (arithmetic BinaryOperator.sub) s = refl
  operator-tail e (arithmetic BinaryOperator.mul) s = refl
  operator-tail e (arithmetic BinaryOperator.div) s = refl
  operator-tail e (arithmetic BinaryOperator.modulo) s = refl
  operator-tail e (arithmetic BinaryOperator.concat) s = refl
  operator-tail e (compares ComparisonOperator.eq) s = refl
  operator-tail e (compares ComparisonOperator.ne) s = refl
  operator-tail e (compares ComparisonOperator.lt) s = refl
  operator-tail e (compares ComparisonOperator.le) s = refl
  operator-tail e (compares ComparisonOperator.gt) s = refl
  operator-tail e (compares ComparisonOperator.ge) s = refl
  operator-tail e (compares ComparisonOperator.like) s = refl
  operator-tail e (compares ComparisonOperator.not_like) s = refl
  operator-tail e (compares ComparisonOperator.ilike) s = refl
  operator-tail e (compares ComparisonOperator.not_ilike) s = refl
  operator-tail e (connects LogicalOperator.and) s = refl
  operator-tail e (connects LogicalOperator.or) s = refl

  -- No IS NULL, IN or BETWEEN follows.
  pub tail-Ends : (e : Expression) {s : Text} → Ends s → tail operand values e s ≡ some (e, s)
  unfolding tail strip
  tail-Ends e no_more = refl
  tail-Ends e (a_close s) = refl
  tail-Ends e (a_comma s) = refl
  tail-Ends e (an_operator o s) = operator-tail e o s

start_no_digit : (c : ℕ) → is_name_start c ≡ true → is_ascii_digit c ≡ false
unfolding is_name_start starts_word is_ascii_lowercase
start_no_digit c h = ground arith

module _ (is_reserved : Text → Bool) (operand any : Reading) where
  pub tight-digits :
      (s : Text)
      → begins is_ascii_digit s ≡ true
      → tight is_reserved operand any s ≡ an_integer (read_nat 0 s)
  unfolding tight begins
  tight-digits [] h = absurd (false-true h)
  tight-digits (c ∷ s) h = rw h refl

  pub tight-name :
      (s : Text)
      → begins is_name_start s ≡ true
      → tight is_reserved operand any s ≡ read_reference is_reserved s
  unfolding tight begins is_name_start
  tight-name [] h = absurd (false-true h)
  tight-name (c ∷ s) h = rw (start_no_digit c h, h) refl
