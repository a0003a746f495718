-- ===== src/Emitter/Postgres/Reader.antt =====
-- How PostgreSQL reads the expressions that the emitter writes, an independent account of
-- crates/postgresql-emitter/src/mappers/expression.rs: literals, names, signs, NOT, operators in
-- parentheses, IS NULL, IN with values and BETWEEN. A sign binds its operand tighter than the operators
-- of arithmetic and of comparison do, these tighter than IS NULL, IN and BETWEEN, these tighter than
-- NOT, and NOT tighter than AND and OR. What stands otherwise is not read, and the answer is `none`.
pub mod Words
pub mod Numbers
pub mod Clear
pub mod Steps
pub mod Atoms
pub mod Texts
pub mod Tails
pub mod RoundTrip
use tsqlremaker.Base.{
  ℕ, zero, suc, ◌+◌, ◌-◌, ◌*◌, Bool, true, false, ◌&&◌, ◌||◌, ◌==◌, if◌then◌else◌, List, [], ◌∷◌,
  Option, none, some, Text, codes, is_ascii_digit, pos,
}
use tsqlremaker.Common.Ast.{
  Literal, BinaryOperator, UnaryOperator, LogicalOperator, ComparisonOperator, Expression,
  Expressions, InList,
}
use tsqlremaker.Common.Operators.{SqlOperator, arithmetic, compares, connects, joined}
use tsqlremaker.Translate.Fallible.{◌>>=◌}
use tsqlremaker.Translate.Operators.{new}
use tsqlremaker.Emitter.Quoting.{is_ascii_lowercase}

-- What is behind `p` in a text that begins with it.
unfoldable pub strip : Text → Text → Option Text
strip [] s = some s
strip (p ∷ ps) [] = none
strip (p ∷ ps) (c ∷ s) = let rest = strip ps s in if c == p then rest else none

abbrev pub cons_first : ℕ → Option (Text × Text) → Option (Text × Text)
cons_first c none = none
cons_first c (some (s, rest)) = some (c ∷ s, rest)

-- The text behind an opening quote `q`, and what is behind the closing one.
unfoldable pub read_quoted : ℕ → Text → Option (Text × Text)
read_quoted q [] = none
read_quoted q (c ∷ []) = if c == q then some ([], []) else none
read_quoted q (c ∷ (d ∷ s)) =
    let behind = read_quoted q s in
    let rest = read_quoted q (d ∷ s) in
    if c == q then (if d == q then cons_first q behind else some ([], d ∷ s)) else cons_first c rest

-- A character of a name without quotes.
unfoldable pub is_word : ℕ → Bool
is_word c = is_ascii_lowercase c || (is_ascii_digit c || c == b'_')

abbrev pub longer : ℕ → Text × Text → Text × Text
longer c (s, rest) = (c ∷ s, rest)

-- The first character of one.
unfoldable pub starts_word : ℕ → Bool
starts_word c = is_ascii_lowercase c || c == b'_'

unfoldable pub read_word : Text → Text × Text
read_word [] = ([], [])
read_word (c ∷ s) = let more = longer c (read_word s) in if is_word c then more else ([], c ∷ s)

-- A number, behind the digits that stand for `n`.
unfoldable pub read_nat : ℕ → Text → ℕ × Text
read_nat n [] = (n, [])
read_nat n (c ∷ s) =
    let more = read_nat (n * 10 + (c - b'0')) s in if is_ascii_digit c then more else (n, c ∷ s)

abbrev pub an_integer : ℕ × Text → Option (Expression × Text)
an_integer (n, rest) = some (Expression.literal (Literal.integer (pos n)), rest)

abbrev pub a_string : Text × Text → Option (Expression × Text)
a_string (s, rest) = some (Expression.literal (Literal.string s), rest)

abbrev pub constant : Literal → Text → Option (Expression × Text)
constant l rest = some (Expression.literal l, rest)

abbrev pub operators : List (Text × SqlOperator)
operators =
    (codes " + ", arithmetic BinaryOperator.add)
    ∷ (codes " - ", arithmetic BinaryOperator.sub)
    ∷ (codes " * ", arithmetic BinaryOperator.mul)
    ∷ (codes " / ", arithmetic BinaryOperator.div)
    ∷ (codes " % ", arithmetic BinaryOperator.modulo)
    ∷ (codes " || ", arithmetic BinaryOperator.concat)
    ∷ (codes " = ", compares ComparisonOperator.eq)
    ∷ (codes " <> ", compares ComparisonOperator.ne)
    ∷ (codes " < ", compares ComparisonOperator.lt)
    ∷ (codes " <= ", compares ComparisonOperator.le)
    ∷ (codes " > ", compares ComparisonOperator.gt)
    ∷ (codes " >= ", compares ComparisonOperator.ge)
    ∷ (codes " LIKE ", compares ComparisonOperator.like)
    ∷ (codes " NOT LIKE ", compares ComparisonOperator.not_like)
    ∷ (codes " ILIKE ", compares ComparisonOperator.ilike)
    ∷ (codes " NOT ILIKE ", compares ComparisonOperator.not_ilike)
    ∷ (codes " AND ", connects LogicalOperator.and)
    ∷ (codes " OR ", connects LogicalOperator.or)
    ∷ []

abbrev pub found_or :
    SqlOperator → Option Text → Option (SqlOperator × Text) → Option (SqlOperator × Text)
found_or o none other = other
found_or o (some rest) other = some (o, rest)

unfoldable pub read_operator : List (Text × SqlOperator) → Text → Option (SqlOperator × Text)
read_operator [] s = none
read_operator ((word, o) ∷ os) s = found_or o (strip word s) (read_operator os s)

-- The first of two readings that there is.
abbrev pub or_else {ℓ} : {A : Type ℓ} → Option A → Option A → Option A
or_else none other = other
or_else (some a) other = some a

abbrev pub Reading : Type 0
Reading = Text → Option (Expression × Text)

abbrev pub a_sign : UnaryOperator → Expression × Text → Option (Expression × Text)
a_sign op (e, rest) = some (Expression.unary_op op e, rest)

-- Whether an expression that was read is an operand of operators other than AND and OR too: these
-- bind tighter than NOT, IS NULL, IN and BETWEEN do.
unfoldable pub stands_tight : Expression → Bool
stands_tight (Expression.unary_op UnaryOperator.not e) = false
stands_tight (Expression.is_null e negated) = false
stands_tight (Expression.in_list e list negated) = false
stands_tight (Expression.between e low high negated) = false
stands_tight other = true

unfoldable pub fits : SqlOperator → Expression → Expression → Bool
fits (connects op) l r = true
fits o l r = stands_tight l && stands_tight r

-- Two expressions with an operator between them that they fit, and the closing parenthesis.
abbrev pub read_joined : Reading → Reading
read_joined any s = do
  (l, s') ← any s
  (o, s'') ← read_operator operators s'
  (r, s''') ← any s''
  rest ← strip (codes ")") s'''
  if fits o l r then some (joined o l r, rest) else none

-- No name is empty.
abbrev pub named : Option (Text × Text) → Option (Text × Text)
named none = none
named (some ([], rest)) = none
named (some (c ∷ s, rest)) = some (c ∷ s, rest)

module _ (is_reserved : Text → Bool) where
  abbrev pub unless_reserved : Text × Text → Option (Text × Text)
  unless_reserved (s, rest) = if is_reserved s then none else some (s, rest)

  -- A name, with quotes or without; a reserved word is none.
  unfoldable pub read_name : Text → Option (Text × Text)
  read_name [] = none
  read_name (c ∷ s) =
      if c == b'"'
      then named (read_quoted b'"' s)
      else if starts_word c
      then unless_reserved (read_word (c ∷ s))
      else none

  abbrev pub column_or : Text → Text → Option Text → Option (Expression × Text)
  column_or name rest none = some (Expression.identifier (new name), rest)
  column_or name rest (some behind) = do
    (column, rest') ← read_name behind
    some (Expression.qualified_identifier (new name) (new column), rest')

  -- A column, with the name of its table before a point or without.
  unfoldable pub read_reference : Text → Option (Expression × Text)
  read_reference s = do (name, rest) ← read_name s; column_or name rest (strip (codes ".") rest)

  unfoldable pub tight : Reading → Reading → Reading
  tight operand any [] = none
  tight operand any (c ∷ s) =
      if is_ascii_digit c
      then an_integer (read_nat 0 (c ∷ s))
      else if c == b'"' || starts_word c
      then read_reference (c ∷ s)
      else if c == b'\''
      then read_quoted b'\'' s >>= a_string
      else if c == b'('
      then read_joined any s
      else if c == b'+'
      then strip (codes " ") s >>= operand >>= a_sign UnaryOperator.plus
      else if c == b'-'
      then strip (codes " ") s >>= operand >>= a_sign UnaryOperator.minus
      else if c == b'N'
      then strip (codes "ULL") s >>= constant Literal.null
      else if c == b'T'
      then strip (codes "RUE") s >>= constant (Literal.boolean true)
      else if c == b'F'
      then strip (codes "ALSE") s >>= constant (Literal.boolean false)
      else none

abbrev pub is_null_test : Expression → Bool → Text → Option (Expression × Text)
is_null_test e negated rest = some (Expression.is_null e negated, rest)

abbrev pub read_among :
    (Text → Option (Expressions × Text)) → Expression → Bool → Text → Option (Expression × Text)
read_among values e negated s = do
  (es, s') ← values s
  rest ← strip (codes ")") s'
  some (Expression.in_list e (InList.values es) negated, rest)

abbrev pub read_range : Reading → Expression → Bool → Text → Option (Expression × Text)
read_range operand e negated s = do
  (low, s') ← operand s
  s'' ← strip (codes " AND ") s'
  (high, rest) ← operand s''
  some (Expression.between e low high negated, rest)

-- IS NULL, IN or BETWEEN behind `e`, or nothing of these.
unfoldable pub tail :
    Reading → (Text → Option (Expressions × Text)) → Expression → Text → Option (Expression × Text)
tail operand values e s = or_else (strip (codes " IS NULL") s >>= is_null_test e false) (
    or_else (strip (codes " IS NOT NULL") s >>= is_null_test e true) (
      or_else (strip (codes " IN (") s >>= read_among values e false) (
        or_else (strip (codes " NOT IN (") s >>= read_among values e true) (
          or_else (strip (codes " BETWEEN ") s >>= read_range operand e false) (
            or_else (strip (codes " NOT BETWEEN ") s >>= read_range operand e true)
              (some (e, s)))))))

abbrev pub a_negation : Expression × Text → Option (Expression × Text)
a_negation (e, rest) = some (Expression.unary_op UnaryOperator.not e, rest)

abbrev pub negation_or :
    Reading
    → Reading
    → (Text → Option (Expressions × Text))
    → Text
    → Option Text
    → Option (Expression × Text)
negation_or operand any values s none = operand s >>= λ (e, rest). tail operand values e rest
negation_or operand any values s (some rest) = any rest >>= a_negation

abbrev pub values_or :
    (Text → Option (Expressions × Text))
    → Expression
    → Text
    → Option Text
    → Option (Expressions × Text)
values_or values e s none = some (Expressions.expression_then e Expressions.no_expressions, s)
values_or values e s (some s') =
    values s' >>= λ (es, rest). some (Expressions.expression_then e es, rest)

-- On fuel: an operand, an expression, and the values of an IN, one at least.
module _ (is_reserved : Text → Bool) where
  unfoldable mutual
    pub read_tight : ℕ → Text → Option (Expression × Text)
    read_tight zero s = none
    read_tight (suc fuel) s = tight is_reserved (read_tight fuel) (read_any fuel) s

    pub read_any : ℕ → Text → Option (Expression × Text)
    read_any zero s = none
    read_any (suc fuel) s =
        negation_or (read_tight fuel) (read_any fuel) (read_values fuel) s (strip (codes "NOT ") s)

    pub read_values : ℕ → Text → Option (Expressions × Text)
    read_values zero s = none
    read_values (suc fuel) s = do
      (e, s') ← read_any fuel s
      values_or (read_values fuel) e s' (strip (codes ", ") s')
