-- ===== src/Translate/Kept.antt =====
-- The translation keeps what an expression stands for (crates/tsql-parser/src/ast/to_common_sql.rs).
use mathlib.Core.Option
use tsqlremaker.Base.{
  ℕ, ◌+◌, ◌-◌, ◌*◌, ◌^◌, ◌<◌, ◌≡◌, refl, ap, ◌∙◌, true, false, Bool-cases, inl, inr, List, [], ◌∷◌,
  ◌++◌, Option, none, some, Text, lt→ltb, ◌==◌, is_ascii_digit, pos, parse_i64, read_digits,
  read_number, positive, arith,
}
use tsqlremaker.Parser.Ast as Tsql
use tsqlremaker.Common.Ast.{Expression, Expressions, Conditions}
use tsqlremaker.Translate.Operators.{
  convert_literal, convert_column_reference, column_of, convert_unary_op, convert_binary_op,
}
use tsqlremaker.Translate.Expression.{
  convert_is, keep, maybe, convert_expr, convert_each, convert_maybe, convert_args,
  convert_branches,
}
use tsqlremaker.Translate.Meaning.{
  Meaning, value, each_value, maybe_value, branch_values, Decimal, digit, more, StandsFor, SignFor,
  apply, Means, MeansEach, MeansArgs, MeansMaybe, MeansBranches, none_left, and_next, no_args_left,
  next_arg, star_arg, absent, present, no_branches_left, next_branch,
}
use tsqlremaker.Common.Operators.{SqlOperator, arithmetic, compares, connects, joined}

read_digits-snoc :
    (m : ℕ) (s : Text) (c : ℕ) {n : ℕ}
    → read_digits m s ≡ some n
    → is_ascii_digit c ≡ true
    → read_digits m (s ++ (c ∷ [])) ≡ some (n * 10 + (c - b'0'))
unfolding read_digits
read_digits-snoc m [] c h d = rw d (ground arith)
read_digits-snoc m (x ∷ s) c h d = elim (Bool-cases (is_ascii_digit x)) [
  | inl ok ↦ rw ok (read_digits-snoc (m * 10 + (x - b'0')) s c (rw ok at h) d)
  | inr no_digit ↦ cc (rw no_digit at h)
]

Decimal-read_digits : {s : Text} {n : ℕ} → Decimal s n → read_digits 0 s ≡ some n
unfolding read_digits
Decimal-read_digits (digit c d) = rw d (ground arith)
Decimal-read_digits (more {s} c h d) = read_digits-snoc 0 s c (Decimal-read_digits h) d

Decimal-first :
    {s : Text} {n : ℕ}
    → Decimal s n
    → (c : ℕ) × (rest : Text) × (s ≡ (c ∷ rest)) × (is_ascii_digit c ≡ true)
Decimal-first (digit c d) = (c, [], refl, d)
Decimal-first (more c h d) =
    let (first, rest, e, d') = Decimal-first h in
    (first, rest ++ (c ∷ []), ap (λ x. x ++ (c ∷ [])) e, d')

parse_i64-digits :
    (c : ℕ) (s : Text) {n : ℕ}
    → is_ascii_digit c ≡ true
    → read_digits 0 (c ∷ s) ≡ some n
    → n < 2 ^ 63
    → parse_i64 (c ∷ s) ≡ some (pos n)
unfolding parse_i64 read_number positive
parse_i64-digits c s {n} d h l =
    let minus : (c == b'-') ≡ false = ground arith in
    let plus : (c == b'+') ≡ false = ground arith in
    rw minus (rw plus (rw h (rw (lt→ltb n (2 ^ 63) l) refl)))

pub Decimal-parse_i64 : {s : Text} {n : ℕ} → Decimal s n → n < 2 ^ 63 → parse_i64 s ≡ some (pos n)
Decimal-parse_i64 h l =
    let (c, rest, e, d) = Decimal-first h in
    rw e (parse_i64-digits c rest d (rw e at (Decimal-read_digits h)) l)

convert_binary_op-StandsFor :
    {op : Tsql.BinaryOperator} {o : SqlOperator} (l r : Expression)
    → StandsFor op o
    → convert_binary_op l op r ≡ some (joined o l r)
unfolding convert_binary_op
convert_binary_op-StandsFor l r StandsFor.plus = refl
convert_binary_op-StandsFor l r StandsFor.minus = refl
convert_binary_op-StandsFor l r StandsFor.multiply = refl
convert_binary_op-StandsFor l r StandsFor.divide = refl
convert_binary_op-StandsFor l r StandsFor.modulo = refl
convert_binary_op-StandsFor l r StandsFor.concat = refl
convert_binary_op-StandsFor l r StandsFor.eq = refl
convert_binary_op-StandsFor l r StandsFor.ne = refl
convert_binary_op-StandsFor l r StandsFor.lt = refl
convert_binary_op-StandsFor l r StandsFor.le = refl
convert_binary_op-StandsFor l r StandsFor.gt = refl
convert_binary_op-StandsFor l r StandsFor.ge = refl
convert_binary_op-StandsFor l r StandsFor.and = refl
convert_binary_op-StandsFor l r StandsFor.or = refl

convert_unary_op-SignFor :
    {op : Tsql.UnaryOperator} {o : _} → SignFor op o → convert_unary_op op ≡ some o
unfolding convert_unary_op
convert_unary_op-SignFor SignFor.plus = refl
convert_unary_op-SignFor SignFor.minus = refl
convert_unary_op-SignFor SignFor.not = refl

module _ {V : Type 0} (M : Meaning V) (parse_f64 : Text → Option Text) where
  value-joined :
      (o : SqlOperator) (l r : Expression)
      → value M (joined o l r) ≡ apply M o (value M l) (value M r)
  unfolding value
  value-joined (arithmetic op) l r = refl
  value-joined (compares op) l r = refl
  value-joined (connects op) l r = refl

  value-column_of :
      (t : Option Tsql.Identifier) (c : Tsql.Identifier)
      → value M (column_of t c) ≡ M.column (Option.map (λ (i : Tsql.Identifier). i.name) t) c.name
  unfolding value column_of
  value-column_of none c = refl
  value-column_of (some t) c = refl

  -- The answer is an expression of that value.
  abbrev Gives : Option Expression → V → Type 0
  Gives o v = (e : Expression) × (o ≡ some e) × (value M e ≡ v)

  keep-Gives :
      {o : Option Expression} {v : V} {vs : List V} (es : Expressions)
      → Gives o v
      → each_value M es ≡ vs
      → each_value M (keep o es) ≡ (v ∷ vs)
  unfolding keep value
  keep-Gives {v} es (e, p, q) h = rw p (rw q (ap (λ x. v ∷ x) h))

  mutual
    unfolding convert_expr value convert_literal convert_column_reference convert_is maybe

    convert_expr-Gives :
        {e : Tsql.Expression} {v : V} → Means M e v → Gives (convert_expr parse_f64 e) v
    convert_expr-Gives (Means.string s p) = (_, refl, refl)
    convert_expr-Gives (Means.number p d l) = rw (Decimal-parse_i64 d l) (_, refl, refl)
    convert_expr-Gives (Means.null p) = (_, refl, refl)
    convert_expr-Gives (Means.boolean b p) = (_, refl, refl)
    convert_expr-Gives (Means.name i) = (_, refl, refl)
    convert_expr-Gives (Means.column c) = (_, refl, value-column_of c.table c.column)
    convert_expr-Gives (Means.sign p s m) =
        let (e', q, h) = convert_expr-Gives m in
        rw (convert_unary_op-SignFor s) (rw q (_, refl, ap (M.unary _) h))
    convert_expr-Gives (Means.operator {o} p s m m') =
        let (l', q, h) = convert_expr-Gives m in
        let (r', q', h') = convert_expr-Gives m' in
        rw q (
          rw q' (
            joined o l' r',
            convert_binary_op-StandsFor l' r' s,
            value-joined o l' r' ∙ rw h (rw h' refl),
          ))
    convert_expr-Gives (Means.call f d p m) =
        (_, refl, ap (λ x. M.call f.name x d) (convert_args-Gives m))
    convert_expr-Gives (Means.case_of p m m') =
        let (cs, q, h) = convert_branches-Gives m in
        rw q (_, refl, rw h (rw (convert_maybe-Gives m') refl))
    convert_expr-Gives (Means.in_values n p m m') =
        let (e', q, h) = convert_expr-Gives m in
        rw q (_, refl, rw h (rw (convert_each-Gives m') refl))
    convert_expr-Gives (Means.in_range n p m m' m'') =
        let (e', q, h) = convert_expr-Gives m in
        let (l', q', h') = convert_expr-Gives m' in
        let (r', q'', h'') = convert_expr-Gives m'' in
        rw q (rw q' (rw q'' (_, refl, rw h (rw h' (rw h'' refl)))))
    convert_expr-Gives (Means.like n p m m') =
        let (l', q, h) = convert_expr-Gives m in
        let (r', q', h') = convert_expr-Gives m' in rw q (rw q' (_, refl, rw h (rw h' refl)))
    convert_expr-Gives (Means.is_null n p m) =
        let (e', q, h) = convert_expr-Gives m in rw q (_, refl, ap (λ x. M.null_test x n) h)

    convert_each-Gives :
        {es : Tsql.Expressions} {vs : List V}
        → MeansEach M es vs
        → each_value M (convert_each parse_f64 es) ≡ vs
    convert_each-Gives none_left = refl
    convert_each-Gives (and_next m ms) = keep-Gives _ (convert_expr-Gives m) (convert_each-Gives ms)

    convert_args-Gives :
        {es : Tsql.FunctionArgs} {vs : List V}
        → MeansArgs M es vs
        → each_value M (convert_args parse_f64 es) ≡ vs
    convert_args-Gives no_args_left = refl
    convert_args-Gives (next_arg m ms) = keep-Gives _ (convert_expr-Gives m) (convert_args-Gives ms)
    convert_args-Gives (star_arg ms) = keep-Gives _ (_, refl, refl) (convert_args-Gives ms)

    convert_maybe-Gives :
        {e : Tsql.MaybeExpression} {v : Option V}
        → MeansMaybe M e v
        → maybe_value M (convert_maybe parse_f64 e) ≡ v
    convert_maybe-Gives absent = refl
    convert_maybe-Gives (present m) =
        let (e', q, h) = convert_expr-Gives m in rw q (ap {B = Option V} some h)

    convert_branches-Gives :
        {bs : Tsql.Branches} {vs : List (V × V)}
        → MeansBranches M bs vs
        → (cs : Conditions) × (convert_branches parse_f64 bs ≡ some cs) × (branch_values M cs ≡ vs)
    convert_branches-Gives no_branches_left = (_, refl, refl)
    convert_branches-Gives (next_branch m m' ms) =
        let (c', q, h) = convert_expr-Gives m in
        let (r', q', h') = convert_expr-Gives m' in
        let (cs, q'', h'') = convert_branches-Gives ms in
        rw q (rw q' (rw q'' (_, refl, rw h (rw h' (rw h'' refl)))))

  -- An expression that stands for the value `v` in T-SQL is translated, and what it is translated to
  -- has that value: in whatever way literals, names, operators, functions, CASE, IN, BETWEEN, LIKE
  -- and IS NULL are read, as long as the dialects agree on them. Not among the expressions are those
  -- with a subquery, with `<>`, `!<`, `!>` or `~`, with a hexadecimal literal or one with a point, with
  -- an integer of 2 ^ 63 or more, with ESCAPE, and with a test for TRUE, FALSE or UNKNOWN.
  pub convert_expr-Means :
      {e : Tsql.Expression} {v : V}
      → Means M e v
      → (e' : Expression) × (convert_expr parse_f64 e ≡ some e') × (value M e' ≡ v)
  convert_expr-Means m = convert_expr-Gives m
