-- ===== src/Translate/Meaning.antt =====
-- What expressions stand for, in T-SQL and in Common SQL: an independent account of the translation
-- (crates/tsql-parser/src/ast/to_common_sql.rs).
use tsqlremaker.Base.{
  ℕ, ◌+◌, ◌-◌, ◌*◌, ◌^◌, ◌<◌, ◌≡◌, Bool, true, List, [], ◌∷◌, ◌++◌, Option, none, some, Text, codes,
  is_ascii_digit, ℤ, pos, if◌then◌else◌,
}
use mathlib.Core.Option
use tsqlremaker.Token.Position.{Span}
use tsqlremaker.Parser.Ast as Tsql
use tsqlremaker.Common.Ddl.{DataType}
use tsqlremaker.Common.Ast.{
  Literal, BinaryOperator, UnaryOperator, LogicalOperator, ComparisonOperator, Expression,
  MaybeExpression, Expressions, Conditions, InList, SelectStatement,
}
use tsqlremaker.Common.Operators.{SqlOperator, arithmetic, compares, connects}

-- The values of a dialect and its operations on them, whatever they are.
pub record Meaning (V : Type 0) : Type 0 where
  pub string : Text → V
  pub integer : ℤ → V
  pub float : Text → V
  pub null_value : V
  pub boolean : Bool → V
  pub column : Option Text → Text → V
  pub unary : UnaryOperator → V → V
  pub arithmetic : BinaryOperator → V → V → V
  pub connective : LogicalOperator → V → V → V
  pub compared : ComparisonOperator → V → V → V
  pub call : Text → List V → Bool → V
  pub case_of : Option V → List (V × V) → Option V → V
  pub query : SelectStatement → V
  pub exists_in : SelectStatement → Bool → V
  pub among_values : V → List V → Bool → V
  pub among_rows : V → SelectStatement → Bool → V
  pub in_range : V → V → V → Bool → V
  pub cast_to : V → DataType → V
  pub null_test : V → Bool → V

module _ {V : Type 0} (M : Meaning V) where
  abbrev pub literal_value : Literal → V
  literal_value (Literal.string s) = M.string s
  literal_value (Literal.integer i) = M.integer i
  literal_value (Literal.float f) = M.float f
  literal_value Literal.null = M.null_value
  literal_value (Literal.boolean b) = M.boolean b

  -- The value of an expression of Common SQL.
  unfoldable mutual
    pub value : Expression → V
    value (Expression.literal l) = literal_value l
    value (Expression.identifier i) = M.column none i.value
    value (Expression.qualified_identifier t c) = M.column (some t.value) c.value
    value (Expression.binary_op l op r) = M.arithmetic op (value l) (value r)
    value (Expression.unary_op op e) = M.unary op (value e)
    value (Expression.logical_op l op r) = M.connective op (value l) (value r)
    value (Expression.comparison l op r) = M.compared op (value l) (value r)
    value (Expression.function f es d) = M.call f.value (each_value es) d
    value (Expression.case_expression o cs e) =
        M.case_of (maybe_value o) (branch_values cs) (maybe_value e)
    value (Expression.subquery q) = M.query q
    value (Expression.exists q n) = M.exists_in q n
    value (Expression.in_list e l n) = among (value e) l n
    value (Expression.between e l h n) = M.in_range (value e) (value l) (value h) n
    value (Expression.cast e t) = M.cast_to (value e) t
    value (Expression.is_null e n) = M.null_test (value e) n

    pub each_value : Expressions → List V
    each_value Expressions.no_expressions = []
    each_value (Expressions.expression_then e es) = value e ∷ each_value es

    pub maybe_value : MaybeExpression → Option V
    maybe_value MaybeExpression.no_expression = none
    maybe_value (MaybeExpression.an_expression e) = some (value e)

    pub branch_values : Conditions → List (V × V)
    branch_values Conditions.no_conditions = []
    branch_values (Conditions.condition_then c r cs) = (value c, value r) ∷ branch_values cs

    pub among : V → InList → Bool → V
    among v (InList.values es) n = M.among_values v (each_value es) n
    among v (InList.select_list q) n = M.among_rows v q n

-- A text of decimal digits, and the number that it stands for.
pub data Decimal : Text → ℕ → Type 0 where
  digit : (c : ℕ) → is_ascii_digit c ≡ true → Decimal (c ∷ []) (c - b'0')
  more :
      {s : Text} {n : ℕ} (c : ℕ)
      → Decimal s n
      → is_ascii_digit c ≡ true
      → Decimal (s ++ (c ∷ [])) (n * 10 + (c - b'0'))

-- The operators that T-SQL and the other dialects share, but `<>`.
pub data StandsFor : Tsql.BinaryOperator → SqlOperator → Type 0 where
  plus : StandsFor Tsql.BinaryOperator.plus (arithmetic BinaryOperator.add)
  minus : StandsFor Tsql.BinaryOperator.minus (arithmetic BinaryOperator.sub)
  multiply : StandsFor Tsql.BinaryOperator.multiply (arithmetic BinaryOperator.mul)
  divide : StandsFor Tsql.BinaryOperator.divide (arithmetic BinaryOperator.div)
  modulo : StandsFor Tsql.BinaryOperator.modulo (arithmetic BinaryOperator.modulo)
  concat : StandsFor Tsql.BinaryOperator.concat (arithmetic BinaryOperator.concat)
  eq : StandsFor Tsql.BinaryOperator.eq (compares ComparisonOperator.eq)
  ne : StandsFor Tsql.BinaryOperator.ne (compares ComparisonOperator.ne)
  lt : StandsFor Tsql.BinaryOperator.lt (compares ComparisonOperator.lt)
  le : StandsFor Tsql.BinaryOperator.le (compares ComparisonOperator.le)
  gt : StandsFor Tsql.BinaryOperator.gt (compares ComparisonOperator.gt)
  ge : StandsFor Tsql.BinaryOperator.ge (compares ComparisonOperator.ge)
  and : StandsFor Tsql.BinaryOperator.and (connects LogicalOperator.and)
  or : StandsFor Tsql.BinaryOperator.or (connects LogicalOperator.or)

pub data SignFor : Tsql.UnaryOperator → UnaryOperator → Type 0 where
  plus : SignFor Tsql.UnaryOperator.plus UnaryOperator.plus
  minus : SignFor Tsql.UnaryOperator.minus UnaryOperator.minus
  not : SignFor Tsql.UnaryOperator.not UnaryOperator.not

module _ {V : Type 0} (M : Meaning V) where
  abbrev pub apply : SqlOperator → V → V → V
  apply (arithmetic op) = M.arithmetic op
  apply (compares op) = M.compared op
  apply (connects op) = M.connective op

  abbrev pub like_of : Bool → ComparisonOperator
  like_of negated = if negated then ComparisonOperator.not_like else ComparisonOperator.like

  -- What an expression of T-SQL stands for, where it has no subquery, no `<>`, `!<`, `!>` or `~`, no
  -- hexadecimal literal and no literal with a point, no integer of 2 ^ 63 or more, no ESCAPE and no
  -- test for TRUE or FALSE.
  mutual
    pub data Means : Tsql.Expression → V → Type 0 where
      string :
          (s : Text) (p : Span)
          → Means (Tsql.Expression.literal (Tsql.Literal.string s p)) (M.string s)
      number :
          {s : Text} {n : ℕ} (p : Span)
          → Decimal s n
          → n < 2 ^ 63
          → Means (Tsql.Expression.literal (Tsql.Literal.number s p)) (M.integer (pos n))
      null : (p : Span) → Means (Tsql.Expression.literal (Tsql.Literal.null p)) M.null_value
      boolean :
          (b : Bool) (p : Span)
          → Means (Tsql.Expression.literal (Tsql.Literal.boolean b p)) (M.boolean b)
      name : (i : Tsql.Identifier) → Means (Tsql.Expression.identifier i) (M.column none i.name)
      column :
          (c : Tsql.ColumnReference)
          → Means
              (Tsql.Expression.column_reference c)
              (M.column (Option.map (λ (t : Tsql.Identifier). t.name) c.table) c.column.name)
      sign :
          {op : Tsql.UnaryOperator} {o : UnaryOperator} {e : Tsql.Expression} {v : V} (p : Span)
          → SignFor op o
          → Means e v
          → Means (Tsql.Expression.unary_op op e p) (M.unary o v)
      operator :
          {op : Tsql.BinaryOperator} {o : SqlOperator} {l r : Tsql.Expression} {v w : V} (p : Span)
          → StandsFor op o
          → Means l v
          → Means r w
          → Means (Tsql.Expression.binary_op l op r p) (apply o v w)
      call :
          {as' : Tsql.FunctionArgs} {vs : List V} (f : Tsql.Identifier) (d : Bool) (p : Span)
          → MeansArgs as' vs
          → Means (Tsql.Expression.function_call f as' d p) (M.call f.name vs d)
      case_of :
          {bs : Tsql.Branches} {e : Tsql.MaybeExpression} {vs : List (V × V)} {v : Option V}
          (p : Span)
          → MeansBranches bs vs
          → MeansMaybe e v
          → Means (Tsql.Expression.case_expression bs e p) (M.case_of none vs v)
      in_values :
          {e : Tsql.Expression} {es : Tsql.Expressions} {v : V} {vs : List V} (n : Bool) (p : Span)
          → Means e v
          → MeansEach es vs
          → Means (Tsql.Expression.in_list e (Tsql.InList.values es) n p) (M.among_values v vs n)
      in_range :
          {e l h : Tsql.Expression} {v w x : V} (n : Bool) (p : Span)
          → Means e v
          → Means l w
          → Means h x
          → Means (Tsql.Expression.between e l h n p) (M.in_range v w x n)
      like :
          {e q : Tsql.Expression} {v w : V} (n : Bool) (p : Span)
          → Means e v
          → Means q w
          → Means
              (Tsql.Expression.like e q Tsql.MaybeExpression.no_expression n p)
              (M.compared (like_of n) v w)
      is_null :
          {e : Tsql.Expression} {v : V} (n : Bool) (p : Span)
          → Means e v
          → Means (Tsql.Expression.is e n Tsql.IsValue.null p) (M.null_test v n)

    pub data MeansEach : Tsql.Expressions → List V → Type 0 where
      none_left : MeansEach Tsql.Expressions.no_expressions []
      and_next :
          {e : Tsql.Expression} {es : Tsql.Expressions} {v : V} {vs : List V}
          → Means e v
          → MeansEach es vs
          → MeansEach (Tsql.Expressions.expression_then e es) (v ∷ vs)

    pub data MeansArgs : Tsql.FunctionArgs → List V → Type 0 where
      no_args_left : MeansArgs Tsql.FunctionArgs.no_args []
      next_arg :
          {e : Tsql.Expression} {as' : Tsql.FunctionArgs} {v : V} {vs : List V}
          → Means e v
          → MeansArgs as' vs
          → MeansArgs (Tsql.FunctionArgs.arg_then (Tsql.FunctionArg.expression_arg e) as') (v ∷ vs)
      star_arg :
          {as' : Tsql.FunctionArgs} {vs : List V}
          → MeansArgs as' vs
          → MeansArgs
              (Tsql.FunctionArgs.arg_then Tsql.FunctionArg.wildcard_arg as')
              (M.column none (codes "*") ∷ vs)

    pub data MeansMaybe : Tsql.MaybeExpression → Option V → Type 0 where
      absent : MeansMaybe Tsql.MaybeExpression.no_expression none
      present :
          {e : Tsql.Expression} {v : V}
          → Means e v
          → MeansMaybe (Tsql.MaybeExpression.an_expression e) (some v)

    pub data MeansBranches : Tsql.Branches → List (V × V) → Type 0 where
      no_branches_left : MeansBranches Tsql.Branches.no_branches []
      next_branch :
          {c r : Tsql.Expression} {bs : Tsql.Branches} {v w : V} {vs : List (V × V)}
          → Means c v
          → Means r w
          → MeansBranches bs vs
          → MeansBranches (Tsql.Branches.branch_then c r bs) ((v, w) ∷ vs)
