-- ===== src/Emitter/Postgres/Reader/Clear.antt =====
-- The expressions whose text is clear: literals, names, signs, operators on operands that fit them,
-- NOT, and IS NULL, IN and BETWEEN on operands that stand tight
-- (crates/postgresql-emitter/src/mappers/expression.rs).
use tsqlremaker.Base.{ℕ, suc, ◌+◌, ◌≡◌, Bool, true, false, Text, codes, text_eq, pos}
use tsqlremaker.Common.Ast.{Literal, UnaryOperator, Expression, Expressions, InList}
use tsqlremaker.Common.Operators.{SqlOperator, joined}
use tsqlremaker.Translate.Operators.{new}
use tsqlremaker.Emitter.Quoting.Reading.{Readable}
use tsqlremaker.Emitter.Postgres.Reader.{fits}

-- A name that PostgreSQL reads, and not the star, which stands for all columns.
abbrev pub IsName : Text → Type 0
IsName n = (text_eq n (codes "*") ≡ false) × Readable n

mutual
  pub data Tight : Expression → Type 0 where
    a_string : (s : Text) → Tight (Expression.literal (Literal.string s))
    an_integer : (n : ℕ) → Tight (Expression.literal (Literal.integer (pos n)))
    a_null : Tight (Expression.literal Literal.null)
    a_boolean : (b : Bool) → Tight (Expression.literal (Literal.boolean b))
    a_name : (n : Text) → IsName n → Tight (Expression.identifier (new n))
    a_column :
        (t c : Text) → IsName t → IsName c → Tight (Expression.qualified_identifier (new t) (new c))
    a_plus : {e : Expression} → Tight e → Tight (Expression.unary_op UnaryOperator.plus e)
    a_minus : {e : Expression} → Tight e → Tight (Expression.unary_op UnaryOperator.minus e)
    an_operation :
        {l r : Expression} (o : SqlOperator)
        → fits o l r ≡ true
        → Clear l
        → Clear r
        → Tight (joined o l r)

  pub data Clear : Expression → Type 0 where
    tight : {e : Expression} → Tight e → Clear e
    a_negation : {e : Expression} → Clear e → Clear (Expression.unary_op UnaryOperator.not e)
    a_null_test : {e : Expression} (negated : Bool) → Tight e → Clear (Expression.is_null e negated)
    a_range :
        {e low high : Expression} (negated : Bool)
        → Tight e
        → Tight low
        → Tight high
        → Clear (Expression.between e low high negated)
    a_choice :
        {e : Expression} {es : Expressions} (negated : Bool)
        → Tight e
        → Values es
        → Clear (Expression.in_list e (InList.values es) negated)

  -- One expression at least.
  pub data Values : Expressions → Type 0 where
    last_value :
        {e : Expression}
        → Clear e
        → Values (Expressions.expression_then e Expressions.no_expressions)
    one_more :
        {e : Expression} {es : Expressions}
        → Clear e
        → Values es
        → Values (Expressions.expression_then e es)

-- The number of the steps of reading one, at most.
unfoldable mutual
  pub tight_size : {e : Expression} → Tight e → ℕ
  tight_size (a_string s) = 0
  tight_size (an_integer n) = 0
  tight_size a_null = 0
  tight_size (a_boolean b) = 0
  tight_size (a_name n h) = 0
  tight_size (a_column t c h k) = 0
  tight_size (a_plus d) = suc (tight_size d)
  tight_size (a_minus d) = suc (tight_size d)
  tight_size (an_operation o h l r) = suc (size l + size r)

  pub size : {e : Expression} → Clear e → ℕ
  size (tight d) = suc (tight_size d)
  size (a_negation d) = suc (size d)
  size (a_null_test negated d) = suc (tight_size d)
  size (a_range negated d low high) = suc (tight_size d + (tight_size low + tight_size high))
  size (a_choice negated d ds) = suc (tight_size d + values_size ds)

  pub values_size : {es : Expressions} → Values es → ℕ
  values_size (last_value d) = suc (size d)
  values_size (one_more d ds) = suc (size d + values_size ds)
