-- ===== src/Tests/Translating.antt =====
-- Instances of the theorems on the translation to Common SQL.
use tsqlremaker.Base.{
  ℕ, ◌+◌, ◌*◌, ◌≡◌, refl, [], ◌∷◌, Option, none, some, Text, codes, length, pos, negsuc, arith,
  text_eq, false,
}
use tsqlremaker.Token.Kind.{TokenKind}
use tsqlremaker.Token.Position.{Span}
use tsqlremaker.Lexer.Token.{Token}
use tsqlremaker.Parser.Ast as Tsql
use tsqlremaker.Parser.Ast.Definition as Source
use tsqlremaker.Parser.Ast.Statement as Statements
use tsqlremaker.Parser.Expression.Pratt.{parse_expression}
use tsqlremaker.Parser.Expression.Power.{strength}
use tsqlremaker.Parser.Expression.Grammar.{number, atom, height}
use tsqlremaker.Common.Ast.{
  Literal, BinaryOperator, Expression, MaybeExpression, TableFactor, ComparisonOperator,
}
use tsqlremaker.Common.Statement.{Statement}
use tsqlremaker.Translate.Expression.{convert_expr}
use tsqlremaker.Translate.Definition.{unqualified}
use tsqlremaker.Translate.Statement.{to_common_sql}
use tsqlremaker.Translate.Meaning.{Meaning, value, Means, StandsFor, digit}
use tsqlremaker.Translate.Kept.{convert_expr-Means}
use tsqlremaker.Common.Operators.{arithmetic}
use tsqlremaker.Translate.Operators.{new}
use tsqlremaker.Emitter.Quoting.{contains}
use tsqlremaker.Emitter.Postgres.Reader.{fits, stands_tight}
use tsqlremaker.Emitter.Postgres.Reader.Clear.{Clear, tight, an_integer, a_name, an_operation}
use tsqlremaker.Translate.Lost.{Lost, to_common_sql-Lost}
use tsqlremaker.Translate.Unequal.{translated, translated-ne_alt}

-- Values are numbers, and most operations forget what they are given.
abbrev sample : Meaning ℕ
sample = record {
  string = λ s. length s;
  integer = λ i. elim i [ pos n ↦ n | negsuc n ↦ n ];
  float = λ s. length s;
  null_value = 0;
  boolean = λ b. 1;
  column = λ t c. length c;
  unary = λ op v. v;
  arithmetic = λ op v w. v + w;
  connective = λ op v w. v * w;
  compared = λ op v w. elim op [ ComparisonOperator.eq ↦ v + w | _ ↦ v ];
  call = λ f vs d. length vs;
  case_of = λ o bs e. length bs;
  query = λ q. 0;
  exists_in = λ q n. 0;
  among_values = λ v vs n. v;
  among_rows = λ v q n. v;
  in_range = λ v w x n. v;
  cast_to = λ v t. v;
  null_test = λ v n. v;
}

abbrev at : Span
at = record { start = 0; end = 0 }

abbrev no_float : Text → Option Text
no_float s = none

abbrev no_debug : Statements.Statement → Text
no_debug s = []

abbrev same : Text → Text
same s = s

abbrev name : Tsql.Identifier
name = record { name = codes "x"; span = at }

-- 7
abbrev seven : Tsql.Expression
seven = Tsql.Expression.literal (Tsql.Literal.number (codes "7") at)

-- 7 + x
abbrev total : Tsql.Expression
total =
    Tsql.Expression.binary_op seven Tsql.BinaryOperator.plus (Tsql.Expression.identifier name) at

convert_expr-Means_example :
    (e' : Expression) × (convert_expr no_float total ≡ some e') × (value sample e' ≡ 8)
convert_expr-Means_example = convert_expr-Means sample no_float (
    Means.operator at StandsFor.plus (Means.number at (digit b'7' refl) (omega arith))
      (Means.name name))

-- `(7 + x)` of Common SQL
abbrev translation : Expression
translation =
    Expression.binary_op (Expression.literal (Literal.integer (pos 7))) BinaryOperator.add
      (Expression.identifier (new (codes "x")))

abbrev clear : Clear translation
unfolding text_eq contains fits stands_tight
clear = tight (
    an_operation (arithmetic BinaryOperator.add) refl (tight (an_integer 7))
      (tight (a_name (codes "x") (refl, (refl, refl)))))

-- x !< 7
abbrev condition : Tsql.Expression
condition =
    Tsql.Expression.binary_op (Tsql.Expression.identifier name) Tsql.BinaryOperator.not_lt seven at

abbrev deletion : Source.DeleteStatement
deletion = record {
  span = at;
  table = name;
  from_clause = Tsql.MaybeFrom.no_from;
  where_clause = Tsql.MaybeExpression.no_expression;
}

abbrev change : Source.UpdateStatement
change = record {
  span = at;
  table = Tsql.TableReference.table_ref name none at;
  assignments = record { column = name; value = seven } ∷ [];
  from_clause = Tsql.MaybeFrom.no_from;
  where_clause = Tsql.MaybeExpression.no_expression;
}

to_common_sql-Lost_example :
    (to_common_sql no_float no_debug (
        Statements.Statement.delete
          (record deletion { where_clause = Tsql.MaybeExpression.an_expression condition }))
      ≡ some (
          Statement.delete (record {
            table = TableFactor.table (unqualified name) none;
            using = none;
            where_clause = MaybeExpression.no_expression;
          })))
    × (to_common_sql no_float no_debug (
          Statements.Statement.update
            (record change { where_clause = Tsql.MaybeExpression.an_expression condition }))
        ≡ to_common_sql no_float no_debug (Statements.Statement.update change))
    × (to_common_sql no_float no_debug (
          Statements.Statement.select (
            Tsql.SelectStatement.select_statement at false Tsql.MaybeExpression.no_expression
              Tsql.SelectItems.no_items Tsql.MaybeFrom.no_from
              (Tsql.MaybeExpression.an_expression condition)
              Tsql.Expressions.no_expressions
              Tsql.MaybeExpression.no_expression
              Tsql.OrderByItems.no_order
              Tsql.MaybeLimit.no_limit))
        ≡ none)
to_common_sql-Lost_example =
    to_common_sql-Lost no_float no_debug deletion change at false Tsql.MaybeExpression.no_expression
      Tsql.SelectItems.no_items Tsql.MaybeFrom.no_from Tsql.Expressions.no_expressions
      Tsql.MaybeExpression.no_expression Tsql.OrderByItems.no_order Tsql.MaybeLimit.no_limit
      (Lost.not_lt (Tsql.Expression.identifier name) seven at) refl

abbrev token : TokenKind → Text → Token
token kind text = record {
  kind = kind;
  text = text;
  span = at;
  position = record { line = 1; column = 1; offset = 0 };
}

abbrev three_token : Token
three_token = token TokenKind.number (codes "3")

abbrev unequal_token : Token
unequal_token = token TokenKind.ne_alt (codes "<>")

abbrev four_token : Token
four_token = token TokenKind.number (codes "4")

-- 3 <> 4
translated-ne_alt_example :
    (e : Expression) × (translated no_float (
        parse_expression same (record {
          buffer = three_token ∷ unequal_token ∷ four_token ∷ [];
          depth = 0;
          max_depth = 10;
        }))
      ≡ some e)
    × (value sample e ≡ 7)
unfolding strength height
translated-ne_alt_example =
    translated-ne_alt sample no_float same unequal_token (atom {t = three_token} (number refl))
      (atom {t = four_token} (number refl)) 10 refl (omega arith) (omega arith)
      (Means.number at (digit b'3' refl) (omega arith))
      (Means.number at (digit b'4' refl) (omega arith)) (omega arith)
