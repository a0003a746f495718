-- ===== src/Tests/Emitting.antt =====
-- Instances of the theorems on the names and the expressions of the PostgreSQL emitter.
use tsqlremaker.Base.{
  ◌<◌, ◌≡◌, refl, some, Text, codes, false, [], ◌∷◌, ◌++◌, pos, arith, text_eq, utf8, utf8_char,
  decimal, digits, show_i64,
}
use tsqlremaker.Common.Ast.{
  Literal, UnaryOperator, LogicalOperator, ComparisonOperator, Expression, Expressions, InList,
}
use tsqlremaker.Common.Operators.{compares, connects, joined}
use tsqlremaker.Translate.Operators.{new}
use tsqlremaker.Tests.Postgres.{is_reserved, is_reserved-listed, upper}
use tsqlremaker.Emitter.Postgres.Reader.{fits, stands_tight, read_any}
use tsqlremaker.Emitter.Postgres.Reader.Clear.{
  Clear, tight, a_string, an_integer, a_name, a_column, a_minus, an_operation, a_negation, a_choice,
  one_more, last_value, size, tight_size, values_size,
}
use tsqlremaker.Emitter.Postgres.Reader.Steps.{a_comma}
use tsqlremaker.Emitter.Postgres.Reader.RoundTrip.{read_any-emit}
use tsqlremaker.Emitter.Postgres.Expression.{emit}
use tsqlremaker.Emitter.Quoting.{
  is_ascii_lowercase, contains, doubled, has_other, bytes_need_quoting, needs_quoting, quote,
  emit_string,
}
use tsqlremaker.Emitter.Postgres.Words.{
  join, emit_literal, emit_unary_op, emit_comparison_op, emit_logical_op, emit_identifier,
  emit_qualified_identifier,
}
use tsqlremaker.Emitter.Reserved.{reserved_words}
use tsqlremaker.Emitter.Quoting.Reading.{Readable, read_name, read_name-quote}

-- Two words and a quote.
abbrev name : Text
name = codes "Order \"x"

name-Readable : Readable name
unfolding text_eq contains
name-Readable = (refl, refl)

read_name-quote_example : read_name is_reserved (quote upper name) ≡ some name
read_name-quote_example = read_name-quote upper is_reserved is_reserved-listed name name-Readable

abbrev plain_name : Text → Expression
plain_name s = Expression.identifier (new s)

-- `NOT (a <= 10) AND t.b IN ('it''s', - c)`, as the emitter writes it
abbrev sample : Expression
sample =
    joined (connects LogicalOperator.and)
      (Expression.unary_op UnaryOperator.not (
        joined (compares ComparisonOperator.le) (plain_name (codes "a"))
          (Expression.literal (Literal.integer (pos 10)))))
      (Expression.in_list (Expression.qualified_identifier (new (codes "t")) (new (codes "b")))
        (InList.values (
          Expressions.expression_then (Expression.literal (Literal.string (codes "it's"))) (
            Expressions.expression_then
              (Expression.unary_op UnaryOperator.minus (plain_name (codes "c")))
              Expressions.no_expressions)))
        false)

abbrev clear : Clear sample
unfolding text_eq contains fits stands_tight
clear = tight (
    an_operation (connects LogicalOperator.and) refl
      (a_negation (
        tight (
          an_operation (compares ComparisonOperator.le) refl
            (tight (a_name (codes "a") (refl, (refl, refl)))) (tight (an_integer 10)))))
      (a_choice false (a_column (codes "t") (codes "b") (refl, (refl, refl)) (refl, (refl, refl))) (
        one_more (tight (a_string (codes "it's")))
          (last_value (tight (a_minus (a_name (codes "c") (refl, (refl, refl)))))))))

abbrev written : Text
written = emit upper (λ g. []) sample

written_lem : written ≡ codes "(NOT (a <= 10) AND t.b IN ('it''s', - c))"
unfolding emit emit_literal emit_unary_op emit_comparison_op emit_logical_op emit_identifier
    emit_qualified_identifier show_i64 decimal digits emit_string doubled quote needs_quoting
    contains bytes_need_quoting has_other utf8 utf8_char text_eq join is_ascii_lowercase
    reserved_words
written_lem = refl

size_lem : size clear < 20
unfolding size tight_size values_size text_eq contains fits stands_tight
size_lem = omega arith

read_any-emit_example : read_any is_reserved 20 (written ++ (b',' ∷ [])) ≡ some (sample, b',' ∷ [])
read_any-emit_example =
    read_any-emit upper (λ g. []) is_reserved is_reserved-listed clear 20 (b',' ∷ []) size_lem
      (a_comma [])
