-- ===== src/Parser/Expression/Prefix.antt =====
-- Prefix operators and primary expressions (crates/tsql-parser/src/expression/prefix.rs).
use tsqlremaker.Base.{ℕ, Bool, true, false, [], ◌∷◌, Text, codes, text_eq, if◌then◌else◌}
use tsqlremaker.Token.Kind.{TokenKind}
use tsqlremaker.Token.Position.{Span}
use tsqlremaker.Lexer.Token.{Token}
use tsqlremaker.Parser.Ast.{Literal, Expression, literal, unary_op, subquery, UnaryOperator}
use tsqlremaker.Parser.Monad.{
  Parser, ◌>>=◌, ◌>>◌, return, sliced, current, consume, if_check, expect, unexpected,
}
use tsqlremaker.Parser.Expression.Power.{unary}
use tsqlremaker.Parser.Expression.Calls.{Calls, parse, inner}
use tsqlremaker.Parser.Expression.Function.{parse_identifier_tail}
use tsqlremaker.Parser.Expression.Special.{parse_case_expression, parse_exists_expression}

unfoldable pub can_keyword_be_identifier : TokenKind → Bool
can_keyword_be_identifier TokenKind.int = true
can_keyword_be_identifier TokenKind.varchar = true
can_keyword_be_identifier TokenKind.char = true
can_keyword_be_identifier TokenKind.date = true
can_keyword_be_identifier TokenKind.datetime = true
can_keyword_be_identifier TokenKind.bit = true
can_keyword_be_identifier TokenKind.text = true
can_keyword_be_identifier TokenKind.binary = true
can_keyword_be_identifier TokenKind.goto = true
can_keyword_be_identifier TokenKind.label = true
can_keyword_be_identifier TokenKind.begin = true
can_keyword_be_identifier TokenKind.end = true
can_keyword_be_identifier TokenKind.go = true
can_keyword_be_identifier TokenKind.table = true
can_keyword_be_identifier TokenKind.index = true
can_keyword_be_identifier TokenKind.key = true
can_keyword_be_identifier TokenKind.constraint = true
can_keyword_be_identifier TokenKind.view = true
can_keyword_be_identifier TokenKind.proc = true
can_keyword_be_identifier TokenKind.function = true
can_keyword_be_identifier _ = false

-- The token at hand as a literal, taken.
abbrev pub take_literal : (Text → Span → Literal) → Token → Parser Expression
take_literal make t = do consume; return (literal (make t.text t.span))

-- A string literal without its prefix and its quotes.
abbrev pub take_string : ℕ → Token → Parser Expression
take_string first t = do
  value ← sliced (inner first t.text)
  consume
  return (literal (Literal.string value t.span))

module _ (to_uppercase : Text → Text) (calls : Calls) where
  -- A name, unless it says TRUE or FALSE.
  unfoldable pub take_name : Token → Parser Expression
  take_name t =
      let word = to_uppercase t.text in
      consume
      >> (if text_eq word (codes "TRUE")
          then return (literal (Literal.boolean true t.span))
          else if text_eq word (codes "FALSE")
          then return (literal (Literal.boolean false t.span))
          else parse_identifier_tail calls (record { name = t.text; span = t.span }))

  abbrev pub take_quoted : Token → Parser Expression
  take_quoted t = do
    name ← sliced (inner 1 t.text)
    consume
    parse_identifier_tail calls (record { name = name; span = t.span })

  abbrev pub not_primary : Parser Expression
  not_primary =
      unexpected (TokenKind.string ∷ TokenKind.number ∷ TokenKind.ident ∷ TokenKind.lparen ∷ [])

  -- The match of `parse_primary`
  unfoldable pub primary_at : TokenKind → Token → Parser Expression
  primary_at TokenKind.string t = take_string 1 t
  primary_at TokenKind.nstring t = take_string 2 t
  primary_at TokenKind.number t = take_literal Literal.number t
  primary_at TokenKind.float_literal t = take_literal Literal.float t
  primary_at TokenKind.hex_string t = take_literal Literal.hex t
  primary_at TokenKind.null t = do consume; return (literal (Literal.null t.span))
  primary_at TokenKind.ident t = take_name t
  primary_at TokenKind.local_var t = take_name t
  primary_at TokenKind.global_var t = take_name t
  primary_at TokenKind.temp_table t = take_name t
  primary_at TokenKind.global_temp_table t = take_name t
  primary_at TokenKind.quoted_ident t = take_quoted t
  primary_at _ t = not_primary

  abbrev pub take_unary : UnaryOperator → Token → Parser Expression
  take_unary op t = do consume; expr ← calls.parse_bp unary; return (unary_op op expr t.span)

  unfoldable pub take_parens : Parser Expression
  take_parens = do
    consume
    if_check TokenKind.select
        (do
          query ← calls.parse_subquery_select
          expect (TokenKind.rparen ∷ []) TokenKind.rparen
          return (subquery query))
        (do expr ← parse calls; expect (TokenKind.rparen ∷ []) TokenKind.rparen; return expr)

  abbrev pub keyword_name : Token → Parser Expression
  keyword_name t = do consume; parse_identifier_tail calls (record { name = t.text; span = t.span })

  -- The last two arms of the match of `parse_prefix`
  unfoldable pub operand_at : TokenKind → Token → Parser Expression
  operand_at kind t = if can_keyword_be_identifier kind then keyword_name t else primary_at kind t

  -- The match of `parse_prefix`
  unfoldable pub prefix_at : TokenKind → Token → Parser Expression
  prefix_at TokenKind.plus t = take_unary UnaryOperator.plus t
  prefix_at TokenKind.minus t = take_unary UnaryOperator.minus t
  prefix_at TokenKind.tilde t = take_unary UnaryOperator.tilde t
  prefix_at TokenKind.not t = take_unary UnaryOperator.not t
  prefix_at TokenKind.lparen t = take_parens
  prefix_at TokenKind.case t = parse_case_expression calls
  prefix_at TokenKind.exists t = parse_exists_expression calls
  prefix_at kind t = operand_at kind t

  unfoldable pub parse_prefix : Parser Expression
  parse_prefix = do t ← current; prefix_at t.kind t
