-- ===== src/Parser/Expression/Function.antt =====
-- What follows an identifier: a column of a table, a call, or nothing
-- (crates/tsql-parser/src/expression/function.rs).
use tsqlremaker.Base.{ℕ, zero, suc, Bool, true, false, [], ◌∷◌, some, Text, if◌then◌else◌}
use tsqlremaker.Token.Kind.{TokenKind}
use tsqlremaker.Token.Tag.{is_kind}
use tsqlremaker.Lexer.Token.{Token}
use tsqlremaker.Parser.Ast.{
  Identifier, Expression, identifier, column_reference, function_call, FunctionArg, expression_arg,
  qualified_wildcard_arg, wildcard_arg, FunctionArgs, no_args, arg_then,
}
use tsqlremaker.Parser.Monad.{
  Parser, ◌>>=◌, ◌>>◌, return, exhaust, sliced, current, consume, if_check, if_consumed, expect,
  on_tokens,
}
use tsqlremaker.Parser.Expression.Calls.{Calls, parse, inner}

-- The name of a column: a quoted one without its quotes.
unfoldable pub column_name : Token → Parser Text
column_name t =
    if is_kind t.kind TokenKind.quoted_ident then sliced (inner 1 t.text) else return t.text

abbrev pub star_arg : Expression → FunctionArg
star_arg (identifier i) = qualified_wildcard_arg i
star_arg e = expression_arg e

module _ (calls : Calls) where
  unfoldable pub parse_function_arg : Parser FunctionArg
  parse_function_arg =
      if_check TokenKind.star (do consume; return wildcard_arg)
        (do
          expr ← parse calls
          if_check TokenKind.dot
              (do
                consume
                if_check TokenKind.star (do consume; return (star_arg expr))
                    (return (expression_arg expr)))
              (return (expression_arg expr)))

  -- The loop over the arguments.
  unfoldable pub parse_args : ℕ → Parser FunctionArgs
  parse_args zero = exhaust
  parse_args (suc n) = if_check TokenKind.rparen (return no_args) (
      if_check TokenKind.eof (return no_args) (do
        arg ← parse_function_arg
        rest ← if_consumed TokenKind.comma (parse_args n) (return no_args)
        return (arg_then arg rest)))

  abbrev pub call_args : Parser FunctionArgs
  call_args = on_tokens parse_args

  abbrev pub take_distinct : Parser Bool
  take_distinct = if_check TokenKind.distinct (do consume; return true) (return false)

  unfoldable pub parse_function_call : Identifier → Parser Expression
  parse_function_call name = do
    consume
    distinct ← take_distinct
    args ← call_args
    end_token ← current
    expect (TokenKind.rparen ∷ TokenKind.comma ∷ []) TokenKind.rparen
    return (
        function_call name args distinct
          (record { start = name.span.start; end = end_token.span.end }))

  unfoldable pub parse_identifier_tail : Identifier → Parser Expression
  parse_identifier_tail ident =
      if_check TokenKind.dot
        (do
          consume
          next ← current
          name ← column_name next
          consume
          return (
              column_reference (record {
                table = some ident;
                column = record { name = name; span = next.span };
                span = record { start = ident.span.start; end = next.span.end };
              })))
        (if_check TokenKind.lparen (parse_function_call ident) (return (identifier ident)))
