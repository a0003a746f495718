-- ===== src/Parser/Expression/Calls.antt =====
-- The calls that the parts of the expression parser make back into it, and the slices of token texts.
use tsqlremaker.Base.{
  ℕ, ◌-◌, ◌&&◌, leb, if◌then◌else◌, Option, none, some, Text, is_char_boundary, byte_len, slice,
}
use tsqlremaker.Parser.Ast.{Expression, SelectStatement}
use tsqlremaker.Parser.Monad.{Parser}
use tsqlremaker.Parser.Expression.Power.{BindingPower, lowest}

-- `parse_bp` and `parse_subquery_select`, on the fuel that is left.
pub record Calls : Type 0 where
  pub parse_bp : BindingPower → Parser Expression
  pub parse_subquery_select : Parser SelectStatement

-- `ExpressionParser::parse`, from inside an expression
abbrev pub parse : Calls → Parser Expression
parse calls = calls.parse_bp lowest

-- `&text[first..text.len() - 1]`; `none` is the panic.
unfoldable pub inner : ℕ → Text → Option Text
inner first text =
    let last = byte_len text - 1 in
    if leb 1 (byte_len text)
      && leb first last
      && is_char_boundary first text
      && is_char_boundary last text
    then some (slice first last text)
    else none
