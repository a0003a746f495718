-- ===== src/Parser/Expression/Panic.antt =====
-- The slice of a string literal without its prefix and its quotes
-- (crates/tsql-parser/src/expression/prefix.rs).
use tsqlremaker.Base.{ℕ, ◌≤◌, ◌<◌, ◌≡◌, refl, List, ◌∷◌, arith, Text, byte_len, false, leb, none}
use tsqlremaker.Token.Kind.{TokenKind}
use tsqlremaker.Lexer.Token.{Token}
use tsqlremaker.Parser.Monad.{panicked, ◌>>=◌, current, sliced, return}
use tsqlremaker.Parser.Expression.Calls.{inner}
use tsqlremaker.Parser.Expression.Prefix.{
  parse_prefix, prefix_at, operand_at, can_keyword_be_identifier, primary_at,
}
use tsqlremaker.Parser.Expression.Pratt.{parse_expression, level, bp_body, check_depth, deeper}

inner-none : (first : ℕ) (text : Text) → byte_len text ≤ first → inner first text ≡ none
unfolding inner
inner-none first text l = ground arith

-- At a national string whose text has two bytes or fewer `parse` panics
-- where the depth is below its limit: the slice of the text ends before it begins.
pub parse_expression-panicked :
    (to_uppercase : Text → Text) (t : Token) (rest : List Token) (d m : ℕ)
    → t.kind ≡ TokenKind.nstring
    → byte_len t.text ≤ 2
    → d < m
    → parse_expression to_uppercase (record { buffer = t ∷ rest; depth = d; max_depth = m })
      ≡ panicked
unfolding parse_expression level bp_body check_depth deeper parse_prefix ◌>>=◌ current prefix_at
    operand_at can_keyword_be_identifier primary_at return sliced
parse_expression-panicked upper t rest d m k l h =
    let room : leb m d ≡ false = ground arith in rw room (simp k (rw (inner-none 2 t.text l) refl))
