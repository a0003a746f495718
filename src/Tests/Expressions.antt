-- ===== src/Tests/Expressions.antt =====
-- Instances of the theorems on the expression parser.
use tsqlremaker.Base.{
  ℕ, ◌+◌, ◌<◌, ◌≤◌, ◌≡◌, refl, List, [], ◌∷◌, ◌++◌, length, codes, Text, arith, byte_len, len_utf8,
}
use tsqlremaker.Token.Kind.{TokenKind}
use tsqlremaker.Token.Tag.{is_kind}
use tsqlremaker.Lexer.Token.{Token}
use tsqlremaker.Parser.Error.{ok}
use tsqlremaker.Parser.Ast.{Expression, literal, Literal, binary_op, BinaryOperator}
use tsqlremaker.Parser.Monad.{ExpressionParser, out_of_fuel, panicked, done}
use tsqlremaker.Parser.Expression.Power.{additive, get_infix_binding_power, strength}
use tsqlremaker.Parser.Expression.Pratt.{parse_expression}
use tsqlremaker.Parser.Expression.Termination.{parse_expression-out_of_fuel, parse_expression-done}
use tsqlremaker.Parser.Expression.Depth.{
  no_opens, one_more, ExceedsLimit, parse_expression-ExceedsLimit,
}
use tsqlremaker.Parser.Expression.Panic.{parse_expression-panicked}
use tsqlremaker.Parser.Expression.Grammar.{
  number, IsInfix, infix_operator, is_plain, Derives, atom, parens, binary, height,
}
use tsqlremaker.Parser.Expression.Grammar.RoundTrip.{
  parse_expression-Derives, parse_expression-groups_right,
}
use tsqlremaker.Parser.Expression.Grammar.Followers.{Stops-nil}
use tsqlremaker.Parser.Expression.Grammar.Like.{like_expression, parse_expression-like}

-- A token that starts at a byte of the first line.
abbrev token : TokenKind → Text → ℕ → Token
token kind text offset = record {
  kind = kind;
  text = text;
  span = record { start = offset; end = offset + length text };
  position = record { line = 1; column = offset + 1; offset = offset };
}

-- Digits are in upper case.
abbrev same : Text → Text
same t = t

abbrev ten : Token
ten = token TokenKind.number (codes "10") 0

abbrev first_minus : Token
first_minus = token TokenKind.minus (codes "-") 3

abbrev five : Token
five = token TokenKind.number (codes "5") 5

abbrev second_minus : Token
second_minus = token TokenKind.minus (codes "-") 7

abbrev two : Token
two = token TokenKind.number (codes "2") 9

abbrev number_of : Token → Expression
number_of t = literal (Literal.number t.text t.span)

-- 10 - 5 - 2
abbrev subtractions : List Token
subtractions = ten ∷ first_minus ∷ five ∷ second_minus ∷ two ∷ []

abbrev grouped : Expression
grouped =
    binary_op (number_of ten) BinaryOperator.minus
      (binary_op (number_of five) BinaryOperator.minus (number_of two)
        (record { start = 5; end = 10 }))
      (record { start = 0; end = 10 })

abbrev ten-Derives : Derives 8 (ten ∷ []) (number_of ten)
ten-Derives = atom (number refl)

abbrev five-Derives : Derives 8 (five ∷ []) (number_of five)
five-Derives = atom (number refl)

abbrev two-Derives : Derives 8 (two ∷ []) (number_of two)
two-Derives = atom (number refl)

minus-IsInfix : IsInfix TokenKind.minus additive BinaryOperator.minus
unfolding get_infix_binding_power is_plain
minus-IsInfix = infix_operator refl refl

minus-below : strength additive < 8
unfolding strength
minus-below = omega arith

minus-at_most : strength additive ≤ 8
unfolding strength
minus-at_most = omega arith

parse_expression-groups_right_example :
    parse_expression same (record { buffer = subtractions; depth = 0; max_depth = 1000 })
    ≡ done (ok grouped) (record { buffer = []; depth = 0; max_depth = 1000 })
unfolding height
parse_expression-groups_right_example =
    parse_expression-groups_right same first_minus second_minus ten-Derives five-Derives two-Derives
      1000 minus-IsInfix minus-IsInfix minus-below minus-below minus-at_most (omega arith)

abbrev begun : ExpressionParser
begun = record { buffer = subtractions; depth = 0; max_depth = 1000 }

abbrev ended : ExpressionParser
ended = record { buffer = []; depth = 0; max_depth = 1000 }

subtractions-read : parse_expression same begun ≡ done (ok grouped) ended
unfolding height
subtractions-read =
    parse_expression-groups_right same first_minus second_minus ten-Derives five-Derives two-Derives
      1000 minus-IsInfix minus-IsInfix minus-below minus-below minus-at_most (omega arith)

-- (10) - 5
abbrev opened : Token
opened = token TokenKind.lparen (codes "(") 0

abbrev closed : Token
closed = token TokenKind.rparen (codes ")") 3

abbrev in_parens : List Token
in_parens = opened ∷ ten ∷ closed ∷ []

abbrev difference : Expression
difference =
    binary_op (number_of ten) BinaryOperator.minus (number_of five) (record { start = 0; end = 6 })

abbrev difference-Derives :
    Derives (strength additive) (in_parens ++ (first_minus ∷ five ∷ [])) difference
difference-Derives =
    binary {p = 8} {q = 8} first_minus minus-IsInfix minus-below minus-at_most
      (parens {ts = ten ∷ []} opened closed refl refl ten-Derives) five-Derives

parse_expression-Derives_example :
    parse_expression same (record {
      buffer = opened ∷ ten ∷ closed ∷ first_minus ∷ five ∷ [];
      depth = 0;
      max_depth = 1000;
    })
    ≡ done (ok difference) (record { buffer = []; depth = 0; max_depth = 1000 })
unfolding height
parse_expression-Derives_example =
    parse_expression-Derives same difference-Derives [] 0 1000 (Stops-nil 0) (omega arith)

parse_expression-out_of_fuel_example : ¬ (
    parse_expression same (record { buffer = subtractions; depth = 0; max_depth = 1000 })
    ≡ out_of_fuel)
parse_expression-out_of_fuel_example =
    parse_expression-out_of_fuel same
      (record { buffer = subtractions; depth = 0; max_depth = 1000 })

parse_expression-done_example :
    (length ended.buffer < length begun.buffer)
    × (ended.depth ≡ begun.depth)
    × (ended.max_depth ≡ begun.max_depth)
parse_expression-done_example = parse_expression-done same begun subtractions-read

-- Three parentheses, where the limit is two.
parse_expression-ExceedsLimit_example : ExceedsLimit 2 (
    parse_expression same
      (record { buffer = opened ∷ opened ∷ opened ∷ ten ∷ []; depth = 0; max_depth = 2 }))
parse_expression-ExceedsLimit_example =
    parse_expression-ExceedsLimit same
      (record { buffer = opened ∷ opened ∷ opened ∷ ten ∷ []; depth = 0; max_depth = 2 }) 2
      (one_more refl (one_more refl (one_more refl no_opens))) (omega arith)

abbrev national : Token
national = token TokenKind.nstring (codes "N'") 0

parse_expression-panicked_example :
    parse_expression same (record { buffer = national ∷ []; depth = 0; max_depth = 1000 })
    ≡ panicked
unfolding byte_len len_utf8
parse_expression-panicked_example =
    parse_expression-panicked same national [] 0 1000 refl (omega arith) (omega arith)

abbrev like_token : Token
like_token = token TokenKind.like (codes "LIKE") 3

parse_expression-like_example :
    parse_expression same (record {
      buffer = ten ∷ like_token ∷ opened ∷ ten ∷ closed ∷ first_minus ∷ five ∷ [];
      depth = 0;
      max_depth = 1000;
    })
    ≡ done
        (ok (like_expression (number_of ten) difference))
        (record { buffer = []; depth = 0; max_depth = 1000 })
unfolding height is_kind
parse_expression-like_example =
    parse_expression-like same ten like_token difference-Derives [] 1000 (number refl) refl
      (Stops-nil 0) refl (omega arith)
