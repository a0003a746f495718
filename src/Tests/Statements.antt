-- ===== src/Tests/Statements.antt =====
-- Runs of the statement list and instances of its theorems.
use tsqlremaker.Base.{◌≡◌, refl, List, [], ◌∷◌, ◌++◌, length, drop, none, Text, codes}
use tsqlremaker.Token.Kind.{TokenKind}
use tsqlremaker.Lexer.Token.{Token}
use tsqlremaker.Parser.Error.{ParseResult, ok}
use tsqlremaker.Parser.Buffer.Refinement.{nth}
use tsqlremaker.Parser.Statements.{Parser, batch_mode, synchronize, parse}
use tsqlremaker.Parser.Statements.Recovery.{Skippable, OneOf, stops, synchronize-Skippable}
use tsqlremaker.Parser.Statements.Loops.{parse-end}

abbrev word : TokenKind → Text → Token
word kind text = record {
  kind = kind;
  text = text;
  span = record { start = 0; end = length text };
  position = record { line = 1; column = 1; offset = 0 };
}

abbrev break_word : Token
break_word = word TokenKind.break (codes "BREAK")

abbrev name_word : Token
name_word = word TokenKind.ident (codes "x")

abbrev end_word : Token
end_word = word TokenKind.end (codes "END")

abbrev semicolon_mark : Token
semicolon_mark = word TokenKind.semicolon (codes ";")

abbrev at : List Token → Parser
at ts = record { buffer = ts; mode = batch_mode; errors = []; depth = 0; max_depth = 256 }

-- Every statement is one word.
abbrev one_word : Parser → ParseResult TokenKind × Parser
one_word s = (ok (nth 0 s.buffer).kind, record s { buffer = drop 1 s.buffer })

-- An error, a semicolon and a statement.
abbrev mixed : Parser
mixed = at (name_word ∷ name_word ∷ semicolon_mark ∷ break_word ∷ [])

synchronize-Skippable_example :
    (skipped : List Token) × (Skippable skipped)
    × (mixed ≡ (record (synchronize mixed) { buffer = skipped ++ (synchronize mixed).buffer }))
    × (OneOf stops (nth 0 (synchronize mixed).buffer).kind)
synchronize-Skippable_example = synchronize-Skippable mixed

parse-end_example : parse one_word 3 (at (end_word ∷ break_word ∷ [])) ≡ none
parse-end_example =
    parse-end one_word 3 (at (end_word ∷ break_word ∷ [])) end_word (break_word ∷ []) refl refl
