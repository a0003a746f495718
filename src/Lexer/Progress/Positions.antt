-- ===== src/Lexer/Progress/Positions.antt =====
-- The positions stay true while tokens are read.
use tsqlremaker.Base.{◌≡◌, refl, none, some, Text}
use tsqlremaker.Lexer.Cursor.Locate.{Fits}
use tsqlremaker.Lexer.Cursor.Locate.Bump.{Placed, advance-Placed}
use tsqlremaker.Lexer.Error.{Result}
use tsqlremaker.Lexer.Token.{Token}
use tsqlremaker.Lexer.Unicode.{Tables}
use tsqlremaker.Lexer.Stream.{Lexer, Answer, next_token}
use tsqlremaker.Lexer.Progress.Ahead.{Ahead_inv}
use tsqlremaker.Lexer.Progress.Termination.{Steps, next_token-Steps, ended, took}

-- The call returned, and left its lexer at a true position of `input`.
abbrev pub PlacedAnswer : Text → Answer → Type 0
PlacedAnswer input a =
    (r : Result Token) × (lx : Lexer) × (a ≡ some (r, lx)) × Placed input lx.cursor

Steps-Placed :
    {input : Text} {lx : Lexer} {a : Answer}
    → Fits input
    → Placed input lx.cursor
    → Steps lx a
    → PlacedAnswer input a
Steps-Placed {input} fits p (ended {lx'} b e i q) =
    (_, lx', refl, Ahead_inv (Placed input) (advance-Placed fits) p b)
Steps-Placed {input} fits p (took {t} {lx'} b l i q) =
    (_, lx', refl, Ahead_inv (Placed input) (advance-Placed fits) p b)

-- `next_token` keeps the position true: where eight times the bytes of the text and 9 are less than
-- 2 ^ 32, nothing is peeked, and the cursor stands behind a part of the text with the line and the
-- column that this part leads to, the call returns and leaves a cursor that stands so too. The offset
-- is the number of bytes of the part, or one less behind a carriage return with its line feed.
pub next_token-Placed :
    (u : Tables) (input : Text) (lx : Lexer)
    → Fits input
    → lx.peek_buffer ≡ none
    → Placed input lx.cursor
    → PlacedAnswer input (next_token u lx)
next_token-Placed u input lx fits e p = Steps-Placed fits p (next_token-Steps u lx e)
