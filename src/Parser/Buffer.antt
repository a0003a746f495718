-- ===== src/Parser/Buffer.antt =====
-- The token buffer: a ring of three tokens before the lexer (crates/tsql-parser/src/buffer.rs).
pub mod Ring
pub mod Queue
pub mod Refinement
pub mod Lexing
use tsqlremaker.Base.{
  ℕ, zero, suc, ◌+◌, ◌-◌, ◌*◌, ◌/◌, ◌%◌, Bool, true, false, ◌&&◌, not, ◌==◌, ltb, leb,
  if◌then◌else◌, Option, none, some, [], codes,
}
use tsqlremaker.Token.Kind.{TokenKind}
use tsqlremaker.Token.Tag.{is_kind}
use tsqlremaker.Token.Position.{Position, Span}
use tsqlremaker.Lexer.Token.{Token}
use tsqlremaker.Lexer.Error as LexErrors
use tsqlremaker.Parser.Error.{ParseError, ParseResult, ok, err, unexpected_eof}

-- The array `[Option<Token>; 3]`, read and written at indices below 3.
abbrev pub Slots : Type 0
Slots = ℕ → Option Token

unfoldable pub put : ℕ → Option Token → Slots → Slots
put i t slots j = if j == i then t else slots j

-- The buffer before a lexer, whose state is of the type `S`.
pub record TokenBuffer (S : Type 0) : Type 0 where
  pub lexer : S
  pub buffer : Slots
  pub cursor : ℕ
  pub filled : ℕ
  pub eof_reached : Bool

-- `position_at_eof`
abbrev pub position_at_eof : Position
position_at_eof = record { line = 1; column = 1; offset = 0 }

-- The token behind the last one, `EOF_TOKEN` in the source.
abbrev pub eof_token : Token
eof_token = record {
  kind = TokenKind.eof;
  text = [];
  span = record { start = 0; end = 0 };
  position = position_at_eof;
}

-- `ok_or_else` on a slot
unfoldable pub slot_token : Option Token → ParseResult Token
slot_token none = err (unexpected_eof (codes "token") position_at_eof)
slot_token (some t) = ok t

-- `check`: an error is no match.
unfoldable pub has_kind : TokenKind → ParseResult Token → Bool
has_kind kind (ok t) = is_kind t.kind kind
has_kind kind (err e) = false

module _ {S : Type 0} where
  -- The match on `lexer.next_token()`: `Eof` and errors are the end, and a token goes to the slot
  -- behind the last one.
  abbrev pub store : LexErrors.Result Token × S → TokenBuffer S → TokenBuffer S
  store (LexErrors.err e, lx) b = record b { lexer = lx; eof_reached = true }
  store (LexErrors.ok t, lx) b =
      if is_kind t.kind TokenKind.eof
      then record b { lexer = lx; eof_reached = true }
      else record b {
        lexer = lx;
        buffer = put (b.filled % 3) (some t) b.buffer;
        filled = b.filled + 1;
      }

  -- `peek`
  unfoldable pub peek : ℕ → TokenBuffer S → ParseResult Token
  peek n b =
      if ltb (b.cursor + n) b.filled
      then slot_token (b.buffer ((b.cursor + n) % 3))
      else ok eof_token

  unfoldable pub current : TokenBuffer S → ParseResult Token
  current = peek 0

  unfoldable pub check : TokenKind → TokenBuffer S → Bool
  check kind b = has_kind kind (current b)

  unfoldable pub consumed : ParseResult Token × TokenBuffer S → ParseResult Bool × TokenBuffer S
  consumed (ok t, b) = (ok true, b)
  consumed (err e, b) = (err e, b)

  -- The shift of `refill_buffer`, for a cursor beyond the array.
  unfoldable pub shift_back : TokenBuffer S → TokenBuffer S
  shift_back b =
      let shift = b.cursor / 3 * 3 in
      if leb 3 b.cursor
      then record b {
        buffer = λ i.
            if ltb i 3 && ltb (b.cursor + i) b.filled then b.buffer ((b.cursor + i) % 3) else none;
        filled = b.filled - shift;
        cursor = b.cursor - shift;
      }
      else b

module _ {S : Type 0} (next : S → LexErrors.Result Token × S) where
  unfoldable pub take_in : TokenBuffer S → TokenBuffer S
  take_in b = store (next b.lexer) b

  -- The loop of `new` over the slots, which breaks at the end.
  unfoldable pub prefill : ℕ → TokenBuffer S → TokenBuffer S
  prefill zero b = b
  prefill (suc n) b = let b' = take_in b in if b'.eof_reached then b' else prefill n b'

  unfoldable pub new : S → TokenBuffer S
  new lx =
      prefill 3
        (record { lexer = lx; buffer = λ i. none; cursor = 0; filled = 0; eof_reached = false })

  -- The loop of `refill_buffer`: a round takes in a token or sees the end, so 4 rounds are enough.
  unfoldable pub refill_loop : ℕ → TokenBuffer S → TokenBuffer S
  refill_loop zero b = b
  refill_loop (suc n) b =
      if not b.eof_reached && ltb (b.filled - b.cursor) 3 then refill_loop n (take_in b) else b

  unfoldable pub refill_buffer : TokenBuffer S → TokenBuffer S
  refill_buffer b = shift_back (refill_loop 4 b)

  -- `consume` behind the `take` of a slot: without a token the error returns before the refill.
  unfoldable pub taken : Option Token → TokenBuffer S → ParseResult Token × TokenBuffer S
  taken none b = (err (unexpected_eof (codes "token") position_at_eof), b)
  taken (some t) b = (ok t, refill_buffer b)

  unfoldable pub consume : TokenBuffer S → ParseResult Token × TokenBuffer S
  consume b =
      let idx = b.cursor % 3 in
      if ltb b.cursor b.filled
      then taken (b.buffer idx) (record b { cursor = b.cursor + 1; buffer = put idx none b.buffer })
      else (ok eof_token, b)

  unfoldable pub consume_if : TokenKind → TokenBuffer S → ParseResult Bool × TokenBuffer S
  consume_if kind b = if check kind b then consumed (consume b) else (ok false, b)
