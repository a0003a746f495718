-- ===== src/Parser/Monad.antt =====
-- Parsers of expressions: what `ExpressionParser` keeps, and the `?` operator
-- (crates/tsql-parser/src/expression/mod.rs). The token buffer is the queue of the tokens to come,
-- which its theorems show it to be: `current`, `peek` and `consume` read and take from the front.
use tsqlremaker.Base.{ℕ, suc, List, drop, length, if◌then◌else◌, Text, Option, none, some}
use tsqlremaker.Token.Kind.{TokenKind}
use tsqlremaker.Token.Tag.{is_kind}
use tsqlremaker.Lexer.Token.{Token}
use tsqlremaker.Parser.Error.{ParseError, ParseResult, ok, err, unexpected_token}
use tsqlremaker.Parser.Buffer.Refinement.{nth}

pub record ExpressionParser : Type 0 where
  pub buffer : List Token
  pub depth : ℕ
  pub max_depth : ℕ

-- What a call comes to: an answer with the parser behind it, the panic of a slice out of bounds, or,
-- in the model alone, the end of the fuel.
pub data Outcome (A : Type 0) : Type 0 where
  out_of_fuel : Outcome A
  panicked : Outcome A
  done : ParseResult A → ExpressionParser → Outcome A

abbrev pub Parser : Type 0 → Type 0
Parser A = ExpressionParser → Outcome A

abbrev pub and_then : {A B : Type 0} → Outcome A → (A → Parser B) → Outcome B
and_then out_of_fuel f = out_of_fuel
and_then panicked f = panicked
and_then (done (err e) s) f = done (err e) s
and_then (done (ok a) s) f = f a s

infixl 5 ◌>>=◌ ◌>>◌
unfoldable pub ◌>>=◌ : {A B : Type 0} → Parser A → (A → Parser B) → Parser B
◌>>=◌ m f s = and_then (m s) f

abbrev pub ◌>>◌ : {A B : Type 0} → Parser A → Parser B → Parser B
m >> k = m >>= λ _. k

unfoldable pub return : {A : Type 0} → A → Parser A
return a s = done (ok a) s

unfoldable pub fail : {A : Type 0} → ParseError → Parser A
fail e s = done (err e) s

unfoldable pub exhaust : {A : Type 0} → Parser A
exhaust s = out_of_fuel

-- A slice, or the panic.
unfoldable pub sliced : Option Text → Parser Text
sliced none s = panicked
sliced (some t) s = done (ok t) s

-- `self.buffer.current()?`, and `consume()?`
unfoldable pub current : Parser Token
current s = done (ok (nth 0 s.buffer)) s

unfoldable pub consume : Parser Token
consume s = done (ok (nth 0 s.buffer)) (record s { buffer = drop 1 s.buffer })

-- `if self.buffer.check(kind) { x } else { y }`
unfoldable pub if_check : {A : Type 0} → TokenKind → Parser A → Parser A → Parser A
if_check kind x y s = if is_kind (nth 0 s.buffer).kind kind then x s else y s

-- `consume_if`, whose answer is tested.
unfoldable pub if_consumed : {A : Type 0} → TokenKind → Parser A → Parser A → Parser A
if_consumed kind x y = if_check kind (consume >> x) y

-- The error for the token at hand.
unfoldable pub unexpected : {A : Type 0} → List TokenKind → Parser A
unexpected expected = do t ← current; fail (unexpected_token expected t.kind t.position)

-- `if !self.buffer.check(kind) { return Err(..) } self.buffer.consume()?`
unfoldable pub expect : List TokenKind → TokenKind → Parser Token
expect expected kind = if_check kind consume (unexpected expected)

-- A loop on fuel for the tokens that are left.
unfoldable pub on_tokens : {A : Type 0} → (ℕ → Parser A) → Parser A
on_tokens loop s = loop (suc (length s.buffer)) s
