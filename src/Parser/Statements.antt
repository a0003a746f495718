-- ===== src/Parser/Statements.antt =====
-- The list of statements and its recovery from errors (crates/tsql-parser/src/parser/mod.rs and
-- helpers.rs). The token buffer is the queue of the tokens to come, and the parsers of the single
-- statements are a function of the state, which ends.
pub mod Recovery
pub mod Loops
use tsqlremaker.Base.{
  ℕ, zero, suc, ◌+◌, Bool, true, false, ◌&&◌, ◌||◌, not, leb, if◌then◌else◌, List, [], ◌∷◌, ◌++◌,
  drop, length,
}
use mathlib.Core.Option
use mathlib.Core.Option.{Option, none, some}
use tsqlremaker.Token.Kind.{TokenKind}
use tsqlremaker.Token.Tag.{is_kind}
use tsqlremaker.Lexer.Token.{Token}
use tsqlremaker.Parser.Error.{ParseError, ParseResult, ok, err, unexpected_token}
use tsqlremaker.Parser.Buffer.Refinement.{nth}

pub data ParserMode : Type 0 where
  batch_mode : ParserMode
  single_statement : ParserMode

pub record Parser : Type 0 where
  pub buffer : List Token
  pub mode : ParserMode
  pub errors : List ParseError
  pub depth : ℕ
  pub max_depth : ℕ

-- `matches!(kind, a | b | ..)`
unfoldable pub among : List TokenKind → TokenKind → Bool
among [] kind = false
among (k ∷ ks) kind = is_kind kind k || among ks kind

unfoldable pub is_batch_mode : ParserMode → Bool
is_batch_mode batch_mode = true
is_batch_mode single_statement = false

-- The kinds that have a parser in `parse_statement`, but `Go`.
abbrev pub statement_kinds : List TokenKind
statement_kinds =
    TokenKind.select ∷ TokenKind.insert ∷ TokenKind.update ∷ TokenKind.delete ∷ TokenKind.create
    ∷ TokenKind.alter ∷ TokenKind.declare ∷ TokenKind.set ∷ TokenKind.if_kw ∷ TokenKind.while
    ∷ TokenKind.begin ∷ TokenKind.break ∷ TokenKind.continue ∷ TokenKind.return ∷ TokenKind.commit
    ∷ TokenKind.rollback ∷ TokenKind.save ∷ TokenKind.throw ∷ TokenKind.raiserror ∷ TokenKind.exec
    ∷ TokenKind.execute ∷ []

unfoldable pub is_statement_start : TokenKind → Bool
is_statement_start kind =
    among statement_kinds kind || (is_kind kind TokenKind.go || is_kind kind TokenKind.end)

abbrev pub is_at_statement_start : Parser → Bool
is_at_statement_start s = is_statement_start (nth 0 s.buffer).kind

abbrev pub is_at_eof : Parser → Bool
is_at_eof s = is_kind (nth 0 s.buffer).kind TokenKind.eof

-- A token that `synchronize` stops at.
unfoldable pub is_sync_point : TokenKind → Bool
is_sync_point kind =
    is_kind kind TokenKind.eof || (is_statement_start kind || is_kind kind TokenKind.semicolon)

-- The loop of `synchronize`
unfoldable pub skip : List Token → List Token
skip [] = []
skip (t ∷ ts) = let rest = skip ts in if is_sync_point t.kind then t ∷ ts else rest

unfoldable pub synchronize : Parser → Parser
synchronize s = record s { buffer = skip s.buffer }

unfoldable pub push_error : ParseError → Parser → Parser
push_error e s = record s { errors = s.errors ++ (e ∷ []) }

-- `let _ = self.buffer.consume_if(TokenKind::Semicolon)`
unfoldable pub skip_semicolon : Parser → Parser
skip_semicolon s =
    if is_kind (nth 0 s.buffer).kind TokenKind.semicolon
    then record s { buffer = drop 1 s.buffer }
    else s

unfoldable pub has_statement_parser : Parser → Bool
has_statement_parser s =
    among statement_kinds (nth 0 s.buffer).kind
    || (is_kind (nth 0 s.buffer).kind TokenKind.go && is_batch_mode s.mode)

abbrev pub expected_kinds : List TokenKind
expected_kinds =
    TokenKind.select ∷ TokenKind.insert ∷ TokenKind.update ∷ TokenKind.delete ∷ TokenKind.create
    ∷ TokenKind.declare ∷ []

abbrev pub max_errors : ℕ
max_errors = 100

-- What is behind `synchronize` in `parse_with_errors`.
unfoldable pub step_over : Parser → Parser
step_over s =
    if not (is_at_eof s) && not (is_at_statement_start s)
    then record s { buffer = drop 1 s.buffer }
    else s

module _ {Statement : Type 0} where
  -- The two matches on the answer of `parse_statement`.
  unfoldable pub settle : List Statement → ParseResult Statement × Parser → List Statement × Parser
  settle statements (ok stmt, s) = (statements ++ (stmt ∷ []), s)
  settle statements (err e, s) = (statements, synchronize (push_error e s))

  unfoldable pub settle_stepping :
      List Statement → ParseResult Statement × Parser → List Statement × Parser
  settle_stepping statements (ok stmt, s) = (statements ++ (stmt ∷ []), s)
  settle_stepping statements (err e, s) = (statements, step_over (synchronize (push_error e s)))

  -- The answer of `parse`: the first error, if there is one.
  unfoldable pub first_error : List Statement → List ParseError → ParseResult (List Statement)
  first_error statements [] = ok statements
  first_error statements (e ∷ es) = err e

  unfoldable pub answer : List Statement × Parser → ParseResult (List Statement) × Parser
  answer (statements, s) = (first_error statements s.errors, s)

  -- `self.errors.drain(..)`
  unfoldable pub drain : List Statement × Parser → (List Statement × List ParseError) × Parser
  drain (statements, s) = ((statements, s.errors), record s { errors = [] })

module _ {Statement : Type 0} (statement : Parser → ParseResult Statement × Parser) where
  unfoldable pub parse_statement : Parser → ParseResult Statement × Parser
  parse_statement s = if has_statement_parser s then statement s else (
    err (unexpected_token expected_kinds (nth 0 s.buffer).kind (nth 0 s.buffer).position),
    s,
  )

  -- The loops, on fuel: `none` is its end.
  unfoldable pub parse_rounds : ℕ → List Statement → Parser → Option (List Statement × Parser)
  parse_rounds zero statements s = none
  parse_rounds (suc fuel) statements s =
      let settled = settle statements (parse_statement s) in
      let rest = parse_rounds fuel settled.0 (skip_semicolon settled.1) in
      if is_at_eof s then some (statements, s) else rest

  unfoldable pub parse : ℕ → Parser → Option (ParseResult (List Statement) × Parser)
  parse fuel s = Option.map answer (parse_rounds fuel [] s)

  unfoldable pub recovery_rounds : ℕ → List Statement → Parser → Option (List Statement × Parser)
  recovery_rounds zero statements s = none
  recovery_rounds (suc fuel) statements s =
      let settled = settle_stepping statements (parse_statement s) in
      let rest = recovery_rounds fuel settled.0 (skip_semicolon settled.1) in
      if is_at_eof s
      then some (statements, s)
      else if leb max_errors (length s.errors)
      then some (statements, s)
      else rest

  -- One round for each token and each error below the limit, and one more.
  unfoldable pub parse_with_errors : Parser → Option ((List Statement × List ParseError) × Parser)
  parse_with_errors s = Option.map drain (recovery_rounds (suc (max_errors + length s.buffer)) [] s)
