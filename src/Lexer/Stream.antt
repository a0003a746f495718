-- ===== src/Lexer/Stream.antt =====
-- The token stream: `Lexer` and its methods (crates/tsql-lexer/src/lexer.rs).
use tsqlremaker.Base.{
  ℕ, zero, suc, Bool, true, false, ◌&&◌, ◌||◌, not, ◌==◌, ltb, if◌then◌else◌, Option, none, some,
  Text, codes, List, [], ◌∷◌, ◌++◌, is_whitespace, is_ascii_digit, is_ascii_alphabetic,
}
use tsqlremaker.Base.Loop.{Round, leave, again, loop}
use tsqlremaker.Token.Kind.{TokenKind}
use tsqlremaker.Token.Tag.{is_kind}
use tsqlremaker.Lexer.Cursor.{Cursor, current, peek, advance, at_char, is_eof, remaining}
use tsqlremaker.Lexer.Cursor as Cursors
use tsqlremaker.Lexer.Cursor.Loop.{bump_while}
use tsqlremaker.Lexer.Error.{
  LexError, Result, ok, err, unterminated_block_comment, invalid_character, unexpected_eof,
}
use tsqlremaker.Lexer.Token
use tsqlremaker.Lexer.Token.{Token}
use tsqlremaker.Lexer.Unicode.{Tables}
use tsqlremaker.Lexer.Read.Names.{
  is_ident_start, text_to, read_ident_or_keyword, read_at_variable, read_hash_temp,
}
use tsqlremaker.Lexer.Read.Quoted.{
  read_bracket_ident, read_quoted_ident, read_string, read_national_string, read_unicode_string,
}
use tsqlremaker.Lexer.Read.Numbers.{read_number}
use tsqlremaker.Lexer.Read.Symbols.{
  read_plus, read_minus, read_star, read_slash, read_percent, read_less_than, read_greater_than,
  read_bang, read_pipe, read_dot, single_kind, read_single,
}
use tsqlremaker.Lexer.Read.Comments.{scan_block, scan_line}

pub record Lexer : Type 0 where
  pub input : Text
  pub cursor : Cursor
  pub preserve_comments : Bool
  pub errors : List LexError
  pub peek_buffer : Option (Result Token)

unfoldable pub new : Text → Lexer
new input = record {
  input = input;
  cursor = Cursors.new input;
  preserve_comments = false;
  errors = [];
  peek_buffer = none;
}

unfoldable pub with_comments : Bool → Lexer → Lexer
with_comments preserve lx = record lx { preserve_comments = preserve }

-- A method that returns a token. `none` means that the fuel of the model ran out.
abbrev pub Answer : Type 0
Answer = Option (Result Token × Lexer)

abbrev pub with_cursor : Lexer → Result Token × Cursor → Result Token × Lexer
with_cursor lx (r, c) = (r, record lx { cursor = c })

unfoldable pub skip_whitespace : Cursor → Cursor
skip_whitespace = bump_while (λ ch. is_whitespace ch && not (ch == b'\n') && not (ch == b'\r'))

-- The loop behind it, which takes line ends too.
unfoldable pub skip_newlines : Cursor → Cursor
skip_newlines = bump_while (λ ch. ch == b'\n' || ch == b'\r' || is_whitespace ch)

-- `read_block_comment`, where `next` is `self.next_token()`.
unfoldable pub read_block_comment : (Lexer → Answer) → Lexer → Answer
read_block_comment next lx =
    let start = lx.cursor.position in
    let (depth, c) = scan_block (advance (advance lx.cursor)) in
    let lx' = record lx { cursor = c } in
    if ltb 0 depth
    then some (err (unterminated_block_comment start depth none), lx')
    else if lx.preserve_comments
    then some (ok (Token.new TokenKind.block_comment (text_to lx.input start c) start), lx')
    else next lx'

unfoldable pub read_line_comment : (Lexer → Answer) → Lexer → Answer
read_line_comment next lx =
    let start = lx.cursor.position in
    let c = scan_line (advance (advance lx.cursor)) in
    if lx.preserve_comments
    then some (
      ok (Token.new TokenKind.line_comment (text_to lx.input start c) start),
      record lx { cursor = c },
    )
    else next (record lx { cursor = if at_char b'\n' (current c) then advance c else c })

-- The last arms of the match: strings with a prefix, names, and what is no token.
unfoldable pub read_word : Tables → Text → ℕ → Cursor → Result Token × Cursor
read_word u input ch c =
    let is_n = ch == b'N' || ch == b'n' in
    if (ch == b'U' || ch == b'u') && at_char b'&' (peek c)
    then read_unicode_string input c
    else if is_n && at_char b'\'' (peek c)
    then read_national_string input c
    else if is_ident_start u ch && not is_n
    then read_ident_or_keyword u input c.position c
    else if is_ident_start u ch && is_n
    then (if not (at_char b'\'' (peek c))
        then read_ident_or_keyword u input c.position c
        else (err (unexpected_eof c.position (codes "identifier or N'...'") none), c))
    else (err (invalid_character ch c.position none), c)

abbrev pub or_word : Option TokenKind → ℕ → Cursor → Result Token × Cursor → Result Token × Cursor
or_word none ch c word = word
or_word (some kind) ch c word = read_single kind ch c

-- The arms of the match that are no comments.
unfoldable pub read_token : Tables → Text → ℕ → Cursor → Result Token × Cursor
read_token u input ch c =
    if ch == b'@'
    then read_at_variable u input c
    else if ch == b'#'
    then read_hash_temp u input c
    else if ch == b'['
    then read_bracket_ident input c
    else if ch == b'"'
    then read_quoted_ident input c
    else if ch == b'\''
    then read_string input c
    else if is_ascii_digit ch
    then read_number input c
    else if ch == b'+'
    then read_plus c
    else if ch == b'-'
    then read_minus c
    else if ch == b'*'
    then read_star c
    else if ch == b'/'
    then read_slash c
    else if ch == b'%'
    then read_percent c
    else if ch == b'<'
    then read_less_than c
    else if ch == b'>'
    then read_greater_than c
    else if ch == b'!'
    then read_bang c
    else if ch == b'|'
    then read_pipe c
    else if ch == b'.'
    then read_dot c
    else or_word (single_kind ch) ch c (read_word u input ch c)

-- A round of the loop of `synchronize`.
unfoldable pub sync_at : Option ℕ → Cursor → Round Cursor
sync_at none c = leave c
sync_at (some ch) c =
    if ch == b';'
    then leave (advance c)
    else if is_ascii_alphabetic ch || ch == b'_'
    then leave c
    else again (advance c)

unfoldable pub sync_round : Cursor → Round Cursor
sync_round c = sync_at (current c) c

unfoldable pub synchronize : Cursor → Cursor
synchronize c = let c₁ = advance c in loop (suc (remaining c₁)) sync_round c₁

-- An error is recorded, and an `Unknown` token stands for it.
unfoldable pub recover : Cursor → Result Token × Lexer → Result Token × Lexer
recover start (ok t, lx) = (ok t, lx)
recover start (err e, lx) = (
  ok (Token.new TokenKind.unknown [] start.position),
  record lx { errors = lx.errors ++ e ∷ []; cursor = synchronize lx.cursor },
)

abbrev pub map_answer : (Result Token × Lexer → Result Token × Lexer) → Answer → Answer
map_answer f none = none
map_answer f (some a) = some (f a)

-- At a token: the match of `next_token_impl` and its recovery.
unfoldable pub next_at : Tables → (Lexer → Answer) → Lexer → ℕ → Answer
next_at u next lx ch =
    let c = lx.cursor in
    map_answer (recover c) (
      if ch == b'/' && at_char b'*' (peek c)
      then read_block_comment next lx
      else if ch == b'-' && at_char b'-' (peek c)
      then read_line_comment next lx
      else some (with_cursor lx (read_token u lx.input ch c)))

-- Behind the space, at the character at hand if there is one.
unfoldable pub next_behind_space : Tables → (Lexer → Answer) → Lexer → Option ℕ → Answer
next_behind_space u next lx none =
    if is_eof lx.cursor
    then some (ok (Token.eof lx.cursor.position), lx)
    else some (err (unexpected_eof lx.cursor.position (codes "token") none), lx)
next_behind_space u next lx (some ch) =
    if is_eof lx.cursor then some (ok (Token.eof lx.cursor.position), lx) else next_at u next lx ch

-- `next_token`, over the reader that it calls when nothing was peeked.
abbrev pub peeked_or : Option (Result Token) → (Lexer → Answer) → Lexer → Answer
peeked_or none impl lx = impl lx
peeked_or (some r) impl lx = some (r, record lx { peek_buffer = none })

abbrev pub take_peeked : (Lexer → Answer) → Lexer → Answer
take_peeked impl lx = peeked_or lx.peek_buffer impl lx

-- `next_token_impl`. A comment that is skipped costs a unit of fuel.
unfoldable pub next_token_impl : Tables → ℕ → Lexer → Answer
next_token_impl u zero lx = none
next_token_impl u (suc fuel) lx =
    let lx' = record lx { cursor = skip_newlines (skip_whitespace lx.cursor) } in
    next_behind_space u (take_peeked (next_token_impl u fuel)) lx' (current lx'.cursor)

-- Fuel for every text: a comment takes a character at least.
abbrev pub fuel_for : Lexer → ℕ
fuel_for lx = suc (remaining lx.cursor)

-- `Lexer::next_token`
unfoldable pub next_token : Tables → Lexer → Answer
next_token u lx = take_peeked (next_token_impl u (fuel_for lx)) lx

abbrev pub keep_peeked : Answer → Answer
keep_peeked none = none
keep_peeked (some (err e, lx)) = some (err e, lx)
keep_peeked (some (ok t, lx)) = some (ok t, record lx { peek_buffer = some (ok t) })

-- `Lexer::peek`
unfoldable pub peek_token : Tables → Lexer → Answer
peek_token u lx = elim lx.peek_buffer [
  | none ↦ keep_peeked (next_token_impl u (fuel_for lx) lx)
  | some r ↦ some (r, lx)
]

-- `Lexer::has_errors`, `errors` and `drain_errors`
abbrev is_nil {ℓ} : {A : Type ℓ} → List A → Bool
is_nil [] = true
is_nil (x ∷ xs) = false

unfoldable pub has_errors : Lexer → Bool
has_errors lx = not (is_nil lx.errors)

unfoldable pub drain_errors : Lexer → List LexError × Lexer
drain_errors lx = (lx.errors, record lx { errors = [] })

-- What `Iterator::next` makes of a token: the stream ends at `Eof`.
abbrev pub item : Result Token → Option (Result Token)
item (ok t) = if is_kind t.kind TokenKind.eof then none else some (ok t)
item (err e) = some (err e)

abbrev pub cons_item :
    Result Token → Option (List (Result Token) × Lexer) → Option (List (Result Token) × Lexer)
cons_item r none = none
cons_item r (some (rs, last)) = some (r ∷ rs, last)

abbrev pub item_then :
    (Lexer → Option (List (Result Token) × Lexer))
    → Option (Result Token)
    → Lexer
    → Option (List (Result Token) × Lexer)
item_then rest none lx = some ([], lx)
item_then rest (some r) lx = cons_item r (rest lx)

abbrev pub answer_then :
    (Lexer → Option (List (Result Token) × Lexer)) → Answer → Option (List (Result Token) × Lexer)
answer_then rest none = none
answer_then rest (some (r, lx)) = item_then rest (item r) lx

-- `lexer.by_ref().collect()`, at most `n` calls of `next`; `none` if the stream has not ended by
-- then.
unfoldable pub collect : Tables → ℕ → Lexer → Option (List (Result Token) × Lexer)
collect u zero lx = none
collect u (suc n) lx = answer_then (collect u n) (next_token u lx)
