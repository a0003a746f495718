-- ===== src/Lexer/Progress/Termination.antt =====
-- `next_token` returns on every text, and each token but the last takes a character at least.
use tsqlremaker.Base.{
  ℕ, zero, suc, ◌≤◌, ◌<◌, ◌≡◌, refl, ◌∙◌, true, ◌&&◌, Option, none, some, List, [], ◌∷◌, ◌==◌, ltb,
  arith, if_intro, if_intro_test, length,
}
use tsqlremaker.Token.Tag.{is_kind, tag}
use tsqlremaker.Lexer.Cursor.{Cursor, current, peek, advance, at_char, is_eof, remaining, bump}
use tsqlremaker.Lexer.Cursor.Loop.{remaining-advance_lt}
use tsqlremaker.Lexer.Error.{Result, ok, err, unterminated_block_comment}
use tsqlremaker.Lexer.Token
use tsqlremaker.Lexer.Token.{Token}
use tsqlremaker.Lexer.Unicode.{Tables}
use tsqlremaker.Lexer.Read.Comments.{scan_block, scan_line}
use tsqlremaker.Lexer.Stream.{
  Lexer, Answer, with_cursor, skip_whitespace, skip_newlines, read_block_comment, read_line_comment,
  read_token, recover, map_answer, next_at, next_behind_space, peeked_or, take_peeked,
  next_token_impl, fuel_for, next_token, item, cons_item, item_then, answer_then, collect,
}
use tsqlremaker.Lexer.Progress.Ahead.{
  Ahead, here, Ahead-advance, Ahead-trans, Ahead-le, Ahead-if, bump_while-Ahead,
}
use tsqlremaker.Lexer.Progress.Readers.{Reads, token, failure}
use tsqlremaker.Lexer.Progress.Scans.{scan_block-Ahead, scan_line-Ahead, synchronize-Ahead}
use tsqlremaker.Lexer.Progress.Tokens.{read_token-Reads}

-- A bump at the end of the text leaves nothing behind it, and elsewhere takes a character.
remaining-advance_below : (c : Cursor) (n : ℕ) → remaining c ≤ n → 0 < n → remaining (advance c) < n
unfolding remaining bump
remaining-advance_below c n h p = ground arith

-- What a call of `next_token` in the state `lx` answers: the end of the text, or a token and fewer
-- characters to come. What the lexer does not read it leaves as it was.
pub data Steps (lx : Lexer) : Answer → Type 0 where
  ended :
      {lx' : Lexer}
      → Ahead lx.cursor lx'.cursor
      → is_eof lx'.cursor ≡ true
      → lx'.input ≡ lx.input
      → lx'.peek_buffer ≡ none
      → Steps lx (some (ok (Token.eof lx'.cursor.position), lx'))
  took :
      {t : Token} {lx' : Lexer}
      → Ahead lx.cursor lx'.cursor
      → remaining lx'.cursor < remaining lx.cursor
      → lx'.input ≡ lx.input
      → lx'.peek_buffer ≡ none
      → Steps lx (some (ok t, lx'))

module _ (lx : Lexer) (empty : lx.peek_buffer ≡ none) where
  recover-Steps :
      (p : Result Token × Cursor) {ch : ℕ}
      → current lx.cursor ≡ some ch
      → Reads lx.cursor p
      → Steps lx (some (recover lx.cursor (with_cursor lx p)))
  unfolding recover
  recover-Steps _ h (token a) =
      took (Ahead-trans (Ahead-advance here) a)
        (omega (arith, Ahead-le a, remaining-advance_lt lx.cursor h)) refl empty
  recover-Steps _ h (failure {d} a) =
      took (Ahead-trans (Ahead-advance a) (synchronize-Ahead d))
        (omega (
          arith,
          Ahead-le (synchronize-Ahead d),
          Ahead-le a,
          remaining-advance_lt lx.cursor h,
          remaining-advance_below d (remaining lx.cursor),
        ))
        refl empty

  -- The answer of a later call is an answer of this one.
  Steps-later :
      {lx' : Lexer} {a : Answer}
      → Ahead lx.cursor lx'.cursor
      → lx'.input ≡ lx.input
      → Steps lx' a
      → Steps lx (map_answer (recover lx.cursor) a)
  unfolding recover
  Steps-later b i (ended a e j p) = ended (Ahead-trans b a) e (j ∙ i) p
  Steps-later b i (took a l j p) = took (Ahead-trans b a) (omega (arith, Ahead-le b)) (j ∙ i) p

  module _ (next : Lexer → Answer)
      (later : (lx' : Lexer)
        → remaining lx'.cursor < remaining lx.cursor
        → lx'.peek_buffer ≡ none
        → Steps lx' (next lx'))
      {ch : ℕ} (h : current lx.cursor ≡ some ch) where
    -- Past a comment the call goes on from a cursor ahead.
    skipped-Steps :
        (c : Cursor)
        → Ahead (advance lx.cursor) c
        → Steps lx (map_answer (recover lx.cursor) (next (record lx { cursor = c })))
    skipped-Steps c a = Steps-later (Ahead-trans (Ahead-advance here) a) refl (
        later (record lx { cursor = c })
          (omega (arith, Ahead-le a, remaining-advance_lt lx.cursor h)) empty)

    read_block_comment-Steps :
        Steps lx (map_answer (recover lx.cursor) (read_block_comment next lx))
    unfolding read_block_comment
    read_block_comment-Steps =
        let P = λ (a : Answer). Steps lx (map_answer (recover lx.cursor) a) in
        let s = scan_block (advance (advance lx.cursor)) in
        let a : Ahead (advance lx.cursor) s.1 =
          Ahead-trans (Ahead-advance here) (scan_block-Ahead (advance (advance lx.cursor))) in
        if_intro P (ltb 0 s.0)
          (recover-Steps (err (unterminated_block_comment lx.cursor.position s.0 none), s.1) h
            (failure (Ahead-trans (Ahead-advance here) a)))
          (if_intro P lx.preserve_comments (recover-Steps (ok _, s.1) h (token a))
            (skipped-Steps s.1 a))

    read_line_comment-Steps : Steps lx (map_answer (recover lx.cursor) (read_line_comment next lx))
    unfolding read_line_comment
    read_line_comment-Steps =
        let P = λ (a : Answer). Steps lx (map_answer (recover lx.cursor) a) in
        let c = scan_line (advance (advance lx.cursor)) in
        let a : Ahead (advance lx.cursor) c =
          Ahead-trans (Ahead-advance here) (scan_line-Ahead (advance (advance lx.cursor))) in
        if_intro P lx.preserve_comments (recover-Steps (ok _, c) h (token a))
          (skipped-Steps _ (Ahead-if (at_char b'\n' (current c)) (Ahead-advance a) a))

    next_at-Steps : (u : Tables) → Steps lx (next_at u next lx ch)
    unfolding next_at
    next_at-Steps u =
        let P = λ (a : Answer). Steps lx (map_answer (recover lx.cursor) a) in
        if_intro P (ch == b'/' && at_char b'*' (peek lx.cursor)) read_block_comment-Steps (
          if_intro P (ch == b'-' && at_char b'-' (peek lx.cursor)) read_line_comment-Steps (
            recover-Steps (read_token u lx.input ch lx.cursor) h
              (read_token-Reads u lx.input lx.cursor ch h)))

is_eof-current : (c : Cursor) → current c ≡ none → is_eof c ≡ true
unfolding current is_eof
is_eof-current c h = ground arith

next_behind_space-Steps :
    (u : Tables) (next : Lexer → Answer) (lx : Lexer)
    → lx.peek_buffer ≡ none
    → ((lx' : Lexer)
        → remaining lx'.cursor < remaining lx.cursor
        → lx'.peek_buffer ≡ none
        → Steps lx' (next lx'))
    → (o : Option ℕ) → current lx.cursor ≡ o
    → Steps lx (next_behind_space u next lx o)
unfolding next_behind_space
next_behind_space-Steps u next lx empty later none h =
    rw (is_eof-current lx.cursor h) (ended here (is_eof-current lx.cursor h) refl empty)
next_behind_space-Steps u next lx empty later (some ch) h =
    if_intro_test (Steps lx) (is_eof lx.cursor) (λ e. ended here e refl empty)
      (λ e. next_at-Steps lx empty next later h u)

-- The skipped space is part of what the call takes.
Steps-space :
    {lx : Lexer} {c : Cursor} {a : Answer}
    → Ahead lx.cursor c
    → Steps (record lx { cursor = c }) a
    → Steps lx a
Steps-space b (ended a e j p) = ended (Ahead-trans b a) e j p
Steps-space b (took a l j p) = took (Ahead-trans b a) (omega (arith, Ahead-le b)) j p

space-Ahead : (c : Cursor) → Ahead c (skip_newlines (skip_whitespace c))
unfolding skip_newlines skip_whitespace
space-Ahead c = bump_while-Ahead _ (bump_while-Ahead _ here)

peeked_or-Steps :
    (o : Option (Result Token)) (impl : Lexer → Answer) (lx : Lexer)
    → o ≡ none
    → Steps lx (impl lx)
    → Steps lx (peeked_or o impl lx)
peeked_or-Steps none impl lx e s = s
peeked_or-Steps (some r) impl lx e s = cc

take_peeked-Steps :
    (impl : Lexer → Answer) (lx : Lexer)
    → lx.peek_buffer ≡ none
    → Steps lx (impl lx)
    → Steps lx (take_peeked impl lx)
take_peeked-Steps impl lx e s = peeked_or-Steps lx.peek_buffer impl lx e s

next_token_impl-Steps :
    (u : Tables) (fuel : ℕ) (lx : Lexer)
    → remaining lx.cursor < fuel
    → lx.peek_buffer ≡ none
    → Steps lx (next_token_impl u fuel lx)
unfolding next_token_impl
next_token_impl-Steps u zero lx h e = absurd (omega arith)
next_token_impl-Steps u (suc fuel) lx h e =
    let c = skip_newlines (skip_whitespace lx.cursor) in
    Steps-space (space-Ahead lx.cursor) (
      next_behind_space-Steps u (take_peeked (next_token_impl u fuel)) (record lx { cursor = c }) e
        (λ lx' l e'.
          take_peeked-Steps (next_token_impl u fuel) lx' e'
            (next_token_impl-Steps u fuel lx' (omega (arith, Ahead-le (space-Ahead lx.cursor))) e'))
        (current c) refl)

-- Where nothing is peeked, `next_token` answers on every text with the fuel that it is given: either
-- with the token of the end, and then the cursor is at the end, or with a token that takes a
-- character at least. The cursor is moved by bumps alone, the text of the lexer stays, and nothing is
-- peeked.
pub next_token-Steps :
    (u : Tables) (lx : Lexer) → lx.peek_buffer ≡ none → Steps lx (next_token u lx)
unfolding next_token
next_token-Steps u lx e =
    take_peeked-Steps (next_token_impl u (fuel_for lx)) lx e
      (next_token_impl-Steps u (fuel_for lx) lx (omega arith) e)

-- The stream came to its end within the calls, with a list of at most `n` items.
abbrev pub Ends : ℕ → Option (List (Result Token) × Lexer) → Type 0
Ends n o = (rs : List (Result Token)) × (last : Lexer) × (o ≡ some (rs, last)) × (length rs ≤ n)

cons_item-Ends :
    (r : Result Token) (n m : ℕ) (o : Option (List (Result Token) × Lexer))
    → n < m
    → Ends n o
    → Ends m (cons_item r o)
cons_item-Ends r n m o l (rs, last, e, h) = (r ∷ rs, last, rw e, omega arith)

item_then-Ends :
    (rest : Lexer → Option (List (Result Token) × Lexer)) (o : Option (Result Token)) (lx : Lexer)
    (m : ℕ)
    → remaining lx.cursor < m
    → Ends (remaining lx.cursor) (rest lx)
    → Ends m (item_then rest o lx)
item_then-Ends rest none lx m l h = ([], lx, refl, omega arith)
item_then-Ends rest (some r) lx m l h = cons_item-Ends r (remaining lx.cursor) m (rest lx) l h

answer_then-Ends :
    (lx : Lexer) (rest : Lexer → Option (List (Result Token) × Lexer)) (a : Answer)
    → Steps lx a
    → ((lx' : Lexer)
        → remaining lx'.cursor < remaining lx.cursor
        → lx'.peek_buffer ≡ none
        → Ends (remaining lx'.cursor) (rest lx'))
    → Ends (remaining lx.cursor) (answer_then rest a)
unfolding is_kind tag Token.eof
answer_then-Ends lx rest _ (ended {lx'} a e i p) k = ([], lx', refl, omega arith)
answer_then-Ends lx rest _ (took {t} {lx'} a l i p) k =
    item_then-Ends rest (item (ok t)) lx' (remaining lx.cursor) l (k lx' l p)

-- The stream of tokens ends: where nothing is peeked, as many calls as there are characters to come
-- and one more make it a whole list, and the list has at most one item for each character.
pub collect-Ends :
    (u : Tables) (n : ℕ) (lx : Lexer)
    → remaining lx.cursor < n
    → lx.peek_buffer ≡ none
    → Ends (remaining lx.cursor) (collect u n lx)
unfolding collect
collect-Ends u zero lx h e = absurd (omega arith)
collect-Ends u (suc n) lx h e =
    answer_then-Ends lx (collect u n) (next_token u lx) (next_token-Steps u lx e)
      λ lx' l e'. collect-Ends u n lx' (omega arith) e'
