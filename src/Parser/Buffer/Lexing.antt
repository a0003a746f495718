-- ===== src/Parser/Buffer/Lexing.antt =====
-- The token buffer before the lexer: its queue is what the iteration over the lexer collects.
use tsqlremaker.Base.{
  ℕ, zero, suc, ◌≤◌, ◌<◌, ◌≡◌, refl, true, false, none, some, List, [], ◌∷◌, map, length, arith,
  Bool-cases, inl, inr,
}
use tsqlremaker.Token.Kind.{TokenKind}
use tsqlremaker.Token.Tag.{is_kind, tag}
use tsqlremaker.Lexer.Cursor.{remaining}
use tsqlremaker.Lexer.Token.{Token}
use tsqlremaker.Lexer.Token
use tsqlremaker.Lexer.Error.{Result, ok}
use tsqlremaker.Lexer.Unicode.{Tables}
use tsqlremaker.Lexer.Stream.{Lexer, Answer, next_token, collect}
use tsqlremaker.Lexer.Progress.Termination.{Steps, next_token-Steps, ended, took}
use tsqlremaker.Parser.Buffer.{new}
use tsqlremaker.Parser.Buffer.Queue.{Yields, ends, yields, Holds, new-Holds}

-- The answer of a call. `next_token` has one, so the first clause is not used.
abbrev pub answered : Answer → Lexer → Result Token × Lexer
answered none lx = (ok (Token.eof lx.cursor.position), lx)
answered (some a) lx = a

-- `lexer.next_token()`, as the token buffer calls it.
unfoldable pub lexer_next : Tables → Lexer → Result Token × Lexer
lexer_next u lx = answered (next_token u lx) lx

-- The tokens `ts` are those that the lexer yields, and those that an iteration of at most `n` calls
-- collects. There is at most one for each character to come.
abbrev pub Collects : Tables → ℕ → Lexer → List Token → Type 0
Collects u n lx ts =
    Yields (lexer_next u) lx ts
    × ((last : Lexer) × (collect u n lx ≡ some (map ok ts, last)))
    × (length ts ≤ remaining lx.cursor)

module _ (u : Tables) (n : ℕ) (lx : Lexer) where
  ended-Collects :
      {lx' : Lexer} {t : Token}
      → next_token u lx ≡ some (ok t, lx')
      → is_kind t.kind TokenKind.eof ≡ true
      → Collects u (suc n) lx []
  unfolding lexer_next collect
  ended-Collects {lx'} {t} e k = (ends {s' = lx'} {t = t} (rw e) k, (lx', rw (e, k)), omega arith)

  took-Collects :
      {lx' : Lexer} {t : Token} (ts : List Token)
      → next_token u lx ≡ some (ok t, lx')
      → is_kind t.kind TokenKind.eof ≡ false
      → remaining lx'.cursor < remaining lx.cursor
      → Collects u n lx' ts
      → Collects u (suc n) lx (t ∷ ts)
  unfolding lexer_next collect
  took-Collects {lx'} {t} ts e k l (y, (last, c), s) =
      (yields {s' = lx'} {t = t} (rw e) k y, (last, rw (e, k, c)), omega arith)

  answer-Collects :
      (a : Answer)
      → next_token u lx ≡ a
      → Steps lx a
      → ((lx' : Lexer)
          → remaining lx'.cursor < remaining lx.cursor
          → lx'.peek_buffer ≡ none
          → (ts : List Token) × Collects u n lx' ts)
      → (ts : List Token) × Collects u (suc n) lx ts
  unfolding is_kind tag Token.eof
  answer-Collects _ e (ended a stop i p) later = ([], ended-Collects e refl)
  answer-Collects _ e (took {t} {lx'} a l i p) later =
      let (ts, c) = later lx' l p in
      elim (Bool-cases (is_kind t.kind TokenKind.eof)) [
        | inl end ↦ ([], ended-Collects e end)
        | inr other ↦ (t ∷ ts, took-Collects ts e other l c)
      ]

lexer-Collects :
    (u : Tables) (n : ℕ) (lx : Lexer)
    → remaining lx.cursor < n
    → lx.peek_buffer ≡ none
    → (ts : List Token) × Collects u n lx ts
lexer-Collects u zero lx h e = absurd (omega arith)
lexer-Collects u (suc n) lx h e =
    answer-Collects u n lx (next_token u lx) refl (next_token-Steps u lx e)
      λ lx' l e'. lexer-Collects u n lx' (omega arith) e'

-- A token buffer before a lexer with nothing peeked holds the tokens that the iteration over the
-- lexer collects, with as many calls as there are characters to come and one more: there is such a
-- list, of at most one token for each character.
pub new-Holds_collected :
    (u : Tables) (lx : Lexer)
    → lx.peek_buffer ≡ none
    → (ts : List Token) × Holds (lexer_next u) (new (lexer_next u) lx) ts
      × Collects u (suc (remaining lx.cursor)) lx ts
new-Holds_collected u lx e =
    let (ts, c) = lexer-Collects u (suc (remaining lx.cursor)) lx (omega arith) e in
    (ts, new-Holds (lexer_next u) lx ts c.0, c)
