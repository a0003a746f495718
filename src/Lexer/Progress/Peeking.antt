-- ===== src/Lexer/Progress/Peeking.antt =====
-- `peek` looks at the next token and takes nothing.
use tsqlremaker.Base.{◌≡◌, refl, sym, ap, ◌∙◌, none, some}
use tsqlremaker.Lexer.Error.{ok}
use tsqlremaker.Lexer.Token.{Token}
use tsqlremaker.Lexer.Unicode.{Tables}
use tsqlremaker.Lexer.Stream.{
  Lexer, Answer, next_token, next_token_impl, fuel_for, peek_token, keep_peeked,
}
use tsqlremaker.Lexer.Progress.Termination.{Steps, next_token-Steps, ended, took}

-- The answer of `peek` and those of `next_token`, without it and behind it.
abbrev pub Peeks : Tables → Lexer → Type 0
Peeks u lx =
    (t : Token) × (peeked : Lexer) × (after : Lexer) × (peek_token u lx ≡ some (ok t, peeked))
    × (peek_token u peeked ≡ some (ok t, peeked))
    × (next_token u lx ≡ some (ok t, after))
    × (next_token u peeked ≡ some (ok t, after))

next_token-impl :
    (u : Tables) (lx : Lexer)
    → lx.peek_buffer ≡ none
    → next_token u lx ≡ next_token_impl u (fuel_for lx) lx
unfolding next_token
next_token-impl u lx e = rw e

peek_token-impl :
    (u : Tables) (lx : Lexer)
    → lx.peek_buffer ≡ none
    → peek_token u lx ≡ keep_peeked (next_token_impl u (fuel_for lx) lx)
unfolding peek_token
peek_token-impl u lx e = rw e

-- A lexer with nothing peeked, once its token was peeked and taken.
unpeeked : (lx : Lexer) → lx.peek_buffer ≡ none → record lx { peek_buffer = none } ≡ lx
unpeeked lx e = ap (λ p. record lx { peek_buffer = p }) (sym e)

answer-Peeks :
    (u : Tables) (lx : Lexer) {t : Token} {lx' : Lexer}
    → lx.peek_buffer ≡ none
    → lx'.peek_buffer ≡ none
    → next_token u lx ≡ some (ok t, lx')
    → Peeks u lx
unfolding next_token peek_token
answer-Peeks u lx {t} {lx'} e e' n =
    let found : next_token_impl u (fuel_for lx) lx ≡ some (ok t, lx') =
      sym (next_token-impl u lx e) ∙ n in
    (
      t,
      record lx' { peek_buffer = some (ok t) },
      lx',
      peek_token-impl u lx e ∙ rw found,
      refl,
      n,
      ap (λ x. some (ok t, x)) (unpeeked lx' e'),
    )

Steps-Peeks :
    (u : Tables) (lx : Lexer) (a : Answer)
    → lx.peek_buffer ≡ none
    → next_token u lx ≡ a
    → Steps lx a
    → Peeks u lx
Steps-Peeks u lx _ e n (ended b stop i p) = answer-Peeks u lx e p n
Steps-Peeks u lx _ e n (took b l i p) = answer-Peeks u lx e p n

-- Where nothing is peeked yet, `peek` answers with the token that `next_token` would give, a second
-- `peek` answers the same and changes nothing, and `next_token` behind it gives this token and leaves
-- the lexer that it leaves without the `peek`.
pub peek_token-next_token : (u : Tables) (lx : Lexer) → lx.peek_buffer ≡ none → Peeks u lx
peek_token-next_token u lx e = Steps-Peeks u lx (next_token u lx) e refl (next_token-Steps u lx e)
