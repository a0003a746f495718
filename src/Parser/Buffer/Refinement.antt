-- ===== src/Parser/Buffer/Refinement.antt =====
-- The operations of the token buffer are those of a queue that is followed by ends of the text.
use tsqlremaker.Base.{
  ℕ, zero, suc, ◌+◌, ◌%◌, ◌≤◌, ◌<◌, ◌≡◌, inl, inr, refl, false, ltb, lt→ltb, if◌then◌else◌, some,
  List, [], ◌∷◌, drop, length, get_elem?, arith, Bool-cases, ltb→lt,
}
use tsqlremaker.Token.Kind.{TokenKind}
use tsqlremaker.Token.Tag.{is_kind}
use tsqlremaker.Lexer.Token.{Token}
use tsqlremaker.Lexer.Error as LexErrors
use tsqlremaker.Parser.Error.{ok}
use tsqlremaker.Parser.Buffer.{TokenBuffer, eof_token, slot_token, peek, taken, consume}
use tsqlremaker.Parser.Buffer.Queue.{Holds, taken-Holds}
use tsqlremaker.Parser.Buffer.{check, consume_if, has_kind, consumed, current}

-- The token at `n`, of the tokens to come and the ends behind them.
abbrev pub nth : ℕ → List Token → Token
nth n [] = eof_token
nth zero (t ∷ ts) = t
nth (suc n) (t ∷ ts) = nth n ts

get_elem?-nth : (n : ℕ) (ts : List Token) → n < length ts → get_elem? ts n ≡ some (nth n ts)
get_elem?-nth n [] l = absurd (omega arith)
get_elem?-nth zero (t ∷ ts) l = refl
get_elem?-nth (suc n) (t ∷ ts) l = get_elem?-nth n ts (omega arith)

nth_beyond : (n : ℕ) (ts : List Token) → length ts ≤ n → nth n ts ≡ eof_token
nth_beyond n [] l = refl
nth_beyond zero (t ∷ ts) l = absurd (omega arith)
nth_beyond (suc n) (t ∷ ts) l = nth_beyond n ts (omega arith)

module _ {S : Type 0} (next : S → LexErrors.Result Token × S) where
  -- Behind the ring there is nothing to come, or it is full.
  Holds-outside :
      (b : TokenBuffer S) (ts : List Token) (n : ℕ)
      → Holds next b ts
      → n < 3
      → b.filled ≤ b.cursor + n
      → length ts ≤ n
  Holds-outside b ts n (h, l, f) k o = elim f [
    | inl eof ↦ omega (arith, h.complete eof)
    | inr full ↦ absurd (omega arith)
  ]

  -- While a buffer holds the queue `ts`, `peek n` answers with the token at `n`, for `n` below 3: the
  -- one in the queue, or the end of the text behind them.
  pub peek-Holds :
      (b : TokenBuffer S) (ts : List Token) (n : ℕ)
      → Holds next b ts
      → n < 3
      → peek n b ≡ ok (nth n ts)
  unfolding peek slot_token
  peek-Holds b ts n (h, l, f) k = elim (Bool-cases (ltb (b.cursor + n) b.filled)) [
    | inl e ↦
        let inside : b.cursor + n < b.filled = ltb→lt _ _ e in
        rw (e, h.agrees n inside, get_elem?-nth n ts (omega (arith, h.within)))
    | inr e ↦
        let outside : b.filled ≤ b.cursor + n = ground arith in
        rw (e, nth_beyond n ts (Holds-outside b ts n (h, l, f) k outside))
  ]

  consume-Holds_cons :
      (b : TokenBuffer S) (t : Token) (ts : List Token)
      → Holds next b (t ∷ ts)
      → (b' : TokenBuffer S) × (consume next b ≡ (ok t, b')) × Holds next b' ts
  unfolding consume taken
  consume-Holds_cons b t ts (h, l, f) =
      let inside : b.cursor < b.filled = elim f [
        | inl eof ↦ omega (arith, h.complete eof)
        | inr full ↦ omega arith
      ] in
      let place : b.cursor + 0 ≡ b.cursor = omega arith in
      let first : b.buffer (b.cursor % 3) ≡ some t = rw place at (h.agrees 0 (omega arith)) in
      (_, rw (lt→ltb _ _ inside, first), taken-Holds next b t ts (h, l, f) inside)

  consume-Holds_nil : (b : TokenBuffer S) → Holds next b [] → consume next b ≡ (ok eof_token, b)
  unfolding consume
  consume-Holds_nil b (h, l, f) =
      let empty : ltb b.cursor b.filled ≡ false = ground (arith, h.ordered, h.within) in rw empty

  -- `consume` is the queue's: it answers with the first token to come, or with the end of the text,
  -- and the buffer holds the others after it.
  pub consume-Holds :
      (b : TokenBuffer S) (ts : List Token)
      → Holds next b ts
      → (b' : TokenBuffer S) × (consume next b ≡ (ok (nth 0 ts), b')) × Holds next b' (drop 1 ts)
  consume-Holds b [] h = (b, consume-Holds_nil b h, h)
  consume-Holds b (t ∷ ts) h = consume-Holds_cons b t ts h

  -- `consume_if` takes the first token to come exactly when it is of the kind asked for, and says so.
  pub consume_if-Holds :
      (kind : TokenKind) (b : TokenBuffer S) (ts : List Token)
      → Holds next b ts
      → (b' : TokenBuffer S) × (consume_if next kind b ≡ (ok (is_kind (nth 0 ts).kind kind), b'))
        × Holds next b' (if is_kind (nth 0 ts).kind kind then drop 1 ts else ts)
  unfolding consume_if check current has_kind consumed
  consume_if-Holds kind b ts h =
      let (b', e, h') = consume-Holds b ts h in
      let seen : peek 0 b ≡ ok (nth 0 ts) = peek-Holds b ts 0 h (omega arith) in
      elim (Bool-cases (is_kind (nth 0 ts).kind kind)) [
        | inl same ↦ (b', rw (seen, same, e), rw same h')
        | inr other ↦ (b, rw (seen, other), rw other h)
      ]
