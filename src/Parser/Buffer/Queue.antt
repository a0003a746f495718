-- ===== src/Parser/Buffer/Queue.antt =====
-- The token buffer is a queue of the tokens to come.
use tsqlremaker.Base.{
  ℕ, zero, suc, ◌+◌, ◌-◌, ◌*◌, ◌/◌, ◌%◌, ◌≤◌, ◌<◌, ◌≡◌, ◌⊎◌, inl, inr, refl, sym, ◌∙◌, true, false,
  ◌&&◌, not, ltb, leb, none, some, List, [], ◌∷◌, drop, length, get_elem?, arith, Bool-cases,
  if_intro_test, and-eq-true, not-eq-true, ltb→lt,
}
use tsqlremaker.Token.Kind.{TokenKind}
use tsqlremaker.Token.Tag.{is_kind}
use tsqlremaker.Lexer.Token.{Token}
use tsqlremaker.Lexer.Error as LexErrors
use tsqlremaker.Parser.Buffer.{
  put, TokenBuffer, store, take_in, prefill, new, refill_loop, shift_back, refill_buffer,
}
use tsqlremaker.Parser.Buffer.Ring.{drop-nil, drop-cons, ring-stored, ring-taken, ring-shifted}

module _ {S : Type 0} (next : S → LexErrors.Result Token × S) where
  -- The tokens that the lexer gives from the state on, before its end.
  pub data Yields : S → List Token → Type 0 where
    stops : {s s' : S} {e : LexErrors.LexError} → next s ≡ (LexErrors.err e, s') → Yields s []
    ends :
        {s s' : S} {t : Token}
        → next s ≡ (LexErrors.ok t, s')
        → is_kind t.kind TokenKind.eof ≡ true
        → Yields s []
    yields :
        {s s' : S} {t : Token} {ts : List Token}
        → next s ≡ (LexErrors.ok t, s')
        → is_kind t.kind TokenKind.eof ≡ false
        → Yields s' ts
        → Yields s (t ∷ ts)

  -- The tokens to come are `ts`: the first ones lie in the ring, the lexer is before the others.
  pub record Holding (b : TokenBuffer S) (ts : List Token) : Type 0 where
    pub ordered : b.cursor ≤ b.filled
    pub room : b.filled ≤ b.cursor + 3
    pub agrees : (i : ℕ) → b.cursor + i < b.filled → b.buffer ((b.cursor + i) % 3) ≡ get_elem? ts i
    pub within : b.filled - b.cursor ≤ length ts
    pub complete : b.eof_reached ≡ true → length ts ≤ b.filled - b.cursor
    pub pending : b.eof_reached ≡ false → Yields b.lexer (drop (b.filled - b.cursor) ts)

  -- The ring is full, or it has all that is to come.
  abbrev pub Full : TokenBuffer S → Type 0
  Full b = (b.eof_reached ≡ true) ⊎ (b.filled ≡ b.cursor + 3)

  -- The state between the calls of the parser: the queue of the tokens to come is `ts`.
  abbrev pub Holds : TokenBuffer S → List Token → Type 0
  Holds b ts = Holding b ts × (b.cursor < 3) × Full b

  -- A round of the refill: the end was seen, or there is one token more.
  abbrev Grown : TokenBuffer S → TokenBuffer S → Type 0
  Grown b b' = (b'.cursor ≡ b.cursor) × ((b'.eof_reached ≡ true) ⊎ (b'.filled ≡ b.filled + 1))

  -- The end of the lexer.
  Holding-ended :
      (b : TokenBuffer S) (ts : List Token) (s : S)
      → Holding b ts
      → [] ≡ drop (b.filled - b.cursor) ts
      → Holding (record b { lexer = s; eof_reached = true }) ts
  Holding-ended b ts s h e = record {
    ordered = h.ordered;
    room = h.room;
    agrees = h.agrees;
    within = h.within;
    complete = λ _. drop-nil (b.filled - b.cursor) ts e;
    pending = λ f. absurd (cc);
  }

  Holding-stored :
      (b : TokenBuffer S) (ts : List Token) (s : S) {t : Token} {us : List Token}
      → Holding b ts
      → b.filled < b.cursor + 3
      → b.eof_reached ≡ false
      → (t ∷ us) ≡ drop (b.filled - b.cursor) ts
      → Yields s us
      → Holding
          (record b {
            lexer = s;
            buffer = put (b.filled % 3) (some t) b.buffer;
            filled = b.filled + 1;
          })
          ts
  Holding-stored b ts s {t} {us} h l f e y =
      let (g, d, k) = drop-cons (b.filled - b.cursor) ts e in
      let after : b.filled + 1 - b.cursor ≡ suc (b.filled - b.cursor) = omega (arith, h.ordered) in
      record {
        ordered = omega (arith, h.ordered);
        room = omega arith;
        agrees = ring-stored b.buffer b.cursor b.filled ts h.ordered l h.agrees g;
        within = omega arith;
        complete = λ r. absurd (cc);
        pending = λ _. rw (after, d) y;
      }

  store-Holding :
      (b : TokenBuffer S) (ts : List Token) {us : List Token} (r : LexErrors.Result Token × S)
      → Holding b ts
      → b.filled < b.cursor + 3
      → b.eof_reached ≡ false
      → us ≡ drop (b.filled - b.cursor) ts
      → next b.lexer ≡ r
      → Yields b.lexer us
      → Holding (store r b) ts × Grown b (store r b)
  store-Holding b ts r h l f e n (stops {s' = s'} m) =
      rw (sym n ∙ m) (Holding-ended b ts s' h e, (refl, inl refl))
  store-Holding b ts r h l f e n (ends {s' = s'} {t = t} m eof) =
      rw (sym n ∙ m, eof) (Holding-ended b ts s' h e, (refl, inl refl))
  store-Holding b ts r h l f e n (yields {s' = s'} {t = t} m other y) =
      rw (sym n ∙ m, other) (Holding-stored b ts s' h l f e y, (refl, inr refl))

  take_in-Holding :
      (b : TokenBuffer S) (ts : List Token)
      → Holding b ts
      → b.filled < b.cursor + 3
      → b.eof_reached ≡ false
      → Holding (take_in next b) ts × Grown b (take_in next b)
  unfolding take_in
  take_in-Holding b ts h l f = store-Holding b ts (next b.lexer) h l f refl refl (h.pending f)

  -- The ring was filled up, from the state `b`.
  abbrev FilledUp : TokenBuffer S → List Token → TokenBuffer S → Type 0
  FilledUp b ts b' = Holding b' ts × (b'.cursor ≡ b.cursor) × Full b'

  FilledUp-later :
      (b b' : TokenBuffer S) {b'' : TokenBuffer S} {ts : List Token}
      → b'.cursor ≡ b.cursor
      → FilledUp b' ts b''
      → FilledUp b ts b''
  FilledUp-later b b' c (h, c', f) = (h, c' ∙ c, f)

  refill_loop_ended : (n : ℕ) (b : TokenBuffer S) → b.eof_reached ≡ true → refill_loop next n b ≡ b
  unfolding refill_loop
  refill_loop_ended zero b e = refl
  refill_loop_ended (suc n) b e = rw e

  not_round-Full :
      (b : TokenBuffer S) (ts : List Token)
      → Holding b ts
      → (not b.eof_reached && ltb (b.filled - b.cursor) 3) ≡ false
      → Full b
  not_round-Full b ts h e = elim (Bool-cases b.eof_reached) [
    | inl eof ↦ inl eof
    | inr f ↦ inr (ground (arith, h.ordered, h.room))
  ]

  -- Rounds enough fill the ring.
  refill_loop-FilledUp :
      (n : ℕ) (b : TokenBuffer S) (ts : List Token)
      → Holding b ts
      → b.cursor + 3 < b.filled + n
      → FilledUp b ts (refill_loop next n b)
  unfolding refill_loop
  refill_loop-FilledUp zero b ts h l = absurd (omega (arith, h.room))
  refill_loop-FilledUp (suc n) b ts h l =
      if_intro_test (FilledUp b ts) (not b.eof_reached && ltb (b.filled - b.cursor) 3)
        (λ go.
          let (open_end, short) = and-eq-true _ _ go in
          let space : b.filled < b.cursor + 3 = omega (arith, ltb→lt _ _ short, h.ordered) in
          let (h', (c, g)) = take_in-Holding b ts h space (not-eq-true _ open_end) in
          elim g [
            | inl eof ↦ rw (refill_loop_ended n (take_in next b) eof) (h', c, inl eof)
            | inr more ↦
                FilledUp-later b (take_in next b) c
                  (refill_loop-FilledUp n (take_in next b) ts h' (omega arith))
          ])
        λ stop. (h, refl, not_round-Full b ts h stop)

  -- The loop of `new` fills the ring.
  prefill-FilledUp :
      (n : ℕ) (b : TokenBuffer S) (ts : List Token)
      → Holding b ts
      → b.eof_reached ≡ false
      → b.filled + n ≡ b.cursor + 3
      → FilledUp b ts (prefill next n b)
  unfolding prefill
  prefill-FilledUp zero b ts h f e = (h, refl, inr (omega arith))
  prefill-FilledUp (suc n) b ts h f e =
      let (h', (c, g)) = take_in-Holding b ts h (omega arith) f in
      if_intro_test (FilledUp b ts) (take_in next b).eof_reached (λ eof. (h', c, inl eof))
        λ f'. elim g [
          | inl eof ↦ absurd (cc)
          | inr more ↦
              FilledUp-later b (take_in next b) c
                (prefill-FilledUp n (take_in next b) ts h' f' (omega arith))
        ]

  -- A new buffer holds what its lexer gives.
  pub new-Holds : (lx : S) (ts : List Token) → Yields lx ts → Holds (new next lx) ts
  unfolding new
  new-Holds lx ts y =
      let empty : TokenBuffer S = record {
        lexer = lx;
        buffer = λ i. none;
        cursor = 0;
        filled = 0;
        eof_reached = false;
      } in
      let start : Holding empty ts = record {
        ordered = omega arith;
        room = omega arith;
        agrees = λ i l. absurd (omega arith);
        within = omega arith;
        complete = λ e. absurd (cc);
        pending = λ e. y;
      } in
      let (h, c, f) = prefill-FilledUp 3 empty ts start refl refl in (h, omega arith, f)

  shifted-Holds :
      (b : TokenBuffer S) (ts : List Token)
      → Holding b ts
      → b.cursor ≡ 3
      → Full b
      → Holds (shift_back b) ts
  unfolding shift_back
  shifted-Holds b ts h at f =
      let from : b.cursor - b.cursor / 3 * 3 ≡ 0 = omega arith in
      let to : b.filled - b.cursor / 3 * 3 ≡ b.filled - 3 = omega arith in
      let size : b.filled - b.cursor ≡ b.filled - 3 - 0 = omega arith in
      let over : leb 3 b.cursor ≡ true = ground arith in
      rw (over, from, to)
        (
          record {
            ordered = omega arith;
            room = omega (arith, h.room);
            agrees = ring-shifted b.buffer b.cursor b.filled ts at h.room h.agrees;
            within = omega (arith, h.within);
            complete = λ e. rw size at h.complete e;
            pending = λ e. rw size at h.pending e;
          },
          omega arith,
          elim f [ inl e ↦ inl e | inr e ↦ inr (omega arith) ],
        )

  shift_back-Holds :
      (b : TokenBuffer S) (ts : List Token)
      → Holding b ts
      → b.cursor ≤ 3
      → Full b
      → Holds (shift_back b) ts
  unfolding shift_back
  shift_back-Holds b ts h l f = elim (Bool-cases (leb 3 b.cursor)) [
    | inl over ↦ shifted-Holds b ts h (ground arith) f
    | inr under ↦ rw under (h, ground arith, f)
  ]

  pub taken-Holds :
      (b : TokenBuffer S) (t : Token) (ts : List Token)
      → Holds b (t ∷ ts)
      → b.cursor < b.filled
      → Holds
          (refill_buffer next
            (record b { cursor = b.cursor + 1; buffer = put (b.cursor % 3) none b.buffer }))
          ts
  unfolding refill_buffer
  taken-Holds b t ts (h, l, f) k =
      let b' : TokenBuffer S = record b {
        cursor = b.cursor + 1;
        buffer = put (b.cursor % 3) none b.buffer;
      } in
      let size : b.filled - b.cursor ≡ suc (b.filled - (b.cursor + 1)) = omega arith in
      let rest : Holding b' ts = record {
        ordered = omega arith;
        room = omega (arith, h.room);
        agrees = ring-taken b.buffer b.cursor b.filled t ts h.room h.agrees;
        within = omega (arith, h.within);
        complete = λ e. omega (arith, h.complete e);
        pending = λ e. rw size at h.pending e;
      } in
      let (h', c, f') = refill_loop-FilledUp 4 b' ts rest (omega arith) in
      shift_back-Holds (refill_loop next 4 b') ts h' (omega arith) f'
