-- ===== src/Lexer/Progress/Fuel.antt =====
-- The fuel of the lexer's loops is enough: each of them comes to an end of its own.
use tsqlremaker.Base.{
  ℕ, suc, ◌-◌, ◌<◌, ◌≡◌, refl, Bool, true, false, ◌&&◌, ◌||◌, not, ◌==◌, Option, none, some, arith,
  if_intro, if_intro_test, is_ascii_digit, is_ascii_alphabetic, and-eq-true, not-eq-true,
}
use tsqlremaker.Base.Loop.{Round, leave, loop, Shrinks, loop-Leaves}
use tsqlremaker.Lexer.Cursor.{Cursor, current, peek, advance, at_char, is_eof, remaining, bump}
use tsqlremaker.Lexer.Cursor.Loop.{passes, bump_if, remaining-advance_lt}
use tsqlremaker.Lexer.Read.Comments.{block_round, line_round}
use tsqlremaker.Lexer.Read.Comments
use tsqlremaker.Lexer.Read.Numbers.{number_round, number_round_at}
use tsqlremaker.Lexer.Read.Numbers
use tsqlremaker.Lexer.Read.Quoted.{quoted_round, unicode_round}
use tsqlremaker.Lexer.Read.Quoted
use tsqlremaker.Lexer.Stream.{sync_round, sync_at}
use tsqlremaker.Lexer.Progress.Ahead.{
  Ahead, here, Ahead-advance, Ahead-if, Ahead-advances, Ahead-le,
}

-- The loop from the state `s`, on a unit of fuel for each character that `cursor s` has to come and
-- one more, came to a round that left it.
abbrev pub Stops {ℓ} : {S : Type ℓ} → (S → Cursor) → (S → Round S) → S → Type ℓ
Stops {S} cursor body s = (u : S) × (body u ≡ leave (loop (suc (remaining (cursor s))) body s))

-- Before the end of the text a bump takes a character.
remaining-advance_open : (c : Cursor) → is_eof c ≡ false → remaining (advance c) < remaining c
unfolding is_eof remaining bump
remaining-advance_open c h = ground arith

-- Further bumps leave no more.
remaining-Ahead_lt :
    (c : Cursor) {d : Cursor}
    → remaining (advance c) < remaining c
    → Ahead (advance c) d
    → remaining d < remaining c
remaining-Ahead_lt c l a = omega (arith, Ahead-le a)

stops {ℓ} :
    {S : Type ℓ} (cursor : S → Cursor) (body : S → Round S) (s : S)
    → ((t : S) → Shrinks (λ u. remaining (cursor u)) (remaining (cursor t)) (body t))
    → Stops cursor body s
stops cursor body s shrinks =
    loop-Leaves (λ u. remaining (cursor u)) body shrinks (suc (remaining (cursor s))) s
      (omega arith)

Shrinks-bump_if :
    (b : Bool) (c : Cursor)
    → remaining (advance c) < remaining c
    → Shrinks remaining (remaining c) (bump_if b c)
Shrinks-bump_if true c l = l
Shrinks-bump_if false c l = tt

passes-Shrinks :
    (test : ℕ → Bool) (c : Cursor) (o : Option ℕ)
    → current c ≡ o
    → Shrinks remaining (remaining c) (bump_if (passes test o) c)
passes-Shrinks test c none h = tt
passes-Shrinks test c (some ch) h = Shrinks-bump_if (test ch) c (remaining-advance_lt c h)

quoted_round-Shrinks :
    (close : ℕ) (s : Quoted.Scan)
    → Shrinks (λ u. remaining u.0) (remaining s.0) (quoted_round close s)
unfolding quoted_round
quoted_round-Shrinks close (c, found) =
    let P = Shrinks (λ (u : Quoted.Scan). remaining u.0) (remaining c) in
    if_intro_test P (is_eof c) (λ e. tt)
      λ e.
        let l = remaining-advance_open c e in
        if_intro P (at_char close (current c))
          (if_intro P (at_char close (peek c)) (remaining-Ahead_lt c l (Ahead-advance here)) tt) l

block_round-Shrinks :
    (s : Comments.Scan) → Shrinks (λ u. remaining u.1) (remaining s.1) (block_round s)
unfolding block_round
block_round-Shrinks (depth, c) =
    let P = Shrinks (λ (u : Comments.Scan). remaining u.1) (remaining c) in
    if_intro_test P (is_eof c) (λ e. tt)
      λ e.
        let l = remaining-advance_open c e in
        let two = remaining-Ahead_lt c l (Ahead-advance here) in
        if_intro P (at_char b'/' (current c) && at_char b'*' (peek c)) two (
          if_intro P (at_char b'*' (current c) && at_char b'/' (peek c))
            (if_intro P (depth - 1 == 0) tt two) l)

line_round-Shrinks : (c : Cursor) → Shrinks remaining (remaining c) (line_round c)
unfolding line_round
line_round-Shrinks c =
    if_intro_test (Shrinks remaining (remaining c))
      (not (is_eof c) && not (at_char b'\n' (current c)))
      (λ e. remaining-advance_open c (not-eq-true _ (and-eq-true _ _ e).0)) λ e. tt

unicode_round-Shrinks :
    (quote : ℕ) (c : Cursor) → Shrinks remaining (remaining c) (unicode_round quote c)
unfolding unicode_round
unicode_round-Shrinks quote c =
    let P = Shrinks remaining (remaining c) in
    if_intro_test P (is_eof c) (λ e. tt)
      λ e.
        let l = remaining-advance_open c e in
        if_intro P (at_char quote (current c))
          (if_intro P (not (at_char quote (peek c))) tt
            (remaining-Ahead_lt c l (Ahead-advance here)))
          (if_intro P (at_char b'\\' (current c))
            (if_intro P (at_char b'+' (current (advance c)))
              (remaining-Ahead_lt c l (Ahead-advances 6 (Ahead-advance here)))
              (remaining-Ahead_lt c l (Ahead-advances 4 here)))
            l)

number_round_at-Shrinks :
    (s : Numbers.Scan) (o : Option ℕ)
    → current s.cursor ≡ o
    → Shrinks (λ u. remaining u.cursor) (remaining s.cursor) (number_round_at o s)
unfolding number_round_at
number_round_at-Shrinks s none h = tt
number_round_at-Shrinks s (some ch) h =
    let P = Shrinks (λ (u : Numbers.Scan). remaining u.cursor) (remaining s.cursor) in
    let l = remaining-advance_lt s.cursor h in
    if_intro P (is_ascii_digit ch) l (
      if_intro P (ch == b'.' && not s.has_dot)
        (if_intro P (not (passes is_ascii_digit (current (advance s.cursor)))) tt l)
        (if_intro P ((ch == b'e' || ch == b'E') && not s.has_exponent)
          (remaining-Ahead_lt s.cursor l (Ahead-if _ (Ahead-advance here) here)) tt))

sync_at-Shrinks :
    (c : Cursor) (o : Option ℕ) → current c ≡ o → Shrinks remaining (remaining c) (sync_at o c)
unfolding sync_at
sync_at-Shrinks c none h = tt
sync_at-Shrinks c (some ch) h =
    let P = Shrinks remaining (remaining c) in
    if_intro P (ch == b';') tt
      (if_intro P (is_ascii_alphabetic ch || ch == b'_') tt (remaining-advance_lt c h))

-- The loops of the lexer, each from a state at the cursor `c`.
abbrev pub AllStop : (ℕ → Bool) → ℕ → ℕ → Bool → Bool → Bool → Cursor → Type 0
AllStop test quote depth found dot exponent c =
    Stops (λ d. d) (λ d. bump_if (passes test (current d)) d) c
    × Stops (λ s. s.0) (quoted_round quote) (c, found)
    × Stops (λ d. d) (unicode_round quote) c
    × Stops (λ s. s.cursor) number_round
        (record { has_dot = dot; has_exponent = exponent; cursor = c })
    × Stops (λ s. s.1) block_round (depth, c)
    × Stops (λ d. d) line_round c
    × Stops (λ d. d) sync_round c

-- Every loop of the lexer, on the fuel that it is given, is left by its own condition or `break`: the
-- loops over names and space, quoted tokens, strings with Unicode escapes, numbers, both kinds of
-- comments, and the one that recovers from an error, from every state.
pub lexer_loops-AllStop :
    (test : ℕ → Bool) (quote depth : ℕ) (found dot exponent : Bool) (c : Cursor)
    → AllStop test quote depth found dot exponent c
unfolding number_round sync_round
lexer_loops-AllStop test quote depth found dot exponent c = (
  stops (λ d. d) _ c (λ d. passes-Shrinks test d (current d) refl),
  stops (λ s. s.0) _ (c, found) (quoted_round-Shrinks quote),
  stops (λ d. d) _ c (unicode_round-Shrinks quote),
  stops (λ s. s.cursor) _ _ (λ s. number_round_at-Shrinks s (current s.cursor) refl),
  stops (λ s. s.1) _ (depth, c) block_round-Shrinks,
  stops (λ d. d) _ c line_round-Shrinks,
  stops (λ d. d) _ c (λ d. sync_at-Shrinks d (current d) refl),
)
