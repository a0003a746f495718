-- ===== src/Lexer/Comments/Lines.antt =====
-- A line comment in a text with Windows line ends.
use tsqlremaker.Base.{
  ℕ, zero, suc, ◌<◌, ◌≡◌, refl, Bool, true, false, ◌&&◌, [], ◌∷◌, ◌++◌, arith, ◌==◌, Text, length,
  append_assoc, append-nil,
}
use tsqlremaker.Base.Loop.{again, loop}
use tsqlremaker.Token.Position.{Position}
use tsqlremaker.Lexer.Cursor.{advance, at_char, first, remaining}
use tsqlremaker.Lexer.Cursor.Place.{
  place, advance-place, advance-place_crlf, current-place, is_eof-place, is_eof-place_nil,
  remaining-place,
}
use tsqlremaker.Lexer.Read.Comments.{line_round, scan_line}

-- Every line feed of the text stands behind a carriage return.
pub data CrLfOnly : Text → Type 0 where
  nil : CrLfOnly []
  crlf : {t : Text} → CrLfOnly t → CrLfOnly (b'\r' ∷ b'\n' ∷ t)
  other : (c : ℕ) {t : Text} → (c == b'\n') ≡ false → CrLfOnly t → CrLfOnly (c ∷ t)

-- The loop of a line comment runs from before `t` to the end of the input.
abbrev Swallows : Text → Type 0
Swallows t =
    (input read : Text) (fuel : ℕ) (p : Position)
    → length t < fuel
    → (q : Position) × (loop fuel line_round (place input read t p) ≡ place input (read ++ t) [] q)

line_round_on :
    (input read : Text) (c : ℕ) (t : Text) (p : Position)
    → (c == b'\n') ≡ false
    → line_round (place input read (c ∷ t) p) ≡ again (advance (place input read (c ∷ t) p))
unfolding line_round
line_round_on input read c t p e =
    rw (is_eof-place input read c t p, current-place input read (c ∷ t) p, e)

Swallows-nil : Swallows []
unfolding loop line_round
Swallows-nil input read zero p h = absurd (omega arith)
Swallows-nil input read (suc fuel) p h = (p, rw (is_eof-place_nil input read p, append-nil read))

Swallows-crlf : (t : Text) → Swallows t → Swallows (b'\r' ∷ b'\n' ∷ t)
unfolding loop
Swallows-crlf t ih input read zero p h = absurd (omega arith)
Swallows-crlf t ih input read (suc fuel) p h =
    rw
      (
        line_round_on input read b'\r' (b'\n' ∷ t) p refl,
        advance-place_crlf input read t p,
        ← append_assoc read (b'\r' ∷ b'\n' ∷ []) t,
      )
      (ih input (read ++ b'\r' ∷ b'\n' ∷ []) fuel _ (omega arith))

Swallows-other :
    (c : ℕ) (t : Text)
    → (c == b'\n') ≡ false
    → (c == b'\r' && at_char b'\n' (first t)) ≡ false
    → Swallows t
    → Swallows (c ∷ t)
unfolding loop
Swallows-other c t e plain ih input read zero p h = absurd (omega arith)
Swallows-other c t e plain ih input read (suc fuel) p h =
    rw
      (
        line_round_on input read c t p e,
        advance-place input read c t p plain,
        ← append_assoc read (c ∷ []) t,
      )
      (ih input (read ++ c ∷ []) fuel _ (omega arith))

no_line_feed : {t : Text} → CrLfOnly t → at_char b'\n' (first t) ≡ false
no_line_feed nil = refl
no_line_feed (crlf x) = refl
no_line_feed (other c e x) = e

and-false : (b c : Bool) → c ≡ false → (b && c) ≡ false
and-false true c e = e
and-false false c e = refl

swallows : {t : Text} → CrLfOnly t → Swallows t
swallows nil = Swallows-nil
swallows (crlf {t} x) = Swallows-crlf t (swallows x)
swallows (other c {t} e x) =
    Swallows-other c t e (and-false (c == b'\r') _ (no_line_feed x)) (swallows x)

-- The text of a line comment goes on to the end of the input if each line of the input ends with a
-- carriage return and a line feed: the bump over the carriage return takes the line feed, which the
-- loop waits for.
pub scan_line-CrLfOnly :
    (input read : Text) {t : Text} (p : Position)
    → CrLfOnly t
    → (q : Position) × (scan_line (place input read t p) ≡ place input (read ++ t) [] q)
unfolding scan_line
scan_line-CrLfOnly input read {t} p x =
    swallows x input read (suc (remaining (place input read t p))) p
      (omega (arith, remaining-place input read t p))
