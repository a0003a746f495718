-- ===== src/Lexer/Literals/Scan.antt =====
-- The loop over a quoted token reads an escaped text to its end.
use tsqlremaker.Base.{
  ℕ, zero, suc, ◌+◌, ◌<◌, ◌≡◌, refl, sym, ap, ◌∙◌, Bool, true, false, ◌&&◌, [], ◌∷◌, ◌++◌, arith,
  if◌then◌else◌, ◌==◌, Text, byte_len, len_utf8, u32, ◌-◌, length, length-append, append_assoc,
  Bool-cases, inl, inr, ==_iff, ==_refl, and-eq-true, if_intro_test,
}
use tsqlremaker.Base.Loop.{leave, again, loop}
use tsqlremaker.Token.Position.{Position}
use tsqlremaker.Lexer.Cursor.{advance, at_char, first, moved, remaining}
use tsqlremaker.Lexer.Cursor.Place.{
  place, advance-place, advance-place_crlf, current-place, peek-place, is_eof-place,
  remaining-place, byte_len-snoc, moved-offset,
}
use tsqlremaker.Lexer.Read.Quoted.{quoted_round, scan_quoted}

-- The text with each closing character doubled.
unfoldable pub escape : ℕ → Text → Text
escape close [] = []
escape close (c ∷ s) = if c == close then close ∷ close ∷ escape close s else c ∷ escape close s

-- The body of a token that ends at `close`: what is no closing character, and doubled ones.
pub data Escaped (close : ℕ) : Text → Type 0 where
  nil : Escaped close []
  doubled : {t : Text} → Escaped close t → Escaped close (close ∷ close ∷ t)
  other : (c : ℕ) {t : Text} → (c == close) ≡ false → Escaped close t → Escaped close (c ∷ t)

pub escape-Escaped : (close : ℕ) (s : Text) → Escaped close (escape close s)
unfolding escape
escape-Escaped close [] = nil
escape-Escaped close (c ∷ s) =
    if_intro_test (Escaped close) (c == close) (λ e. doubled (escape-Escaped close s))
      λ e. other c e (escape-Escaped close s)

and-false : (b : Bool) → (b && false) ≡ false
and-false true = refl
and-false false = refl

module _ (close : ℕ) (input : Text) (no_cr : (close == b'\r') ≡ false)
    (no_lf : (close == b'\n') ≡ false) where
  -- The rounds of the loop, by what stands at the cursor.
  round_close :
      (read rest : Text) (p : Position)
      → at_char close (first rest) ≡ false
      → quoted_round close (place input read (close ∷ rest) p, false)
        ≡ leave (place input (read ++ close ∷ []) rest (moved p 8 (byte_len read) close), true)
  unfolding quoted_round
  round_close read rest p h = rw (
    is_eof-place input read close rest p,
    current-place input read (close ∷ rest) p,
    peek-place input read close rest p,
    ==_refl close,
    h,
    advance-place input read close rest p (rw no_cr),
  )

  round_doubled :
      (read rest : Text) (p : Position)
      → quoted_round close (place input read (close ∷ close ∷ rest) p, false)
        ≡ again (
          place input
              (read ++ close ∷ close ∷ [])
              rest
              (moved (moved p 8 (byte_len read) close) 8 (byte_len (read ++ close ∷ [])) close),
          false,
        )
  unfolding quoted_round
  round_doubled read rest p = rw (
    is_eof-place input read close (close ∷ rest) p,
    current-place input read (close ∷ close ∷ rest) p,
    peek-place input read close (close ∷ rest) p,
    ==_refl close,
    advance-place input read close (close ∷ rest) p (rw no_cr),
    advance-place input (read ++ close ∷ []) close rest (moved p 8 (byte_len read) close)
        (rw no_cr),
    append_assoc read (close ∷ []) (close ∷ []),
  )

  round_other :
      (read : Text) (c : ℕ) (rest : Text) (p : Position)
      → (c == close) ≡ false
      → quoted_round close (place input read (c ∷ rest) p, false)
        ≡ again (advance (place input read (c ∷ rest) p), false)
  unfolding quoted_round
  round_other read c rest p h =
      rw (is_eof-place input read c rest p, current-place input read (c ∷ rest) p, h)

  -- The offset of `q` is the end of `all`, in `u32`.
  abbrev pub EndsAt : Text → Position → Type 0
  EndsAt all q = q.offset ≡ u32 (u32 (byte_len all - len_utf8 close) + len_utf8 close)

  EndsAt-close :
      (read : Text) (p : Position) → EndsAt (read ++ close ∷ []) (moved p 8 (byte_len read) close)
  EndsAt-close read p =
      let size : byte_len (read ++ close ∷ []) - len_utf8 close ≡ byte_len read =
        omega (arith, byte_len-snoc read close) in
      moved-offset p 8 (byte_len read) close
      ∙ ap (λ (n : ℕ). u32 (u32 n + len_utf8 close)) (sym size)

  module _ (rest : Text) (open_end : at_char close (first rest) ≡ false) where
    -- From any place before the body `t` the loop runs to behind the closing character.
    abbrev Runs : Text → Type 0
    Runs t =
        (read : Text) (fuel : ℕ) (p : Position)
        → length t + 1 < fuel
        → (q : Position) × (loop fuel (quoted_round close)
              (place input read (t ++ close ∷ rest) p, false)
            ≡ (place input (read ++ (t ++ close ∷ [])) rest q, true))
          × EndsAt (read ++ (t ++ close ∷ [])) q

    Runs-nil : Runs []
    unfolding loop
    Runs-nil read zero p h = absurd (omega arith)
    Runs-nil read (suc fuel) p h = (
      moved p 8 (byte_len read) close,
      rw (round_close read rest p open_end),
      EndsAt-close read p,
    )

    Runs-doubled : (t : Text) → Runs t → Runs (close ∷ close ∷ t)
    unfolding loop
    Runs-doubled t ih read zero p h = absurd (omega arith)
    Runs-doubled t ih read (suc fuel) p h =
        rw
          (
            round_doubled read (t ++ close ∷ rest) p,
            ← append_assoc read (close ∷ close ∷ []) (t ++ close ∷ []),
          )
          (ih (read ++ close ∷ close ∷ []) fuel _ (omega arith))

    Runs-one :
        (c : ℕ) (t : Text)
        → (c == close) ≡ false
        → (c == b'\r' && at_char b'\n' (first (t ++ close ∷ rest))) ≡ false
        → Runs t
        → Runs (c ∷ t)
    unfolding loop
    Runs-one c t e plain ih read zero p h = absurd (omega arith)
    Runs-one c t e plain ih read (suc fuel) p h =
        rw
          (
            round_other read c (t ++ close ∷ rest) p e,
            advance-place input read c (t ++ close ∷ rest) p plain,
            ← append_assoc read (c ∷ []) (t ++ close ∷ []),
          )
          (ih (read ++ c ∷ []) fuel _ (omega arith))

    Runs-crlf : (t : Text) → (b'\r' == close) ≡ false → Runs t → Runs (b'\r' ∷ b'\n' ∷ t)
    unfolding loop
    Runs-crlf t e ih read zero p h = absurd (omega arith)
    Runs-crlf t e ih read (suc fuel) p h =
        rw
          (
            round_other read b'\r' (b'\n' ∷ (t ++ close ∷ rest)) p e,
            advance-place_crlf input read (t ++ close ∷ rest) p,
            ← append_assoc read (b'\r' ∷ b'\n' ∷ []) (t ++ close ∷ []),
          )
          (ih (read ++ b'\r' ∷ b'\n' ∷ []) fuel _ (omega arith))

    Runs-two :
        (c d : ℕ) (t : Text)
        → (c == close) ≡ false
        → (c == b'\r' && d == b'\n') ≡ true
        → Runs t
        → Runs (c ∷ d ∷ t)
    Runs-two c d t e both ih =
        let cr : c ≡ b'\r' = (==_iff c b'\r').0 (and-eq-true _ _ both).0 in
        let lf : d ≡ b'\n' = (==_iff d b'\n').0 (and-eq-true _ _ both).1 in
        rw (cr, lf) (Runs-crlf t (rw cr at e) ih)

    runs : {t : Text} → Escaped close t → Runs t
    runs nil = Runs-nil
    runs (doubled {t} x) = Runs-doubled t (runs x)
    runs (other c e nil) = Runs-one c [] e (rw no_lf (and-false (c == b'\r'))) Runs-nil
    runs (other c e (doubled {t} x)) =
        Runs-one c (close ∷ close ∷ t) e (rw no_lf (and-false (c == b'\r')))
          (Runs-doubled t (runs x))
    runs (other c e (other d {t} e' x)) = elim (Bool-cases (c == b'\r' && d == b'\n')) [
      | inl both ↦ Runs-two c d t e both (runs x)
      | inr plain ↦ Runs-one c (d ∷ t) e plain (runs (other d e' x))
    ]

    -- Behind the opening character of a token: `scan_quoted` finds the end of the body `t`.
    pub scan_quoted-Escaped :
        {t : Text}
        → Escaped close t
        → (read : Text) (p : Position)
        → (q : Position) × (scan_quoted close (place input read (t ++ close ∷ rest) p)
            ≡ (place input (read ++ (t ++ close ∷ [])) rest q, true))
          × EndsAt (read ++ (t ++ close ∷ [])) q
    unfolding scan_quoted
    scan_quoted-Escaped {t} x read p =
        runs x read (suc (remaining (place input read (t ++ close ∷ rest) p))) p (
          omega (
            arith,
            remaining-place input read (t ++ close ∷ rest) p,
            length-append t (close ∷ rest),
          ))
