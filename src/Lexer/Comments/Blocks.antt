-- ===== src/Lexer/Comments/Blocks.antt =====
-- Block comments nest: the loop ends where the comment does.
use tsqlremaker.Base.{
  ℕ, zero, suc, ◌+◌, ◌-◌, ◌<◌, ◌≡◌, refl, false, ◌&&◌, [], ◌∷◌, ◌++◌, arith, ◌==◌, Text, byte_len,
  length, append_assoc,
}
use tsqlremaker.Base.Loop.{loop}
use tsqlremaker.Token.Position.{Position}
use tsqlremaker.Lexer.Cursor.{advance, at_char, first, moved, remaining}
use tsqlremaker.Lexer.Cursor.Place.{
  place, advance-place, advance-place_crlf, current-place, peek-place, is_eof-place,
  remaining-place,
}
use tsqlremaker.Lexer.Read.Comments.{block_round, scan_block}

-- The text of a comment from inside `k` nested comments in it to its end, the opening `/*` of each
-- closed by a `*/`.
pub data Body : ℕ → Text → Type 0 where
  close : Body 0 (b'*' ∷ b'/' ∷ [])
  closing : {k : ℕ} {t : Text} → Body k t → Body (suc k) (b'*' ∷ b'/' ∷ t)
  opening : {k : ℕ} {t : Text} → Body (suc k) t → Body k (b'/' ∷ b'*' ∷ t)
  line_end : {k : ℕ} {t : Text} → Body k t → Body k (b'\r' ∷ b'\n' ∷ t)
  other :
      {k : ℕ} (c : ℕ) {t : Text}
      → (c == b'/' && at_char b'*' (first t)) ≡ false
      → (c == b'*' && at_char b'/' (first t)) ≡ false
      → (c == b'\r' && at_char b'\n' (first t)) ≡ false
      → Body k t
      → Body k (c ∷ t)

-- The text goes on behind the body, and its first character stays.
Body-first : {k : ℕ} {t : Text} (rest : Text) → Body k t → first (t ++ rest) ≡ first t
Body-first rest close = refl
Body-first rest (closing b) = refl
Body-first rest (opening b) = refl
Body-first rest (line_end b) = refl
Body-first rest (other c o e r b) = refl

-- The loop runs over `t`, at the depth `k + 1`, to its end.
abbrev Runs : Text → ℕ → Text → Type 0
Runs input k t =
    (read rest : Text) (fuel : ℕ) (p : Position)
    → length (t ++ rest) < fuel
    → (q : Position) × (loop fuel block_round (suc k, place input read (t ++ rest) p)
        ≡ (0, place input (read ++ t) rest q))

module _ (input : Text) where
  -- Two characters that a round takes at once.
  advance_two :
      (read : Text) (a b : ℕ) (t : Text) (p : Position)
      → (a == b'\r') ≡ false
      → (b == b'\r') ≡ false
      → advance (advance (place input read (a ∷ b ∷ t) p))
        ≡ place input
            (read ++ a ∷ b ∷ [])
            t
            (moved (moved p 8 (byte_len read) a) 8 (byte_len (read ++ a ∷ [])) b)
  advance_two read a b t p na nb = rw (
    advance-place input read a (b ∷ t) p (rw na),
    advance-place input (read ++ a ∷ []) b t (moved p 8 (byte_len read) a) (rw nb),
    append_assoc read (a ∷ []) (b ∷ []),
  )

  Runs-close : Runs input 0 (b'*' ∷ b'/' ∷ [])
  unfolding loop block_round
  Runs-close read rest zero p h = absurd (omega arith)
  Runs-close read rest (suc fuel) p h = (
    moved (moved p 8 (byte_len read) b'*') 8 (byte_len (read ++ b'*' ∷ [])) b'/',
    rw (
      is_eof-place input read b'*' (b'/' ∷ rest) p,
      current-place input read (b'*' ∷ b'/' ∷ rest) p,
      peek-place input read b'*' (b'/' ∷ rest) p,
      advance_two read b'*' b'/' rest p refl refl,
    ),
  )

  Runs-closing : (k : ℕ) (t : Text) → Runs input k t → Runs input (suc k) (b'*' ∷ b'/' ∷ t)
  unfolding loop block_round
  Runs-closing k t ih read rest zero p h = absurd (omega arith)
  Runs-closing k t ih read rest (suc fuel) p h =
      let less : suc (suc k) - 1 ≡ suc k = omega arith in
      let more : (suc k == 0) ≡ false = ground arith in
      rw
        (
          is_eof-place input read b'*' (b'/' ∷ (t ++ rest)) p,
          current-place input read (b'*' ∷ b'/' ∷ (t ++ rest)) p,
          peek-place input read b'*' (b'/' ∷ (t ++ rest)) p,
          advance_two read b'*' b'/' (t ++ rest) p refl refl,
          less,
          more,
          ← append_assoc read (b'*' ∷ b'/' ∷ []) t,
        )
        (ih (read ++ b'*' ∷ b'/' ∷ []) rest fuel _ (omega arith))

  Runs-opening : (k : ℕ) (t : Text) → Runs input (suc k) t → Runs input k (b'/' ∷ b'*' ∷ t)
  unfolding loop block_round
  Runs-opening k t ih read rest zero p h = absurd (omega arith)
  Runs-opening k t ih read rest (suc fuel) p h =
      let deeper : suc k + 1 ≡ suc (suc k) = omega arith in
      rw
        (
          is_eof-place input read b'/' (b'*' ∷ (t ++ rest)) p,
          current-place input read (b'/' ∷ b'*' ∷ (t ++ rest)) p,
          peek-place input read b'/' (b'*' ∷ (t ++ rest)) p,
          advance_two read b'/' b'*' (t ++ rest) p refl refl,
          deeper,
          ← append_assoc read (b'/' ∷ b'*' ∷ []) t,
        )
        (ih (read ++ b'/' ∷ b'*' ∷ []) rest fuel _ (omega arith))

  Runs-line_end : (k : ℕ) (t : Text) → Runs input k t → Runs input k (b'\r' ∷ b'\n' ∷ t)
  unfolding loop block_round
  Runs-line_end k t ih read rest zero p h = absurd (omega arith)
  Runs-line_end k t ih read rest (suc fuel) p h =
      rw
        (
          is_eof-place input read b'\r' (b'\n' ∷ (t ++ rest)) p,
          current-place input read (b'\r' ∷ b'\n' ∷ (t ++ rest)) p,
          advance-place_crlf input read (t ++ rest) p,
          ← append_assoc read (b'\r' ∷ b'\n' ∷ []) t,
        )
        (ih (read ++ b'\r' ∷ b'\n' ∷ []) rest fuel _ (omega arith))

  Runs-other :
      (k c : ℕ) (t rest : Text)
      → first (t ++ rest) ≡ first t
      → (c == b'/' && at_char b'*' (first t)) ≡ false
      → (c == b'*' && at_char b'/' (first t)) ≡ false
      → (c == b'\r' && at_char b'\n' (first t)) ≡ false
      → Runs input k t
      → (read : Text) (fuel : ℕ) (p : Position) → length (c ∷ (t ++ rest)) < fuel
      → (q : Position) × (loop fuel block_round (suc k, place input read (c ∷ (t ++ rest)) p)
          ≡ (0, place input (read ++ c ∷ t) rest q))
  unfolding loop block_round
  Runs-other k c t rest f o e r ih read zero p h = absurd (omega arith)
  Runs-other k c t rest f o e r ih read (suc fuel) p h =
      rw
        (
          is_eof-place input read c (t ++ rest) p,
          current-place input read (c ∷ (t ++ rest)) p,
          peek-place input read c (t ++ rest) p,
          f,
          o,
          e,
          advance-place input read c (t ++ rest) p (rw f r),
          ← append_assoc read (c ∷ []) t,
        )
        (ih (read ++ c ∷ []) rest fuel _ (omega arith))

  runs : {k : ℕ} {t : Text} → Body k t → Runs input k t
  runs close = Runs-close
  runs (closing {k} {t} b) = Runs-closing k t (runs b)
  runs (opening {k} {t} b) = Runs-opening k t (runs b)
  runs (line_end {k} {t} b) = Runs-line_end k t (runs b)
  runs (other {k} c {t} o e r b) =
      λ read rest. Runs-other k c t rest (Body-first rest b) o e r (runs b) read

-- A block comment ends where its nesting does: from behind the opening `/*`, the loop stops behind
-- the body of the comment, whose inner comments are all closed, at depth 0, whatever text follows.
pub scan_block-Body :
    (input read rest : Text) {t : Text} (p : Position)
    → Body 0 t
    → (q : Position) × (scan_block (place input read (t ++ rest) p)
        ≡ (0, place input (read ++ t) rest q))
unfolding scan_block
scan_block-Body input read rest {t} p b =
    runs input b read rest (suc (remaining (place input read (t ++ rest) p))) p
      (omega (arith, remaining-place input read (t ++ rest) p))
