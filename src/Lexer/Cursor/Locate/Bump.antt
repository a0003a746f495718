-- ===== src/Lexer/Cursor/Locate/Bump.antt =====
-- The position of a cursor is the line and the column of the place where it stands, and bumps keep
-- it so (`bump`, crates/tsql-lexer/src/cursor.rs).
use tsqlremaker.Base.{
  ℕ, ◌+◌, ◌≤◌, ◌<◌, ◌≡◌, ◌⊎◌, inl, inr, refl, sym, ap, ◌∙◌, false, ◌&&◌, [], ◌∷◌, ◌++◌, Option,
  arith, if◌then◌else◌, ◌==◌, Text, len_utf8, byte_len, byte_len-append, len_utf8_bounds,
  append_assoc, u32_mod, Bool-cases, ==_iff, and-eq-true, subst,
}
use tsqlremaker.Token.Position.{Position}
use tsqlremaker.Lexer.Cursor.Place.{place, advance-place, advance-place_crlf, advance-place_nil}
use tsqlremaker.Lexer.Cursor.{Cursor, new, advance, moved, first, at_char}
use tsqlremaker.Lexer.Cursor.Locate.{
  breaks, column_step, column_from, Fits, breaks-append, column_from-append, column_from_bounds,
  breaks-le, moved_offset, moved_line, moved_column,
}

-- What the position `p` behind `read` and before `rest` tells: the line, the column, and the byte
-- offset of `rest`, or one less behind a carriage return with its line feed.
pub record Tells (read rest : Text) (p : Position) : Type 0 where
  pub line_eq : p.line ≡ 1 + breaks read (first rest)
  pub column_eq : p.column ≡ column_from 1 read
  pub offset_eq :
      (p.offset ≡ byte_len read)
      ⊎ ((s : Text) × (read ≡ s ++ b'\r' ∷ b'\n' ∷ []) × (p.offset + 1 ≡ byte_len read))

breaks_one :
    (ch : ℕ) (next : Option ℕ)
    → (ch == b'\r' && at_char b'\n' next) ≡ false
    → breaks (ch ∷ []) next ≡ (if ch == b'\n' then 1 else if ch == b'\r' then 1 else 0)
unfolding breaks
breaks_one ch next plain = ground arith

byte_len-splits :
    {input : Text} (read t rest : Text)
    → input ≡ read ++ (t ++ rest)
    → byte_len input ≡ byte_len read + byte_len t + byte_len rest
byte_len-splits read t rest e =
    ap byte_len e ∙ omega (arith, byte_len-append read (t ++ rest), byte_len-append t rest)

-- The counters have room for one more character.
record Room (p : Position) : Type 0 where
  line_fits : p.line + 1 < u32_mod
  column_pos : 1 ≤ p.column
  column_fits : p.column + 8 < u32_mod

module _ {input : Text} (read : Text) (rest : Text) (p : Position) (fits : Fits input) where
  Tells-Room :
      (t : Text) → input ≡ read ++ (t ++ rest) → 1 ≤ byte_len t → Tells read (t ++ rest) p → Room p
  Tells-Room t e h tells = record {
    line_fits =
        omega
          (arith, byte_len-splits read t rest e, breaks-le read (first (t ++ rest)), tells.line_eq);
    column_pos = omega (arith, (column_from_bounds 1 read (omega arith)).0, tells.column_eq);
    column_fits = omega (
      arith,
      byte_len-splits read t rest e,
      (column_from_bounds 1 read (omega arith)).1,
      tells.column_eq,
    );
  }

  Tells-one :
      (ch : ℕ)
      → input ≡ read ++ ch ∷ rest
      → (ch == b'\r' && at_char b'\n' (first rest)) ≡ false
      → Tells read (ch ∷ rest) p
      → Tells (read ++ ch ∷ []) rest (moved p 8 (byte_len read) ch)
  unfolding byte_len column_from
  Tells-one ch e plain t =
      let size = byte_len-splits read (ch ∷ []) rest e in
      let room = Tells-Room (ch ∷ []) e (omega (arith, len_utf8_bounds ch)) t in
      record {
        line_eq = omega (
          arith,
          moved_line p (byte_len read) ch room.line_fits,
          t.line_eq,
          breaks-append read ch [] (first rest),
          breaks_one ch (first rest) plain,
        );
        column_eq =
            moved_column p (byte_len read) ch room.column_pos room.column_fits
            ∙ ap (column_step ch) t.column_eq
            ∙ sym (column_from-append 1 read (ch ∷ []));
        offset_eq = inl (
            moved_offset p (byte_len read) ch (omega arith)
            ∙ sym (byte_len-append read (ch ∷ []) ∙ omega arith));
      }

  Tells-crlf :
      input ≡ read ++ b'\r' ∷ b'\n' ∷ rest
      → Tells read (b'\r' ∷ b'\n' ∷ rest) p
      → Tells (read ++ b'\r' ∷ b'\n' ∷ []) rest (moved p 8 (byte_len read) b'\r')
  unfolding byte_len column_from column_step breaks len_utf8
  Tells-crlf e t =
      let size = byte_len-splits read (b'\r' ∷ b'\n' ∷ []) rest e in
      let room = Tells-Room (b'\r' ∷ b'\n' ∷ []) e (omega arith) t in
      record {
        line_eq = omega (
          arith,
          moved_line p (byte_len read) b'\r' room.line_fits,
          t.line_eq,
          breaks-append read b'\r' (b'\n' ∷ []) (first rest),
        );
        column_eq =
            moved_column p (byte_len read) b'\r' room.column_pos room.column_fits
            ∙ sym (column_from-append 1 read (b'\r' ∷ b'\n' ∷ []));
        offset_eq = inr (
          read,
          refl,
          omega (
            arith,
            moved_offset p (byte_len read) b'\r' (omega arith),
            byte_len-append read (b'\r' ∷ b'\n' ∷ []),
          ),
        );
      }

-- The cursor stands in `input` behind `read` and before `rest`, and its position tells so.
pub record Placed (input : Text) (c : Cursor) : Type 0 where
  pub read : Text
  pub rest : Text
  pub splits : input ≡ read ++ rest
  pub at_place : c ≡ place input read rest c.position
  pub tells : Tells read rest c.position

pub new-Placed : (input : Text) → Placed input (new input)
unfolding new place breaks column_from byte_len
new-Placed input = record {
  read = [];
  rest = input;
  splits = refl;
  at_place = refl;
  tells = record { line_eq = omega arith; column_eq = refl; offset_eq = inl refl };
}

place-Placed :
    {input : Text} (read rest : Text) {p : Position}
    → input ≡ read ++ rest
    → Tells read rest p
    → Placed input (place input read rest p)
unfolding place
place-Placed read rest e t = record {
  read = read;
  rest = rest;
  splits = e;
  at_place = refl;
  tells = t;
}

module _ {input : Text} (fits : Fits input) (read : Text) (p : Position) where
  bump_one-Placed :
      (ch : ℕ) (rest : Text)
      → (ch == b'\r' && at_char b'\n' (first rest)) ≡ false
      → input ≡ read ++ ch ∷ rest
      → Tells read (ch ∷ rest) p
      → Placed input (advance (place input read (ch ∷ rest) p))
  bump_one-Placed ch rest plain e t = rw (advance-place input read ch rest p plain) (
      place-Placed (read ++ ch ∷ []) rest (e ∙ sym (append_assoc read (ch ∷ []) rest))
        (Tells-one read rest p fits ch e plain t))

  bump_crlf-Placed :
      (ch d : ℕ) (rest : Text)
      → ch ≡ b'\r'
      → d ≡ b'\n'
      → input ≡ read ++ ch ∷ d ∷ rest
      → Tells read (ch ∷ d ∷ rest) p
      → Placed input (advance (place input read (ch ∷ d ∷ rest) p))
  bump_crlf-Placed ch d rest cr lf =
      rw (cr, lf)
        λ e t. rw (advance-place_crlf input read rest p) (
          place-Placed (read ++ b'\r' ∷ b'\n' ∷ []) rest
            (e ∙ sym (append_assoc read (b'\r' ∷ b'\n' ∷ []) rest))
            (Tells-crlf read rest p fits e t))

  bump-Placed :
      (rest : Text)
      → input ≡ read ++ rest
      → Tells read rest p
      → Placed input (advance (place input read rest p))
  bump-Placed [] e t = rw (advance-place_nil input read p) (place-Placed read [] e t)
  bump-Placed (ch ∷ []) e t = bump_one-Placed ch [] (ground arith) e t
  bump-Placed (ch ∷ d ∷ rest) e t = elim (Bool-cases (ch == b'\r' && d == b'\n')) [
    | inl crlf ↦
        bump_crlf-Placed ch d rest ((==_iff ch b'\r').0 (and-eq-true _ _ crlf).0)
          ((==_iff d b'\n').0 (and-eq-true _ _ crlf).1) e t
    | inr plain ↦ bump_one-Placed ch (d ∷ rest) plain e t
  ]

pub advance-Placed :
    {input : Text} → Fits input → (c : Cursor) → Placed input c → Placed input (advance c)
advance-Placed {input} fits c h =
    subst (λ d. Placed input (advance d)) (sym h.at_place)
      (bump-Placed fits h.read c.position h.rest h.splits h.tells)
