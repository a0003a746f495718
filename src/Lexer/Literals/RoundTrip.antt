-- ===== src/Lexer/Literals/RoundTrip.antt =====
-- A literal that is printed by doubling its quotes lexes to one token with that text.
use tsqlremaker.Base.{
  ℕ, ◌+◌, ◌-◌, ◌≤◌, ◌<◌, ◌≡◌, refl, ap, ◌∙◌, false, [], ◌∷◌, ◌++◌, arith, ◌==◌, Text, byte_len,
  len_utf8, byte_len-append, append_assoc, slice, slice-append, u32, u32_mod, none,
}
use tsqlremaker.Token.Kind.{TokenKind}
use tsqlremaker.Token.Position.{Position}
use tsqlremaker.Lexer.Cursor.{first, at_char, advance, moved}
use tsqlremaker.Lexer.Cursor.Place.{place, advance-place, position-place}
use tsqlremaker.Lexer.Error.{
  ok, LexError, unterminated_string, unterminated_identifier, double_quote,
}
use tsqlremaker.Lexer.Token
use tsqlremaker.Lexer.Token.{Token}
use tsqlremaker.Lexer.Read.Quoted.{
  closed, scan_quoted, read_string, read_quoted_ident, read_national_string,
}
use tsqlremaker.Lexer.Literals.Scan.{Escaped, nil, escape, escape-Escaped, scan_quoted-Escaped}

-- The slice from the start of the token `token`, behind `read`, to its end.
slice_token :
    (input read token rest : Text) (p q : Position)
    → input ≡ read ++ (token ++ rest)
    → p.offset ≡ byte_len read
    → q.offset ≡ byte_len (read ++ token)
    → slice p.offset q.offset input ≡ token
slice_token input read token rest p q e b f =
    rw (e, b, f, byte_len-append read token) (slice-append read token rest)

-- An offset that counts in `u32` is the offset, in a text that is short enough.
offset_in_u32 : (n k offset : ℕ) → k ≤ n → n < u32_mod → offset ≡ u32 (u32 (n - k) + k) → offset ≡ n
offset_in_u32 n k offset h l e = omega arith

module _ (open_ch close : ℕ) (kind : TokenKind) (error : LexError) (input read t rest : Text)
    (p : Position) (fits : byte_len input < u32_mod)
    (at : input ≡ read ++ open_ch ∷ (t ++ close ∷ rest)) (synced : p.offset ≡ byte_len read) where
  stops :
      (q : Position)
      → input ≡ read ++ ((open_ch ∷ (t ++ close ∷ [])) ++ rest)
      → q.offset
        ≡ u32
            (u32 (byte_len (read ++ open_ch ∷ (t ++ close ∷ [])) - len_utf8 close) + len_utf8 close)
      → q.offset ≡ byte_len (read ++ open_ch ∷ (t ++ close ∷ []))
  unfolding byte_len
  stops q whole ends =
      let token = open_ch ∷ (t ++ close ∷ []) in
      let size : byte_len (read ++ token) ≡ byte_len read + byte_len token =
        byte_len-append read token in
      let last : byte_len (t ++ close ∷ []) ≡ byte_len t + byte_len (close ∷ []) =
        byte_len-append t (close ∷ []) in
      offset_in_u32 (byte_len (read ++ token)) (len_utf8 close) q.offset (omega arith)
        (omega (
          arith,
          ap byte_len whole,
          byte_len-append read (token ++ rest),
          byte_len-append token rest,
        ))
        ends

  -- A reader that bumps over the opening character and scans for the closing one.
  closed_lem :
      (open_ch == b'\r') ≡ false
      → (close == b'\r') ≡ false
      → (close == b'\n') ≡ false
      → at_char close (first rest) ≡ false
      → Escaped close t
      → (q : Position) × (closed kind error input
            (place input read (open_ch ∷ (t ++ close ∷ rest)) p)
            (scan_quoted close (advance (place input read (open_ch ∷ (t ++ close ∷ rest)) p)))
          ≡ (
            ok (Token.new kind (open_ch ∷ (t ++ close ∷ [])) p),
            place input (read ++ (open_ch ∷ (t ++ close ∷ []))) rest q,
          ))
  closed_lem no_cr no_cr' no_lf open_end x =
      let token = open_ch ∷ (t ++ close ∷ []) in
      let behind = moved p 8 (byte_len read) open_ch in
      let (q, run, ends) =
        scan_quoted-Escaped close input no_cr' no_lf rest open_end x (read ++ open_ch ∷ [])
          behind in
      let regroup : read ++ open_ch ∷ [] ++ (t ++ close ∷ []) ≡ read ++ token =
        append_assoc read (open_ch ∷ []) (t ++ close ∷ []) in
      let whole : input ≡ read ++ (token ++ rest) = at ∙ rw (append_assoc t (close ∷ []) rest) in
      let stop : q.offset ≡ byte_len (read ++ token) = stops q whole (rw regroup at ends) in
      (
        q,
        rw (
          advance-place input read open_ch (t ++ close ∷ rest) p (rw no_cr),
          run,
          regroup,
          position-place input read (open_ch ∷ (t ++ close ∷ rest)) p,
          position-place input (read ++ token) rest q,
          slice_token input read token rest p q whole synced stop,
        ),
      )

-- The text of a string literal: its quotes doubled, between quotes.
abbrev pub quote : ℕ → Text → Text
quote q s = q ∷ (escape q s ++ q ∷ [])

module _ (input read s rest : Text) (p : Position) (fits : byte_len input < u32_mod) where
  -- The string literal that stands for `s` is read as one token with its whole text, whatever line
  -- ends `s` has, unless a quote follows it: at a cursor whose offset is that of its place, in a text
  -- of less than 2 ^ 32 bytes.
  pub read_string-quote :
      input ≡ read ++ (quote b'\'' s ++ rest)
      → p.offset ≡ byte_len read
      → at_char b'\'' (first rest) ≡ false
      → (q : Position) × (read_string input (place input read (quote b'\'' s ++ rest) p) ≡ (
        ok (Token.new TokenKind.string (quote b'\'' s) p),
        place input (read ++ quote b'\'' s) rest q,
      ))
  unfolding read_string
  read_string-quote at synced open_end =
      let body = escape b'\'' s in
      let regroup : quote b'\'' s ++ rest ≡ b'\'' ∷ (body ++ b'\'' ∷ rest) =
        ap (◌∷◌ b'\'') (append_assoc body (b'\'' ∷ []) rest) in
      let start = place input read (b'\'' ∷ (body ++ b'\'' ∷ rest)) p in
      rw regroup (
        closed_lem b'\'' b'\'' TokenKind.string (unterminated_string start.position b'\'' none)
          input read body rest p fits (rw regroup at at) synced refl refl refl open_end
          (escape-Escaped b'\'' s))

  -- The quoted identifier that stands for `s` is read as one token with its whole text, whatever line
  -- ends `s` has, unless a double quote follows it: at a cursor whose offset is that of its place, in
  -- a text of less than 2 ^ 32 bytes.
  pub read_quoted_ident-quote :
      input ≡ read ++ (quote b'"' s ++ rest)
      → p.offset ≡ byte_len read
      → at_char b'"' (first rest) ≡ false
      → (q : Position) × (read_quoted_ident input (place input read (quote b'"' s ++ rest) p) ≡ (
        ok (Token.new TokenKind.quoted_ident (quote b'"' s) p),
        place input (read ++ quote b'"' s) rest q,
      ))
  unfolding read_quoted_ident
  read_quoted_ident-quote at synced open_end =
      let body = escape b'"' s in
      let regroup : quote b'"' s ++ rest ≡ b'"' ∷ (body ++ b'"' ∷ rest) =
        ap (◌∷◌ b'"') (append_assoc body (b'"' ∷ []) rest) in
      let start = place input read (b'"' ∷ (body ++ b'"' ∷ rest)) p in
      rw regroup (
        closed_lem b'"' b'"' TokenKind.quoted_ident
          (unterminated_identifier start.position double_quote none) input read body rest p fits
          (rw regroup at at) synced refl refl refl open_end (escape-Escaped b'"' s))

  -- `read_national_string` takes the opening quote for the closing one: where a quote and no second
  -- one stand behind the first character, which is no carriage return, the token is this character
  -- and the quote, and the text behind is left to the next tokens. The offset at the cursor is that
  -- of its place, and the text has less than 2 ^ 32 bytes.
  pub read_national_string_cut :
      (n : ℕ)
      → (n == b'\r') ≡ false
      → input ≡ read ++ n ∷ b'\'' ∷ rest
      → p.offset ≡ byte_len read
      → at_char b'\'' (first rest) ≡ false
      → (q : Position) × (read_national_string input (place input read (n ∷ b'\'' ∷ rest) p) ≡ (
        ok (Token.new TokenKind.nstring (n ∷ b'\'' ∷ []) p),
        place input (read ++ n ∷ b'\'' ∷ []) rest q,
      ))
  unfolding read_national_string
  read_national_string_cut n no_cr at synced open_end =
      let start = place input read (n ∷ b'\'' ∷ rest) p in
      closed_lem n b'\'' TokenKind.nstring (unterminated_string start.position b'\'' none) input
        read [] rest p fits at synced no_cr refl refl open_end nil
