-- ===== src/Lexer/Progress/Tokens.antt =====
-- Every arm of the match of `next_token_impl` reads.
use tsqlremaker.Base.{
  ℕ, ◌≡◌, refl, Bool, true, false, ◌&&◌, ◌||◌, not, Option, none, some, Text, ◌==◌, if◌then◌else◌,
  is_ascii_digit, is_ascii_hexdigit, arith, and-eq-true,
}
use tsqlremaker.Base.Loop.{again, loop, loop_inv}
use tsqlremaker.Token.Kind.{TokenKind}
use tsqlremaker.Lexer.Cursor.{Cursor, current, peek, advance, at_char, remaining}
use tsqlremaker.Lexer.Cursor.Loop.{bump_while, bump_if, passes}
use tsqlremaker.Lexer.Error.{Result}
use tsqlremaker.Lexer.Token.{Token}
use tsqlremaker.Lexer.Unicode.{Tables, is_alphanumeric}
use tsqlremaker.Lexer.Read.Names.{
  is_ident_start, is_ident_part, read_ident_or_keyword, read_at_variable, read_hash_temp,
}
use tsqlremaker.Lexer.Read.Numbers.{
  number_round, number_round_at, scan_number, read_number, read_hex_number,
}
use tsqlremaker.Lexer.Read.Numbers
use tsqlremaker.Lexer.Read.Symbols.{
  read_plus, read_minus, read_star, read_slash, read_percent, read_less_than, read_greater_than,
  read_bang, read_pipe, read_dot, single_kind, read_single,
}
use tsqlremaker.Lexer.Stream.{read_token, read_word, or_word}
use tsqlremaker.Lexer.Progress.Ahead.{Ahead, here, Ahead-advance, bump_while-Ahead, bump_if-Ahead}
use tsqlremaker.Lexer.Progress.Readers.{
  Reads, token, failure, Reads-if, reads, read_prefixed-Reads, read_bracket_ident-Reads,
  read_quoted_ident-Reads, read_string-Reads, read_national_string-Reads, read_unicode_string-Reads,
  number_round-Ahead,
}

-- A loop whose first character passes its test bumps.
bump_while-Ahead_first :
    (test : ℕ → Bool) (c : Cursor) {ch : ℕ}
    → current c ≡ some ch
    → test ch ≡ true
    → Ahead (advance c) (bump_while test c)
unfolding bump_while loop
bump_while-Ahead_first test c h t =
    rw (h, t)
      (loop_inv (Ahead (advance c)) (λ e. bump_if (passes test (current e)) e)
        (λ e a. bump_if-Ahead (passes test (current e)) a) (remaining c) (advance c) here)

number_round_digit :
    (s : Numbers.Scan) {ch : ℕ}
    → current s.cursor ≡ some ch
    → is_ascii_digit ch ≡ true
    → number_round s ≡ again (record s { cursor = advance s.cursor })
unfolding number_round number_round_at
number_round_digit s h t = rw (h, t)

scan_number-Ahead_first :
    (c : Cursor) {ch : ℕ}
    → current c ≡ some ch
    → is_ascii_digit ch ≡ true
    → Ahead (advance c) (scan_number c).cursor
unfolding scan_number loop
scan_number-Ahead_first c h t =
    let start : Numbers.Scan = record { has_dot = false; has_exponent = false; cursor = c } in
    rw (number_round_digit start h t) (
      loop_inv (λ (s : Numbers.Scan). Ahead (advance c) s.cursor) number_round number_round-Ahead
        (remaining c) _ here)

read_number-Reads :
    (input : Text) (c : Cursor) {ch : ℕ}
    → current c ≡ some ch
    → is_ascii_digit ch ≡ true
    → Reads c (read_number input c)
unfolding read_number read_hex_number
read_number-Reads input c h t =
    Reads-if (at_char b'0' (current c) && at_char b'x' (peek c))
      (token (bump_while-Ahead is_ascii_hexdigit (Ahead-advance here)))
      (token (scan_number-Ahead_first c h t))

read_less_than-Reads : (c : Cursor) → Reads c (read_less_than c)
unfolding read_less_than
read_less_than-Reads c = search reads depth 8

read_bang-Reads : (c : Cursor) → Reads c (read_bang c)
unfolding read_bang
read_bang-Reads c = search reads depth 8

ident_start-part : (u : Tables) (ch : ℕ) → is_ident_start u ch ≡ true → is_ident_part u ch ≡ true
unfolding is_ident_start is_ident_part is_alphanumeric
ident_start-part u ch h = ground arith

read_ident-Reads :
    (u : Tables) (input : Text) (c : Cursor) {ch : ℕ}
    → current c ≡ some ch
    → is_ident_start u ch ≡ true
    → Reads c (read_ident_or_keyword u input c.position c)
unfolding read_ident_or_keyword
read_ident-Reads u input c {ch} h t =
    token (bump_while-Ahead_first (is_ident_part u) c h (ident_start-part u ch t))

-- The test of the branch is at hand in it.
Reads-test :
    (b : Bool) {c : Cursor} {x y : Result Token × Cursor}
    → (b ≡ true → Reads c x)
    → Reads c y
    → Reads c (if b then x else y)
Reads-test true p q = p refl
Reads-test false p q = q

read_word-Reads :
    (u : Tables) (input : Text) (c : Cursor) (ch : ℕ)
    → current c ≡ some ch
    → Reads c (read_word u input ch c)
unfolding read_word
read_word-Reads u input c ch h =
    Reads-if ((ch == b'U' || ch == b'u') && at_char b'&' (peek c))
      (read_unicode_string-Reads input c)
      (Reads-if ((ch == b'N' || ch == b'n') && at_char b'\'' (peek c))
        (read_national_string-Reads input c)
        (Reads-test (is_ident_start u ch && not (ch == b'N' || ch == b'n'))
          (λ t. read_ident-Reads u input c h (and-eq-true _ _ t).0)
          (Reads-test (is_ident_start u ch && (ch == b'N' || ch == b'n'))
            (λ t.
              Reads-if (not (at_char b'\'' (peek c)))
                (read_ident-Reads u input c h (and-eq-true _ _ t).0) (failure here))
            (failure here))))

or_word-Reads :
    (o : Option TokenKind) (ch : ℕ) (c : Cursor) (w : Result Token × Cursor)
    → Reads c w
    → Reads c (or_word o ch c w)
unfolding read_single
or_word-Reads none ch c w r = r
or_word-Reads (some k) ch c w r = token here

symbols-Reads :
    (c : Cursor)
    → Reads c (read_plus c)
      × Reads c (read_minus c)
      × Reads c (read_star c)
      × Reads c (read_slash c)
      × Reads c (read_percent c)
      × Reads c (read_greater_than c)
      × Reads c (read_pipe c)
      × Reads c (read_dot c)
unfolding read_plus read_minus read_star read_slash read_percent read_greater_than read_pipe
    read_dot
symbols-Reads c = (
  Reads-if (at_char b'=' (current (advance c))) (token (Ahead-advance here)) (token here),
  Reads-if (at_char b'=' (current (advance c))) (token (Ahead-advance here)) (token here),
  Reads-if (at_char b'=' (current (advance c))) (token (Ahead-advance here)) (token here),
  Reads-if (at_char b'=' (current (advance c))) (token (Ahead-advance here)) (token here),
  token here,
  Reads-if (at_char b'=' (current (advance c))) (token (Ahead-advance here)) (token here),
  Reads-if (at_char b'|' (current (advance c))) (token (Ahead-advance here)) (token here),
  Reads-if (at_char b'.' (current (advance c))) (token (Ahead-advance here)) (token here),
)

pub read_token-Reads :
    (u : Tables) (input : Text) (c : Cursor) (ch : ℕ)
    → current c ≡ some ch
    → Reads c (read_token u input ch c)
unfolding read_token read_at_variable read_hash_temp
read_token-Reads u input c ch h = Reads-if (ch == b'@') (read_prefixed-Reads b'@' _ _ u input c) (
    Reads-if (ch == b'#') (read_prefixed-Reads b'#' _ _ u input c) (
      Reads-if (ch == b'[') (read_bracket_ident-Reads input c) (
        Reads-if (ch == b'"') (read_quoted_ident-Reads input c) (
          Reads-if (ch == b'\'') (read_string-Reads input c) (
            Reads-test (is_ascii_digit ch) (λ t. read_number-Reads input c h t)
              (Reads-if (ch == b'+') ((symbols-Reads c).0) (
                Reads-if (ch == b'-') ((symbols-Reads c).1) (
                  Reads-if (ch == b'*') ((symbols-Reads c).2) (
                    Reads-if (ch == b'/') ((symbols-Reads c).3) (
                      Reads-if (ch == b'%') ((symbols-Reads c).4) (
                        Reads-if (ch == b'<') (read_less_than-Reads c) (
                          Reads-if (ch == b'>') ((symbols-Reads c).5) (
                            Reads-if (ch == b'!') (read_bang-Reads c) (
                              Reads-if (ch == b'|') ((symbols-Reads c).6) (
                                Reads-if (ch == b'.') ((symbols-Reads c).7) (
                                  or_word-Reads (single_kind ch) ch c _
                                    (read_word-Reads u input c ch h)))))))))))))))))
