-- ===== src/Lexer/Progress/Readers.antt =====
-- The readers bump, and a reader that returns a token bumps at least once.
use tsqlremaker.Base.{
  ℕ, suc, Bool, true, false, ◌&&◌, not, Option, none, some, Text, ◌==◌, if◌then◌else◌,
}
use tsqlremaker.Base.Loop.{RoundInv, leaving, loop_inv}
use tsqlremaker.Token.Kind.{TokenKind}
use tsqlremaker.Lexer.Cursor.{Cursor, current, advance, remaining}
use tsqlremaker.Lexer.Error.{LexError, Result, ok, err}
use tsqlremaker.Lexer.Token.{Token}
use tsqlremaker.Lexer.Unicode.{Tables}
use tsqlremaker.Lexer.Read.Names.{read_prefixed}
use tsqlremaker.Lexer.Read.Quoted.{
  closed, scan_quoted, quoted_round, unicode_round, read_bracket_ident, read_quoted_ident,
  read_string, read_national_string, read_unicode_string, bracket_at, unicode_at,
}
use tsqlremaker.Lexer.Read.Quoted
use tsqlremaker.Lexer.Read.Numbers.{
  number_round, number_round_at, scan_number, read_number, read_hex_number,
}
use tsqlremaker.Lexer.Read.Numbers
use tsqlremaker.Lexer.Progress.Ahead.{Ahead, here, ahead, Ahead-advance, Ahead-trans}

-- A token was read by a bump at least, an error by any number of bumps.
pub data Reads (c : Cursor) : Result Token × Cursor → Type 0 where
  token : {t : Token} {d : Cursor} → Ahead (advance c) d → Reads c (ok t, d)
  failure : {e : LexError} {d : Cursor} → Ahead c d → Reads c (err e, d)

pub Reads-if :
    (b : Bool) {c : Cursor} {x y : Result Token × Cursor}
    → Reads c x
    → Reads c y
    → Reads c (if b then x else y)
Reads-if true p q = p
Reads-if false p q = q

pub ruleset reads = (ahead, token, failure, Reads-if)

pub read_prefixed-Reads :
    (sigil : ℕ) (k l : TokenKind) (u : Tables) (input : Text) (c : Cursor)
    → Reads c (read_prefixed sigil k l u input c)
unfolding read_prefixed
read_prefixed-Reads sigil k l u input c = search reads

quoted_round-Ahead :
    (close : ℕ) {c : Cursor} (s : Quoted.Scan)
    → Ahead c s.0
    → RoundInv (λ (t : Quoted.Scan). Ahead c t.0) (quoted_round close s)
unfolding quoted_round
quoted_round-Ahead close (d, found) a = search ahead

scan_quoted-Ahead : (close : ℕ) (c : Cursor) → Ahead c (scan_quoted close c).0
unfolding scan_quoted
scan_quoted-Ahead close c =
    loop_inv (λ (t : Quoted.Scan). Ahead c t.0) (quoted_round close) (quoted_round-Ahead close)
      (suc (remaining c)) (c, false) here

closed-Reads :
    (k : TokenKind) (e : LexError) (input : Text) (c : Cursor) (s : Quoted.Scan)
    → Ahead (advance c) s.0
    → Reads c (closed k e input c s)
closed-Reads k e input c (d, true) a = token a
closed-Reads k e input c (d, false) a = failure (Ahead-trans (Ahead-advance here) a)

bracket_at-Reads :
    (o : Option ℕ) (input : Text) (c : Cursor) → Reads c (bracket_at o input c (advance c))
unfolding bracket_at
bracket_at-Reads none input c = token here
bracket_at-Reads (some ch) input c =
    Reads-if (ch == b']') (token here)
      (closed-Reads _ _ input c (scan_quoted b']' (advance c)) (scan_quoted-Ahead b']' (advance c)))

pub read_bracket_ident-Reads : (input : Text) (c : Cursor) → Reads c (read_bracket_ident input c)
unfolding read_bracket_ident
read_bracket_ident-Reads input c = bracket_at-Reads (current (advance c)) input c

pub read_quoted_ident-Reads : (input : Text) (c : Cursor) → Reads c (read_quoted_ident input c)
unfolding read_quoted_ident
read_quoted_ident-Reads input c = closed-Reads _ _ _ _ _ (scan_quoted-Ahead b'"' (advance c))

pub read_string-Reads : (input : Text) (c : Cursor) → Reads c (read_string input c)
unfolding read_string
read_string-Reads input c = closed-Reads _ _ _ _ _ (scan_quoted-Ahead b'\'' (advance c))

pub read_national_string-Reads :
    (input : Text) (c : Cursor) → Reads c (read_national_string input c)
unfolding read_national_string
read_national_string-Reads input c = closed-Reads _ _ _ _ _ (scan_quoted-Ahead b'\'' (advance c))

unicode_round-Ahead :
    (quote : ℕ) {c : Cursor} (d : Cursor) → Ahead c d → RoundInv (Ahead c) (unicode_round quote d)
unfolding unicode_round
unicode_round-Ahead quote d a = search ahead depth 8

unicode_at-Reads :
    (o : Option ℕ) (input : Text) (c : Cursor)
    → Reads c (unicode_at o input c (advance (advance c)))
unfolding unicode_at
unicode_at-Reads none input c = failure (Ahead-advance (Ahead-advance here))
unicode_at-Reads (some quote) input c =
    Reads-if (not (quote == b'\'') && not (quote == b'"'))
      (failure (Ahead-advance (Ahead-advance here)))
      (token (
        loop_inv (Ahead (advance c)) (unicode_round quote) (unicode_round-Ahead quote)
          (suc (remaining (advance (advance (advance c))))) (advance (advance (advance c)))
          (Ahead-advance (Ahead-advance here))))

pub read_unicode_string-Reads : (input : Text) (c : Cursor) → Reads c (read_unicode_string input c)
unfolding read_unicode_string
read_unicode_string-Reads input c = unicode_at-Reads (current (advance (advance c))) input c

pub number_round_at-Ahead :
    (o : Option ℕ) {c : Cursor} (s : Numbers.Scan)
    → Ahead c s.cursor
    → RoundInv (λ (t : Numbers.Scan). Ahead c t.cursor) (number_round_at o s)
unfolding number_round_at
number_round_at-Ahead none s a = leaving a
number_round_at-Ahead (some ch) s a = search ahead depth 8

pub number_round-Ahead :
    {c : Cursor} (s : Numbers.Scan)
    → Ahead c s.cursor
    → RoundInv (λ (t : Numbers.Scan). Ahead c t.cursor) (number_round s)
unfolding number_round
number_round-Ahead s a = number_round_at-Ahead (current s.cursor) s a
