-- ===== src/Emitter/Postgres/Reader/Atoms.antt =====
-- PostgreSQL reads the numbers, strings, names and columns that the emitter wrote
-- (crates/postgresql-emitter/src/mappers/expression.rs).
use tsqlremaker.Base.{
  ℕ, ◌≡◌, refl, Bool, true, false, [], ◌∷◌, ◌++◌, ◌==◌, none, some, Text, codes, is_ascii_digit,
  show_i64, arith, pos,
}
use tsqlremaker.Common.Ast.{Literal, Expression, GroupByItem}
use tsqlremaker.Translate.Operators.{new}
use tsqlremaker.Emitter.Reserved.{reserved_words}
use tsqlremaker.Emitter.Quoting.Reading.{missed_words, Readable}
use tsqlremaker.Emitter.Quoting.{is_ascii_lowercase, contains, quote, emit_string}
use tsqlremaker.Emitter.Postgres.Words.{
  emit_literal, emit_unary_op, emit_identifier, emit_qualified_identifier,
}
use tsqlremaker.Emitter.Postgres.Expression.{emit}
use tsqlremaker.Emitter.Postgres.Reader.{strip, starts_word, Reading, read_reference, tight}
use tsqlremaker.Emitter.Postgres.Reader.Words.{
  begins, is_stop, stops, breaks, stops-breaks, is_name_start, quote-start, read_name-quoted,
  read_quoted-doubled, not_quote,
}
use tsqlremaker.Emitter.Postgres.Reader.Numbers.{read_nat-decimal, begins-decimal}
use tsqlremaker.Emitter.Postgres.Reader.Clear as C
use tsqlremaker.Emitter.Postgres.Reader.Clear.{
  IsName, Tight, Clear, Values, tight_size, size, values_size,
}
use tsqlremaker.Emitter.Postgres.Reader.Texts.{text-joined}
use tsqlremaker.Emitter.Postgres.Reader.Steps.{format-onto, tight-digits, tight-name}

strip-other :
    (test : ℕ → Bool) (p : ℕ) (ps s : Text)
    → begins test s ≡ true
    → ((c : ℕ) → test c ≡ true → (c == p) ≡ false)
    → strip (p ∷ ps) s ≡ none
unfolding begins strip
strip-other test p ps [] h k = refl
strip-other test p ps (c ∷ s) h k = rw (k c h) refl

digit_no_n : (c : ℕ) → is_ascii_digit c ≡ true → (c == b'N') ≡ false
digit_no_n c h = ground arith

name_no_n : (c : ℕ) → is_name_start c ≡ true → (c == b'N') ≡ false
unfolding is_name_start starts_word is_ascii_lowercase
name_no_n c h = ground arith

module _ (upper : Text → Text) (debug : GroupByItem → Text) (is_reserved : Text → Bool)
    (listed : (s : Text)
      → is_reserved s ≡ true
      → contains missed_words s ≡ false
      → contains reserved_words (upper s) ≡ true) where
  no_point : (s : Text) → stops s ≡ true → strip (codes ".") s ≡ none
  unfolding strip stops is_stop
  no_point [] h = refl
  no_point (c ∷ s) h = let e : (c == b'.') ≡ false = ground arith in rw e refl

  read_reference-name :
      (n rest : Text)
      → Readable n
      → stops rest ≡ true
      → read_reference is_reserved (quote upper n ++ rest)
        ≡ some (Expression.identifier (new n), rest)
  unfolding read_reference
  read_reference-name n rest r h =
      rw (read_name-quoted upper is_reserved listed n rest r (stops-breaks rest h), no_point rest h)
        refl

  read_reference-column :
      (t c rest : Text)
      → Readable t
      → Readable c
      → stops rest ≡ true
      → read_reference is_reserved (quote upper t ++ (b'.' ∷ (quote upper c ++ rest)))
        ≡ some (Expression.qualified_identifier (new t) (new c), rest)
  unfolding read_reference breaks strip is_stop
  read_reference-column t c rest r r' h =
      rw
        (
          read_name-quoted upper is_reserved listed t (b'.' ∷ (quote upper c ++ rest)) r refl,
          read_name-quoted upper is_reserved listed c rest r' (stops-breaks rest h),
        )
        refl

  -- A tight text does not begin with NOT and a space.
  pub no_not :
      {e : Expression} (d : Tight e) (rest : Text)
      → strip (codes "NOT ") (emit upper debug e ++ rest) ≡ none
  unfolding emit strip emit_literal show_i64 emit_string emit_identifier emit_qualified_identifier
      emit_unary_op
  no_not (C.a_string s) rest = refl
  no_not (C.an_integer n) rest =
      strip-other is_ascii_digit b'N' (codes "OT ") _ (begins-decimal n rest) digit_no_n
  no_not C.a_null rest = refl
  no_not (C.a_boolean false) rest = refl
  no_not (C.a_boolean true) rest = refl
  no_not (C.a_name n (h, r)) rest = rw h (
      strip-other is_name_start b'N' (codes "OT ") _ (quote-start upper is_reserved listed n rest)
        name_no_n)
  no_not (C.a_column t c (h, r) (k, r')) rest =
      rw (h, k)
        (rw (format-onto (quote upper t ∷ codes "." ∷ quote upper c ∷ []) rest) (
          strip-other is_name_start b'N' (codes "OT ") _
            (quote-start upper is_reserved listed t (b'.' ∷ (quote upper c ++ rest))) name_no_n))
  no_not (C.a_plus d) rest = refl
  no_not (C.a_minus d) rest = refl
  no_not (C.an_operation o h l r) rest = rw (text-joined upper debug o _ _ rest) refl

  pub read_integer :
      (operand any : Reading) (n : ℕ) (rest : Text)
      → stops rest ≡ true
      → tight is_reserved operand any
          (emit upper debug (Expression.literal (Literal.integer (pos n))) ++ rest)
        ≡ some (Expression.literal (Literal.integer (pos n)), rest)
  unfolding emit emit_literal show_i64
  read_integer operand any n rest h =
      rw (tight-digits is_reserved operand any _ (begins-decimal n rest), read_nat-decimal n rest h)
        refl

  pub read_string :
      (operand any : Reading) (s rest : Text)
      → stops rest ≡ true
      → tight is_reserved operand any
          (emit upper debug (Expression.literal (Literal.string s)) ++ rest)
        ≡ some (Expression.literal (Literal.string s), rest)
  unfolding emit emit_literal emit_string tight starts_word is_ascii_lowercase
  read_string operand any s rest h =
      rw (read_quoted-doubled b'\'' s rest (not_quote b'\'' rest refl (stops-breaks rest h))) refl

  pub read_identifier :
      (operand any : Reading) (n rest : Text)
      → IsName n
      → stops rest ≡ true
      → tight is_reserved operand any (emit upper debug (Expression.identifier (new n)) ++ rest)
        ≡ some (Expression.identifier (new n), rest)
  unfolding emit emit_identifier
  read_identifier operand any n rest (k, r) h = rw k (
      rw (tight-name is_reserved operand any _ (quote-start upper is_reserved listed n rest))
        (read_reference-name n rest r h))

  pub read_column :
      (operand any : Reading) (t c rest : Text)
      → IsName t
      → IsName c
      → stops rest ≡ true
      → tight is_reserved operand any
          (emit upper debug (Expression.qualified_identifier (new t) (new c)) ++ rest)
        ≡ some (Expression.qualified_identifier (new t) (new c), rest)
  unfolding emit emit_identifier emit_qualified_identifier
  read_column operand any t c rest (k, r) (k', r') h =
      rw (k, k')
        (rw (format-onto (quote upper t ∷ codes "." ∷ quote upper c ∷ []) rest) (
          rw
            (tight-name is_reserved operand any _
              (quote-start upper is_reserved listed t (b'.' ∷ (quote upper c ++ rest))))
            (read_reference-column t c rest r r' h)))
