-- ===== src/Emitter/Postgres/Reader/RoundTrip.antt =====
-- PostgreSQL reads the expression that the emitter wrote
-- (crates/postgresql-emitter/src/mappers/expression.rs).
use tsqlremaker.Base.{
  ℕ, zero, suc, ◌<◌, ◌≡◌, ◌∙◌, Bool, true, false, ◌∷◌, ◌++◌, some, Text, codes, arith,
}
use tsqlremaker.Common.Ast.{UnaryOperator, Expression, Expressions, GroupByItem}
use tsqlremaker.Emitter.Reserved.{reserved_words}
use tsqlremaker.Emitter.Quoting.Reading.{missed_words}
use tsqlremaker.Emitter.Quoting.{contains}
use tsqlremaker.Emitter.Postgres.Words.{join}
use tsqlremaker.Emitter.Postgres.Expression.{emit, emit_each}
use tsqlremaker.Emitter.Postgres.Reader.{read_tight, read_any, read_values}
use tsqlremaker.Emitter.Postgres.Reader.Words.{stops}
use tsqlremaker.Emitter.Postgres.Reader.Clear as C
use tsqlremaker.Emitter.Postgres.Reader.Clear.{Tight, Clear, Values, tight_size, size, values_size}
use tsqlremaker.Emitter.Postgres.Reader.Steps.{
  Ends, a_close, a_comma, an_operator, Ends-stops, tail-Ends,
}
use tsqlremaker.Emitter.Postgres.Reader.Texts.{
  text-unary_op, text-joined, text-is_null, text-between, text-in_list, text-last, text-more,
}
use tsqlremaker.Emitter.Postgres.Reader.Atoms.{
  read_integer, read_string, read_identifier, read_column,
}
use tsqlremaker.Emitter.Postgres.Reader.Tails.{
  read_joined-steps, read_range-steps, read_among-steps, tail-is_null, tail-between, tail-in_list,
  space_stops, neg_stops, read_last, read_more, read_constant, read_null, read_plus, read_minus,
  read_parens, read_any-tail, read_not,
}

module _ (upper : Text → Text) (debug : GroupByItem → Text) (is_reserved : Text → Bool)
    (listed : (s : Text)
      → is_reserved s ≡ true
      → contains missed_words s ≡ false
      → contains reserved_words (upper s) ≡ true) where
  mutual
    unfolding read_tight tight_size size values_size

    tight_read :
        {e : Expression} (d : Tight e) (f : ℕ) (rest : Text)
        → tight_size d < f
        → stops rest ≡ true
        → read_tight is_reserved f (emit upper debug e ++ rest) ≡ some (e, rest)
    tight_read d zero rest l h = absurd (omega arith)
    tight_read (C.a_string s) (suc f) rest l h =
        read_string upper debug is_reserved listed _ _ s rest h
    tight_read (C.an_integer n) (suc f) rest l h =
        read_integer upper debug is_reserved listed _ _ n rest h
    tight_read C.a_null (suc f) rest l h = read_null upper debug is_reserved listed _ _ rest
    tight_read (C.a_boolean b) (suc f) rest l h =
        read_constant upper debug is_reserved listed _ _ b rest
    tight_read (C.a_name n k) (suc f) rest l h =
        read_identifier upper debug is_reserved listed _ _ n rest k h
    tight_read (C.a_column t c k k') (suc f) rest l h =
        read_column upper debug is_reserved listed _ _ t c rest k k' h
    tight_read (C.a_plus {e = e} d) (suc f) rest l h =
        rw (text-unary_op upper debug UnaryOperator.plus e rest) (
          read_plus upper debug is_reserved listed _ _ e _ rest
            (tight_read d f rest (omega arith) h))
    tight_read (C.a_minus {e = e} d) (suc f) rest l h =
        rw (text-unary_op upper debug UnaryOperator.minus e rest) (
          read_minus upper debug is_reserved listed _ _ e _ rest
            (tight_read d f rest (omega arith) h))
    tight_read (C.an_operation {l = x} {r = y} o fit c c') (suc f) rest l h =
        rw (text-joined upper debug o x y rest) (
          read_parens upper debug is_reserved listed _ _ _
          ∙ read_joined-steps (read_any is_reserved f) o x y (emit upper debug x)
              (emit upper debug y) rest fit
              (any_read c f _ (omega arith) (an_operator o (emit upper debug y ++ (b')' ∷ rest))))
              (any_read c' f _ (omega arith) (a_close rest)))

    any_read :
        {e : Expression} (d : Clear e) (f : ℕ) (rest : Text)
        → size d < f
        → Ends rest
        → read_any is_reserved f (emit upper debug e ++ rest) ≡ some (e, rest)
    any_read d zero rest l h = absurd (omega arith)
    any_read (C.tight {e = e} d) (suc f) rest l h =
        read_any-tail upper debug is_reserved listed d f rest
          (tight_read d f rest (omega arith) (Ends-stops h))
        ∙ tail-Ends _ _ e h
    any_read (C.a_negation {e = e} d) (suc f) rest l h =
        rw (text-unary_op upper debug UnaryOperator.not e rest)
          (read_not upper debug is_reserved listed f e _ rest (any_read d f rest (omega arith) h))
    any_read (C.a_null_test {e = e} negated d) (suc f) rest l h =
        rw (text-is_null upper debug e negated rest) (
          read_any-tail upper debug is_reserved listed d f _
            (tight_read d f _ (omega arith) (space_stops _))
          ∙ tail-is_null _ _ e negated rest)
    any_read (C.a_range {e = e} {low = x} {high = y} negated d low high) (suc f) rest l h =
        rw (text-between upper debug e x y negated rest) (
          read_any-tail upper debug is_reserved listed d f _
            (tight_read d f _ (omega arith) (space_stops _))
          ∙ tail-between _ _ e negated _ _ (
              read_range-steps (read_tight is_reserved f) e x y negated (emit upper debug x)
                (emit upper debug y) rest (tight_read low f _ (omega arith) (space_stops _))
                (tight_read high f rest (omega arith) (Ends-stops h))))
    any_read (C.a_choice {e = e} {es = es} negated d ds) (suc f) rest l h =
        rw (text-in_list upper debug e es negated rest) (
          read_any-tail upper debug is_reserved listed d f _
            (tight_read d f _ (omega arith) (neg_stops negated _))
          ∙ tail-in_list _ _ e negated _ _ (
              read_among-steps (read_values is_reserved f) e es negated
                (join (codes ", ") (emit_each upper debug es)) rest
                (each_read ds f rest (omega arith))))

    each_read :
        {es : Expressions} (ds : Values es) (f : ℕ) (rest : Text)
        → values_size ds < f
        → read_values is_reserved f (join (codes ", ") (emit_each upper debug es) ++ (b')' ∷ rest))
          ≡ some (es, b')' ∷ rest)
    each_read ds zero rest l = absurd (omega arith)
    each_read (C.last_value {e = e} d) (suc f) rest l =
        rw (text-last upper debug e)
          (read_last is_reserved f e _ rest (any_read d f _ (omega arith) (a_close rest)))
    each_read (C.one_more {e = e} {es = es} d ds) (suc f) rest l =
        rw (text-more upper debug e ds (b')' ∷ rest)) (
          read_more is_reserved f e es (emit upper debug e)
            (join (codes ", ") (emit_each upper debug es)) rest
            (any_read d f _ (omega arith) (a_comma _)) (each_read ds f rest (omega arith)))

  -- Where the emitter's list has every word that PostgreSQL reserves but IS, ISNULL, NOTNULL, ILIKE,
  -- FREEZE and SYSTEM_USER, it reads a clear expression back from the text that the emitter writes, with
  -- any fuel above the expression's size, up to the end of the text, a closing parenthesis, a comma or
  -- an operator. Clear are strings, integers from 0 on, NULL, TRUE and FALSE, names and columns but the
  -- star, the empty name and these six words, signs on one of these or on an operation, the operations,
  -- where NOT, IS NULL, IN and BETWEEN stand under AND, OR and NOT alone, and these four themselves, IN
  -- with one value at least.
  pub read_any-emit :
      {e : Expression} (d : Clear e) (f : ℕ) (rest : Text)
      → size d < f
      → Ends rest
      → read_any is_reserved f (emit upper debug e ++ rest) ≡ some (e, rest)
  read_any-emit d f rest l h = any_read d f rest l h
