-- ===== src/Emitter/Postgres/Quotes.antt =====
-- String literals on the way from T-SQL to PostgreSQL: the parser keeps the quotes of a literal doubled
-- (crates/tsql-parser/src/expression/prefix.rs), and the emitter doubles them
-- (crates/postgresql-emitter/src/mappers/expression.rs).
use tsqlremaker.Base.{
  ◌≡◌, refl, ap, Bool, true, false, ◌&&◌, not, [], ◌∷◌, ◌==◌, if◌then◌else◌, Text, arith,
}
use tsqlremaker.Common.Ast.{Expression, Expressions}
use tsqlremaker.Common.Operators.{arithmetic, compares, connects}
use tsqlremaker.Translate.Meaning.{Meaning, value, each_value}
use tsqlremaker.Emitter.Postgres.Reader.Clear as C
use tsqlremaker.Emitter.Postgres.Reader.Clear.{Tight, Clear, Values}

-- The string that the text between the quotes of a literal stands for in T-SQL.
undoubled : Text → Text
undoubled [] = []
undoubled (c ∷ []) = c ∷ []
undoubled (c ∷ (d ∷ s)) =
    let behind = undoubled s in
    let rest = undoubled (d ∷ s) in if (c == b'\'') && (d == b'\'') then c ∷ behind else c ∷ rest

-- What a literal of T-SQL stands for by its text, where `M` says what a string stands for.
unfoldable pub of_literals : {V : Type 0} → Meaning V → Meaning V
unfolding undoubled
of_literals M = record M { string = λ s. M.string (undoubled s) }

unquoted_text : Text → Bool
unquoted_text [] = true
unquoted_text (c ∷ s) = not (c == b'\'') && unquoted_text s

-- No string of the expression has a quote.
unfoldable mutual
  unfolding unquoted_text

  pub tight_unquoted : {e : Expression} → Tight e → Bool
  tight_unquoted (C.a_string s) = unquoted_text s
  tight_unquoted (C.a_plus d) = tight_unquoted d
  tight_unquoted (C.a_minus d) = tight_unquoted d
  tight_unquoted (C.an_operation o h l r) = unquoted l && unquoted r
  tight_unquoted _ = true

  pub unquoted : {e : Expression} → Clear e → Bool
  unquoted (C.tight d) = tight_unquoted d
  unquoted (C.a_negation d) = unquoted d
  unquoted (C.a_null_test n d) = tight_unquoted d
  unquoted (C.a_range n d low high) =
      tight_unquoted d && (tight_unquoted low && tight_unquoted high)
  unquoted (C.a_choice n d ds) = tight_unquoted d && each_unquoted ds

  pub each_unquoted : {es : Expressions} → Values es → Bool
  each_unquoted (C.last_value d) = unquoted d
  each_unquoted (C.one_more d ds) = unquoted d && each_unquoted ds

undoubled-unquoted_text : (s : Text) → unquoted_text s ≡ true → undoubled s ≡ s
unfolding undoubled unquoted_text
undoubled-unquoted_text [] h = refl
undoubled-unquoted_text (c ∷ []) h = refl
undoubled-unquoted_text (c ∷ (d ∷ s)) h =
    let other : (c == b'\'') ≡ false = ground arith in
    let rest : unquoted_text (d ∷ s) ≡ true = ground arith in
    rw other (ap (λ x. c ∷ x) (undoubled-unquoted_text (d ∷ s) rest))

module _ {V : Type 0} (M : Meaning V) where
  mutual
    unfolding value of_literals tight_unquoted unquoted each_unquoted

    tight_same :
        {e : Expression} (d : Tight e)
        → tight_unquoted d ≡ true
        → value (of_literals M) e ≡ value M e
    tight_same (C.a_string s) h = ap M.string (undoubled-unquoted_text s h)
    tight_same (C.an_integer n) h = refl
    tight_same C.a_null h = refl
    tight_same (C.a_boolean b) h = refl
    tight_same (C.a_name n k) h = refl
    tight_same (C.a_column t c k k') h = refl
    tight_same (C.a_plus d) h = rw (tight_same d h) refl
    tight_same (C.a_minus d) h = rw (tight_same d h) refl
    tight_same (C.an_operation (arithmetic op) k l r) h =
        rw (same l (ground arith), same r (ground arith)) refl
    tight_same (C.an_operation (compares op) k l r) h =
        rw (same l (ground arith), same r (ground arith)) refl
    tight_same (C.an_operation (connects op) k l r) h =
        rw (same l (ground arith), same r (ground arith)) refl

    same : {e : Expression} (d : Clear e) → unquoted d ≡ true → value (of_literals M) e ≡ value M e
    same (C.tight d) h = tight_same d h
    same (C.a_negation d) h = rw (same d h) refl
    same (C.a_null_test n d) h = rw (tight_same d h) refl
    same (C.a_range n d low high) h =
        rw
          (
            tight_same d (ground arith),
            tight_same low (ground arith),
            tight_same high (ground arith),
          )
          refl
    same (C.a_choice n d ds) h = rw (tight_same d (ground arith), each_same ds (ground arith)) refl

    each_same :
        {es : Expressions} (ds : Values es)
        → each_unquoted ds ≡ true
        → each_value (of_literals M) es ≡ each_value M es
    each_same (C.last_value d) h = rw (same d h) refl
    each_same (C.one_more d ds) h = rw (same d (ground arith), each_same ds (ground arith)) refl

  -- Without a quote a string is its text.
  pub value-of_literals :
      {e : Expression} (d : Clear e) → unquoted d ≡ true → value (of_literals M) e ≡ value M e
  value-of_literals d h = same d h
