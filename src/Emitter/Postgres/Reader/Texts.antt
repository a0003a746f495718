-- ===== src/Emitter/Postgres/Reader/Texts.antt =====
-- The text of each clear expression, in the parts that the reader meets one after the other (`emit`,
-- crates/postgresql-emitter/src/mappers/expression.rs).
use tsqlremaker.Base.{◌≡◌, refl, ap, ◌∙◌, Bool, [], ◌∷◌, ◌++◌, append_assoc, Text, codes}
use tsqlremaker.Common.Ast.{UnaryOperator, Expression, Expressions, InList, GroupByItem}
use tsqlremaker.Common.Operators.{SqlOperator, arithmetic, compares, connects, joined}
use tsqlremaker.Emitter.Postgres.Words.{format, join, emit_unary_op}
use tsqlremaker.Emitter.Postgres.Expression.{emit, emit_each, emit_in_list, not_word, neg_word}
use tsqlremaker.Emitter.Postgres.Reader.Clear.{Values, last_value, one_more}
use tsqlremaker.Emitter.Postgres.Reader.Steps.{format-onto, symbol}

module _ (upper : Text → Text) (debug : GroupByItem → Text) where
  pub text-unary_op :
      (op : UnaryOperator) (e : Expression) (rest : Text)
      → emit upper debug (Expression.unary_op op e) ++ rest
        ≡ emit_unary_op op ++ (b' ' ∷ (emit upper debug e ++ rest))
  unfolding emit
  text-unary_op op e rest =
      format-onto (emit_unary_op op ∷ codes " " ∷ emit upper debug e ∷ []) rest

  emit-joined :
      (o : SqlOperator) (l r : Expression)
      → emit upper debug (joined o l r)
        ≡ format (
            codes "("
            ∷ emit upper debug l
            ∷ codes " "
            ∷ symbol o
            ∷ codes " "
            ∷ emit upper debug r
            ∷ codes ")"
            ∷ [])
  unfolding emit symbol
  emit-joined (arithmetic op) l r = refl
  emit-joined (compares op) l r = refl
  emit-joined (connects op) l r = refl

  pub text-joined :
      (o : SqlOperator) (l r : Expression) (rest : Text)
      → emit upper debug (joined o l r) ++ rest
        ≡ b'('
          ∷ (emit upper debug l
              ++ (b' ' ∷ (symbol o ++ (b' ' ∷ (emit upper debug r ++ (b')' ∷ rest))))))
  text-joined o l r rest = rw (emit-joined o l r) (
      format-onto
        (codes "("
          ∷ emit upper debug l
          ∷ codes " "
          ∷ symbol o
          ∷ codes " "
          ∷ emit upper debug r
          ∷ codes ")"
          ∷ [])
        rest)

  pub text-is_null :
      (e : Expression) (negated : Bool) (rest : Text)
      → emit upper debug (Expression.is_null e negated) ++ rest
        ≡ emit upper debug e ++ (codes " IS " ++ (not_word negated ++ (codes "NULL" ++ rest)))
  unfolding emit
  text-is_null e negated rest =
      format-onto (emit upper debug e ∷ codes " IS " ∷ not_word negated ∷ codes "NULL" ∷ []) rest

  pub text-between :
      (e low high : Expression) (negated : Bool) (rest : Text)
      → emit upper debug (Expression.between e low high negated) ++ rest
        ≡ emit upper debug e
          ++ (b' '
              ∷ (not_word negated
                  ++ (codes "BETWEEN "
                      ++ (emit upper debug low
                          ++ (codes " AND " ++ (emit upper debug high ++ rest))))))
  unfolding emit
  text-between e low high negated rest =
      format-onto
        (emit upper debug e
          ∷ codes " "
          ∷ not_word negated
          ∷ codes "BETWEEN "
          ∷ emit upper debug low
          ∷ codes " AND "
          ∷ emit upper debug high
          ∷ [])
        rest

  pub text-in_list :
      (e : Expression) (es : Expressions) (negated : Bool) (rest : Text)
      → emit upper debug (Expression.in_list e (InList.values es) negated) ++ rest
        ≡ emit upper debug e
          ++ (neg_word negated
              ++ (codes " IN (" ++ (join (codes ", ") (emit_each upper debug es) ++ (b')' ∷ rest))))
  unfolding emit
  text-in_list e es negated rest =
      format-onto
        (emit upper debug e
          ∷ neg_word negated
          ∷ codes " IN "
          ∷ emit_in_list upper debug (InList.values es)
          ∷ [])
        rest
      ∙ ap (λ s. emit upper debug e ++ (neg_word negated ++ (codes " IN " ++ s)))
          (format-onto (codes "(" ∷ join (codes ", ") (emit_each upper debug es) ∷ codes ")" ∷ [])
            rest)

  pub text-last :
      (e : Expression)
      → join
          (codes ", ")
          (emit_each upper debug (Expressions.expression_then e Expressions.no_expressions))
        ≡ emit upper debug e
  unfolding emit join
  text-last e = refl

  pub text-more :
      (e : Expression) {es : Expressions} (ds : Values es) (rest : Text)
      → join (codes ", ") (emit_each upper debug (Expressions.expression_then e es)) ++ rest
        ≡ emit upper debug e
          ++ (codes ", " ++ (join (codes ", ") (emit_each upper debug es) ++ rest))
  unfolding emit join
  text-more e (last_value {e = x} d) rest =
      append_assoc (emit upper debug e) (codes ", " ++ emit upper debug x) rest
  text-more e (one_more {e = x} {es = es} d ds) rest =
      append_assoc (emit upper debug e)
        (codes ", " ++ join (codes ", ") (emit_each upper debug (Expressions.expression_then x es)))
        rest
