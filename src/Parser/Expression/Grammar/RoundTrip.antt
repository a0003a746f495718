-- ===== src/Parser/Expression/Grammar/RoundTrip.antt =====
-- `parse` returns the expression that the grammar gives its tokens
-- (crates/tsql-parser/src/expression/mod.rs).
use tsqlremaker.Base.{
  ℕ, zero, suc, ◌+◌, ◌-◌, ◌≤◌, ◌<◌, ◌≡◌, refl, sym, ◌∙◌, ap, List, [], ◌∷◌, ◌++◌, append_assoc,
  append-nil, length-append, length, arith, Text, false, leb,
}
use tsqlremaker.Token.Kind.{TokenKind}
use tsqlremaker.Token.Tag.{is_kind}
use tsqlremaker.Lexer.Token.{Token}
use tsqlremaker.Parser.Error.{ok}
use tsqlremaker.Parser.Ast.{Expression, BinaryOperator, binary_op, expression_span}
use tsqlremaker.Parser.Monad.{
  done, Parser, ◌>>=◌, ◌>>◌, consume, if_check, return, and_then, on_tokens, expect,
}
use tsqlremaker.Parser.Expression.Power.{BindingPower, lowest, unary, strength, span_for_binary}
use tsqlremaker.Parser.Expression.Calls.{Calls}
use tsqlremaker.Parser.Expression.Pratt.{
  level, bp_body, bp_loop, bp_rounds, check_depth, deeper, shallower, parse_expression, fuel_for,
}
use tsqlremaker.Parser.Expression.Prefix.{parse_prefix}
use tsqlremaker.Parser.Expression.Grammar.{
  number, float, hex, null, IsInfix, Stops, Derives, atom, parens, prefixed, binary, height, max,
}
use tsqlremaker.Parser.Expression.Grammar.Followers.{
  Stops-weaken, Stops-rparen, Stops-infix, Stops-nil,
}
use tsqlremaker.Parser.Expression.Grammar.Steps.{
  at, prefix-atom, loop-Stops, loop-infix, prefix-unary, prefix-parens, prefix-other,
  and_then_assoc,
}

-- What stands for an expression starts with a token, and not with SELECT.
Derives-first :
    {p : ℕ} {ts : List Token} {e : Expression}
    → Derives p ts e
    → (t : Token) × (rest : List Token) × (ts ≡ (t ∷ rest))
      × (is_kind t.kind TokenKind.select ≡ false)
unfolding is_kind
Derives-first (atom {t} (number k)) = (t, [], refl, simp k refl)
Derives-first (atom {t} (float k)) = (t, [], refl, simp k refl)
Derives-first (atom {t} (hex k)) = (t, [], refl, simp k refl)
Derives-first (atom {t} (null k)) = (t, [], refl, simp k refl)
Derives-first (parens {ts} o c k k' d) = (o, _, refl, simp k refl)
Derives-first (prefixed {ts} t k l d) = (t, ts, refl, prefix-other t.kind k)
Derives-first (binary {rs} t k l l' d d') =
    let (t', rest, e, h) = Derives-first d in (t', rest ++ (t ∷ rs), ap (λ x. x ++ (t ∷ rs)) e, h)

-- From tokens of the power `p` for `e`, and what follows, the parser comes to its loop with `e`.
pub Reads : (Text → Text) → ℕ → List Token → Expression → ℕ → Type 0
Reads upper p ts e h =
    (f : ℕ) (min_bp : BindingPower) (rest : List Token) (d m : ℕ)
    → strength min_bp ≤ p
    → Stops p rest
    → h ≤ f
    → d + h ≤ m
    → (k : ℕ) × (length rest ≤ k)
      × (and_then (parse_prefix upper (level upper f) (at (ts ++ rest) d m))
            (bp_rounds upper (level upper f) min_bp)
          ≡ bp_loop upper (level upper f) (suc k) min_bp e (at rest d m))

module _ (upper : Text → Text) where
  pub Reads-parse_bp :
      {p h : ℕ} (ts : List Token) (e : Expression) (f : ℕ) (min_bp : BindingPower)
      (rest : List Token) (d m : ℕ)
      → Reads upper p ts e h
      → strength min_bp ≤ p
      → Stops (strength min_bp) rest
      → h < f
      → d + h < m
      → (level upper f).parse_bp min_bp (at (ts ++ rest) d m) ≡ done (ok e) (at rest d m)
  unfolding Reads level bp_body check_depth deeper ◌>>=◌ return shallower
  Reads-parse_bp ts e zero min_bp rest d m r l s h h' = absurd (omega arith)
  Reads-parse_bp ts e (suc f) min_bp rest d m r l s h h' =
      let room : leb m d ≡ false = ground arith in
      let back : d + 1 - 1 ≡ d = omega arith in
      let (n, n', q) = r f min_bp rest (d + 1) m l (Stops-weaken l s) (omega arith) (omega arith) in
      let leave : Expression → Parser Expression = λ result. shallower >> return result in
      rw room (
        sym
          (and_then_assoc (parse_prefix upper (level upper f) (at (ts ++ rest) (d + 1) m)) _ leave)
        ∙ (ap (λ o. and_then o leave)
              (q ∙ loop-Stops upper (level upper f) n min_bp e (d + 1) m s (omega arith))
            ∙ ap (λ x. done (ok e) (at rest x m)) back))

  -- The tail of a list of tokens in parentheses.
  close-Reads :
      (calls : Calls) (e : Expression) (o c : Token) (ts rest : List Token) (d m : ℕ)
      → o.kind ≡ TokenKind.lparen
      → c.kind ≡ TokenKind.rparen
      → (t : Token) × (rest : List Token) × (ts ≡ (t ∷ rest))
        × (is_kind t.kind TokenKind.select ≡ false)
      → calls.parse_bp lowest (at (ts ++ (c ∷ rest)) d m) ≡ done (ok e) (at (c ∷ rest) d m)
      → parse_prefix upper calls (at (o ∷ ((ts ++ (c ∷ [])) ++ rest)) d m)
        ≡ done (ok e) (at rest d m)
  unfolding expect ◌>>=◌ return consume if_check is_kind
  close-Reads calls e o c ts rest d m k k' (t, more, q, first) h =
      rw (append_assoc ts (c ∷ []) rest) (
        rw q (
          prefix-parens upper calls o t (more ++ (c ∷ rest)) d m k first
          ∙ rw (rw q at h) (simp k' refl)))

  pub Derives-Reads :
      {p : ℕ} {ts : List Token} {e : Expression} (d : Derives p ts e)
      → Reads upper p ts e (height d)
  unfolding Reads height on_tokens return strength
  Derives-Reads (atom {t} {e} a) f min_bp rest d m l s h h' = (
    length rest,
    omega arith,
    ap (λ o. and_then o (bp_rounds upper (level upper f) min_bp))
        (prefix-atom upper (level upper f) rest d m a),
  )
  Derives-Reads (parens {ts} {e} o c k k' der) f min_bp rest d m l s h h' =
      let inside =
        Reads-parse_bp ts e f lowest (c ∷ rest) d m (Derives-Reads der) (omega arith)
          (Stops-rparen _ c rest k') h (omega arith) in
      (
        length rest,
        omega arith,
        ap (λ o. and_then o (bp_rounds upper (level upper f) min_bp))
            (close-Reads (level upper f) e o c ts rest d m k k' (Derives-first der) inside),
      )
  Derives-Reads (prefixed {ts} {e} t k l' der) f min_bp rest d m l s h h' =
      let operand = Reads-parse_bp ts e f unary rest d m (Derives-Reads der) l' s h (omega arith) in
      (
        length rest,
        omega arith,
        rw (prefix-unary upper (level upper f) t (ts ++ rest) d m k) (rw operand refl),
      )
  Derives-Reads (binary {ls} {rs} {l = a} {r = b} {w} {op} t k l' l'' der der') f min_bp rest d m l
        s h h' =
      let (n, n', q) =
        Derives-Reads der f min_bp (t ∷ (rs ++ rest)) d m (omega arith)
          (Stops-infix t (rs ++ rest) k l') (ground arith) (ground arith) in
      let right =
        Reads-parse_bp rs b f w rest d m (Derives-Reads der') l'' s (ground arith) (ground arith) in
      let e : Expression =
        binary_op a op b (span_for_binary (expression_span a) (expression_span b)) in
      let count : n ≡ suc (n - 1) = omega arith in
      (
        n - 1,
        omega (arith, length-append rs rest),
        rw (append_assoc ls (t ∷ rs) rest) (
            q
            ∙ (loop-infix upper (level upper f) t (rs ++ rest) n min_bp a d m k l
                ∙ (rw right refl
                    ∙ ap (λ x. bp_loop upper (level upper f) x min_bp e (at rest d m)) count))),
      )

pub height-length :
    {p : ℕ} {ts : List Token} {e : Expression} (d : Derives p ts e) → height d < length ts
unfolding height
height-length (atom a) = omega arith
height-length (parens {ts} o c k k' d) =
    let h = height-length d in omega (arith, length-append ts (c ∷ []))
height-length (prefixed t k l d) = let h = height-length d in omega arith
height-length (binary {ls} {rs} t k l l' d d') =
    let h = height-length d in
    let h' = height-length d' in let e = length-append ls (t ∷ rs) in ground arith

-- Where the grammar gives the tokens an expression, and what follows does not go on with it, `parse`
-- takes those tokens and returns that expression, if the limit on the depth is above the nesting of
-- the prefix operators, the parentheses and the right sides. Operands are literals.
pub parse_expression-Derives :
    {p : ℕ} {ts : List Token} {e : Expression} (to_uppercase : Text → Text)
    (derivation : Derives p ts e) (rest : List Token) (d m : ℕ)
    → Stops 0 rest
    → d + height derivation < m
    → parse_expression to_uppercase (record { buffer = ts ++ rest; depth = d; max_depth = m })
      ≡ done (ok e) (record { buffer = rest; depth = d; max_depth = m })
unfolding parse_expression strength
parse_expression-Derives {ts} {e} upper der rest d m s l =
    let h = height-length der in
    Reads-parse_bp upper ts e (fuel_for (at (ts ++ rest) d m)) lowest rest d m
      (Derives-Reads upper der) (omega arith) s (omega (arith, length-append ts rest)) l

-- Of two infix operators of one power, the right one is inside: where the operands bind tighter, or
-- the last one as tight, `parse` reads `a op b op' c` as `a op (b op' c)`.
pub parse_expression-groups_right :
    {p q r : ℕ} {ls ms rs : List Token} {a b c : Expression} {w : BindingPower}
    {op op' : BinaryOperator} (to_uppercase : Text → Text) (t t' : Token)
    (a_derives : Derives p ls a) (b_derives : Derives q ms b) (c_derives : Derives r rs c) (m : ℕ)
    → IsInfix t.kind w op
    → IsInfix t'.kind w op'
    → strength w < p
    → strength w < q
    → strength w ≤ r
    → max (height a_derives) (suc (max (height b_derives) (suc (height c_derives)))) < m
    → parse_expression to_uppercase
        (record { buffer = ls ++ (t ∷ (ms ++ (t' ∷ rs))); depth = 0; max_depth = m })
      ≡ done
          (ok (
            binary_op a op
              (binary_op b op' c (span_for_binary (expression_span b) (expression_span c)))
              (record { start = (expression_span a).start; end = (expression_span c).end })))
          (record { buffer = []; depth = 0; max_depth = m })
unfolding height
parse_expression-groups_right {ls} {ms} {rs} upper t t' da db dc m k k' l l' l'' h =
    let whole = binary t k l (omega arith) da (binary t' k' l' l'' db dc) in
    let read = parse_expression-Derives upper whole [] 0 m (Stops-nil 0) (omega (arith, h)) in
    rw (append-nil (ls ++ (t ∷ (ms ++ (t' ∷ rs))))) at read
