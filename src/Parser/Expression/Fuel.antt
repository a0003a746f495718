-- ===== src/Parser/Expression/Fuel.antt =====
-- How many tokens a parser leaves, and that it comes to an answer: the rules for the parts of a `do`
-- block.
pub mod Parts
pub mod Select
pub mod Special
pub mod Prefix
pub mod Levels
use tsqlremaker.Base.{
  ℕ, zero, suc, ◌+◌, ◌-◌, ◌≤◌, ◌<◌, ◌≡◌, refl, sym, subst, ◌∙◌, Bool, true, false, List, [], ◌∷◌,
  drop, length, Option, none, some, arith, if◌then◌else◌, Bool-cases, inl, inr, Text, if_intro,
}
use tsqlremaker.Token.Kind.{TokenKind}
use tsqlremaker.Token.Tag.{is_kind}
use tsqlremaker.Lexer.Token.{Token}
use tsqlremaker.Parser.Error.{ParseError, ok, err}
use tsqlremaker.Parser.Buffer.{eof_token}
use tsqlremaker.Parser.Buffer.Refinement.{nth}
use tsqlremaker.Parser.Monad.{
  ExpressionParser, Outcome, out_of_fuel, panicked, done, Parser, and_then, ◌>>=◌, ◌>>◌, return,
  fail, sliced, current, consume, if_check, if_consumed, unexpected, expect, on_tokens,
}

-- The call came to an answer. Where it is no error, at most `n` tokens are left, and the depth and its
-- limit are `d` and `m`.
pub data Runs {A : Type 0} (n d m : ℕ) : Outcome A → Type 0 where
  panics : Runs n d m panicked
  fails : {e : ParseError} {s : ExpressionParser} → Runs n d m (done (err e) s)
  returns :
      {a : A} {s : ExpressionParser}
      → length s.buffer ≤ n
      → s.depth ≡ d
      → s.max_depth ≡ m
      → Runs n d m (done (ok a) s)

-- From at most `n` tokens the parser comes to an answer, which leaves at most `k` of them, and the
-- depth as it was.
pub record Bounded {A : Type 0} (n k : ℕ) (p : Parser A) : Type 0 where
  pub run : (s : ExpressionParser) → length s.buffer ≤ n → Runs k s.depth s.max_depth (p s)

module _ {A : Type 0} where
  Runs-weaken : {n k d m : ℕ} {o : Outcome A} → n ≤ k → Runs n d m o → Runs k d m o
  Runs-weaken l panics = panics
  Runs-weaken l fails = fails
  Runs-weaken l (returns h e e') = returns (omega arith) e e'

  pub weaken : (n k : ℕ) {j i : ℕ} {p : Parser A} → j ≤ n → i ≤ k → Bounded n i p → Bounded j k p
  weaken n k l l' b = record { run = λ s h. Runs-weaken l' (b.run s (omega arith)) }

  pub return-Bounded : {n k : ℕ} (a : A) → n ≤ k → Bounded n k (return a)
  unfolding return
  return-Bounded a l = record { run = λ s h. returns (omega arith) refl refl }

  pub fail-Bounded : {n k : ℕ} (e : ParseError) → Bounded {A = A} n k (fail e)
  unfolding fail
  fail-Bounded e = record { run = λ s h. fails }

  pub unexpected-Bounded :
      {n k : ℕ} (expected : List TokenKind) → Bounded {A = A} n k (unexpected expected)
  unfolding unexpected ◌>>=◌ current fail
  unexpected-Bounded expected = record { run = λ s h. fails }

length-drop : {A : Type 0} (ts : List A) → length (drop 1 ts) ≡ length ts - 1
length-drop [] = refl
length-drop (t ∷ ts) = omega arith

module _ {n : ℕ} where
  pub current-Bounded : Bounded n n current
  unfolding current
  current-Bounded = record { run = λ s h. returns h refl refl }

  pub consume-Bounded : Bounded n (n - 1) consume
  unfolding consume
  consume-Bounded = record { run = λ s h. returns (omega (arith, length-drop s.buffer)) refl refl }

  pub sliced-Bounded : (t : Option Text) → Bounded n n (sliced t)
  unfolding sliced
  sliced-Bounded none = record { run = λ s h. panics }
  sliced-Bounded (some t) = record { run = λ s h. returns h refl refl }

-- A token of another kind than `Eof` is one of the buffer.
kind-length :
    (ts : List Token) (kind : TokenKind)
    → is_kind TokenKind.eof kind ≡ false
    → is_kind (nth 0 ts).kind kind ≡ true
    → 1 ≤ length ts
kind-length [] kind e h = cc
kind-length (t ∷ ts) kind e h = omega arith

Runs-subst :
    {A : Type 0} {k d m d' m' : ℕ} {o : Outcome A} → d' ≡ d → m' ≡ m → Runs k d' m' o → Runs k d m o
Runs-subst {A} {k} {d} {m} {d'} {m'} {o} e e' r =
    subst (λ x. Runs k x m o) e (subst (λ y. Runs k d' y o) e' r)

-- What follows may change the depth.
pub depth_then-Runs :
    {A B : Type 0} {j k d m d' m' : ℕ} {o : Outcome B} {f : B → Parser A}
    → Runs j d m o
    → ((b : B) (s : ExpressionParser)
        → length s.buffer ≤ j
        → s.depth ≡ d
        → s.max_depth ≡ m
        → Runs k d' m' (f b s))
    → Runs k d' m' (and_then o f)
depth_then-Runs panics h = panics
depth_then-Runs fails h = fails
depth_then-Runs (returns {a} {s} l e e') h = h a s l e e'

pub and_then-Runs :
    {A B : Type 0} {j k d m : ℕ} {o : Outcome B} {f : B → Parser A}
    → Runs j d m o
    → ((b : B) → Bounded j k (f b))
    → Runs k d m (and_then o f)
and_then-Runs r h = depth_then-Runs r λ b s l e e'. Runs-subst e e' ((h b).run s l)

module _ {A : Type 0} {n k : ℕ} where
  -- A test for a kind that is not `Eof` finds a token.
  pub if_check-Bounded :
      (kind : TokenKind) {x y : Parser A}
      → is_kind TokenKind.eof kind ≡ false
      → (1 ≤ n → Bounded n k x)
      → Bounded n k y
      → Bounded n k (if_check kind x y)
  unfolding if_check
  if_check-Bounded kind {x} {y} e bx b = record {
    run = λ s h. elim (Bool-cases (is_kind (nth 0 s.buffer).kind kind)) [
      | inl found ↦ rw found ((bx (omega (arith, kind-length s.buffer kind e found))).run s h)
      | inr other ↦ rw other (b.run s h)
    ];
  }

  pub if_check-Bounded_any :
      (kind : TokenKind) {x y : Parser A}
      → Bounded n k x
      → Bounded n k y
      → Bounded n k (if_check kind x y)
  unfolding if_check
  if_check-Bounded_any kind bx b = record {
    run = λ s h. if_intro (Runs k s.depth s.max_depth) _ (bx.run s h) (b.run s h);
  }

  pub if-Bounded :
      (b : Bool) {x y : Parser A} → Bounded n k x → Bounded n k y → Bounded n k (if b then x else y)
  if-Bounded b bx bz = if_intro (Bounded n k) b bx bz

  pub bind-Bounded :
      {B : Type 0} {j : ℕ} {p : Parser B} {f : B → Parser A}
      → Bounded n j p
      → ((b : B) → Bounded j k (f b))
      → Bounded n k (p >>= f)
  unfolding ◌>>=◌
  bind-Bounded b h = record { run = λ s l. and_then-Runs (b.run s l) h }

  pub if_consumed-Bounded :
      (kind : TokenKind) {x y : Parser A}
      → is_kind TokenKind.eof kind ≡ false
      → (1 ≤ n → Bounded (n - 1) k x)
      → Bounded n k y
      → Bounded n k (if_consumed kind x y)
  unfolding if_consumed
  if_consumed-Bounded kind e bx b =
      if_check-Bounded kind e (λ p. bind-Bounded consume-Bounded λ t. bx p) b

pub expect-Bounded :
    {n : ℕ} (expected : List TokenKind) (kind : TokenKind) → Bounded n n (expect expected kind)
unfolding expect
expect-Bounded {n} expected kind =
    if_check-Bounded_any kind (weaken n n (omega arith) (omega arith) consume-Bounded)
      (unexpected-Bounded expected)

-- A loop on a unit of fuel for each token and one more.
pub on_tokens-Bounded :
    {A : Type 0} {n : ℕ} {p : ℕ → Parser A}
    → ((r j : ℕ) → j < r → j ≤ n → Bounded j j (p r))
    → Bounded n n (on_tokens p)
unfolding on_tokens
on_tokens-Bounded {A} {n} {p} h = record {
  run = λ s l.
      Runs-weaken l
        ((h (suc (length s.buffer)) (length s.buffer) (omega arith) l).run s (omega arith));
}
