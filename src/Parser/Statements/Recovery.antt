-- ===== src/Parser/Statements/Recovery.antt =====
-- What `synchronize` skips (crates/tsql-parser/src/parser/helpers.rs).
use tsqlremaker.Base.{
  ◌≡◌, refl, sym, ap, ◌∙◌, Bool, true, false, ◌||◌, Bool-cases, inl, inr, List, [], ◌∷◌, ◌++◌,
}
use tsqlremaker.Token.Kind.{TokenKind}
use tsqlremaker.Token.Tag.{is_kind}
use tsqlremaker.Token.Tag.Equality.{is_kind_iff}
use tsqlremaker.Lexer.Token.{Token}
use tsqlremaker.Parser.Buffer.Refinement.{nth}
use tsqlremaker.Parser.Statements.{
  Parser, among, statement_kinds, is_statement_start, is_sync_point, skip, synchronize,
}

-- The end of the text, the words that a statement begins with, GO, END and the semicolon.
abbrev pub stops : List TokenKind
stops =
    TokenKind.eof ∷ TokenKind.select ∷ TokenKind.insert ∷ TokenKind.update ∷ TokenKind.delete
    ∷ TokenKind.create ∷ TokenKind.alter ∷ TokenKind.declare ∷ TokenKind.set ∷ TokenKind.if_kw
    ∷ TokenKind.while ∷ TokenKind.begin ∷ TokenKind.break ∷ TokenKind.continue ∷ TokenKind.return
    ∷ TokenKind.commit ∷ TokenKind.rollback ∷ TokenKind.save ∷ TokenKind.throw ∷ TokenKind.raiserror
    ∷ TokenKind.exec ∷ TokenKind.execute ∷ TokenKind.go ∷ TokenKind.end ∷ TokenKind.semicolon ∷ []

pub data OneOf : List TokenKind → TokenKind → Type 0 where
  this : {k k' : TokenKind} {ks : List TokenKind} → k ≡ k' → OneOf (k' ∷ ks) k
  later : {k k' : TokenKind} {ks : List TokenKind} → OneOf ks k → OneOf (k' ∷ ks) k

-- No token of the list is one to stop at.
pub data Skippable : List Token → Type 0 where
  nothing : Skippable []
  skippable :
      {t : Token} {ts : List Token} → ¬ OneOf stops t.kind → Skippable ts → Skippable (t ∷ ts)

false-true : ¬ (false ≡ true)
false-true e = cc

among-OneOf : (ks : List TokenKind) (k : TokenKind) → among ks k ≡ true → OneOf ks k
unfolding among
among-OneOf [] k h = absurd (false-true h)
among-OneOf (k' ∷ ks) k h = elim (Bool-cases (is_kind k k')) [
  | inl same ↦ this ((is_kind_iff k k').0 same)
  | inr other ↦ later (among-OneOf ks k (rw other at h))
]

or_true : (b : Bool) → (b || true) ≡ true
or_true true = refl
or_true false = refl

OneOf-among : {ks : List TokenKind} {k : TokenKind} → OneOf ks k → among ks k ≡ true
unfolding among
OneOf-among (this {k} {k'} e) = rw ((is_kind_iff k k').1 e) refl
OneOf-among (later {k} {k'} m) = rw (OneOf-among m) (or_true (is_kind k k'))

or_assoc : (a b c : Bool) → (a || (b || c)) ≡ ((a || b) || c)
or_assoc true b c = refl
or_assoc false b c = refl

regroup : (a b c d : Bool) → ((a || (b || c)) || d) ≡ (a || (b || (c || (d || false))))
regroup true b c d = refl
regroup false true c d = refl
regroup false false true d = refl
regroup false false false true = refl
regroup false false false false = refl

among-append :
    (ks ks' : List TokenKind) (k : TokenKind) → among (ks ++ ks') k ≡ (among ks k || among ks' k)
unfolding among
among-append [] ks' k = refl
among-append (x ∷ ks) ks' k =
    rw (among-append ks ks' k) (or_assoc (is_kind k x) (among ks k) (among ks' k))

is_sync_point-stops : (k : TokenKind) → is_sync_point k ≡ among stops k
unfolding is_sync_point is_statement_start among
is_sync_point-stops k =
    ap (λ b. is_kind k TokenKind.eof || b)
      (regroup (among statement_kinds k) (is_kind k TokenKind.go) (is_kind k TokenKind.end)
          (is_kind k TokenKind.semicolon)
        ∙ sym (
            among-append statement_kinds (TokenKind.go ∷ TokenKind.end ∷ TokenKind.semicolon ∷ [])
              k))

stop : (k : TokenKind) → is_sync_point k ≡ true → OneOf stops k
stop k h = among-OneOf stops k (sym (is_sync_point-stops k) ∙ h)

no_stop : (k : TokenKind) → is_sync_point k ≡ false → ¬ OneOf stops k
no_stop k h m = false-true (sym h ∙ (is_sync_point-stops k ∙ OneOf-among m))

skip-Skippable :
    (ts : List Token)
    → (skipped : List Token) × (Skippable skipped)
      × (ts ≡ (skipped ++ skip ts))
      × (OneOf stops (nth 0 (skip ts)).kind)
unfolding skip
skip-Skippable [] = ([], nothing, refl, this refl)
skip-Skippable (t ∷ ts) = elim (Bool-cases (is_sync_point t.kind)) [
  | inl found ↦ rw found ([], nothing, refl, stop t.kind found)
  | inr other ↦
      let (skipped, s, e, m) = skip-Skippable ts in
      rw other (t ∷ skipped, skippable (no_stop t.kind other) s, ap (λ x. t ∷ x) e, m)
]

-- `synchronize` takes tokens from the front, none of which is a statement's first, GO, END, a semicolon
-- or the end, and leaves the parser before one that is, with all else as it was.
pub synchronize-Skippable :
    (s : Parser)
    → (skipped : List Token) × (Skippable skipped)
      × (s ≡ (record (synchronize s) { buffer = skipped ++ (synchronize s).buffer }))
      × (OneOf stops (nth 0 (synchronize s).buffer).kind)
unfolding synchronize
synchronize-Skippable s =
    let (skipped, h, e, m) = skip-Skippable s.buffer in
    (skipped, h, ap (λ x. record s { buffer = x }) e, m)
