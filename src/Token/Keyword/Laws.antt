-- ===== src/Token/Keyword/Laws.antt =====
-- Resolution of identifiers to keywords: which texts are keywords, whatever their case.
use tsqlremaker.Base.{
  ℕ, zero, suc, ◌≤◌, ◌≡◌, ◌≢◌, ◌↔◌, inl, inr, refl, ap, sym, ◌∙◌, Bool, true, false, ◌&&◌, not,
  List, [], ◌∷◌, ◌++◌, map, Option, none, some, length, get_elem?, all, ltb, if◌then◌else◌,
  Bool-cases, and-eq-true, not-eq-true, arith, Text, utf8, utf8_char, text_eq, to_ascii_lowercase,
  eq_of_text_eq,
}
use tsqlremaker.Token.Kind.{TokenKind}
use tsqlremaker.Token.Tag.{is_kind}
use tsqlremaker.Token.Tag.Equality.{is_kind_iff}
use tsqlremaker.Token.Keyword.{keywords, get, unwrap_or, max_keyword_len, resolve, from_ident}

-- The lowered text, letter by letter.
abbrev pub lower : Text → Text
lower = map to_ascii_lowercase

-- The table has the entry `w`, `k`.
abbrev pub Entry : List (Text × TokenKind) → Text → TokenKind → Type 0
Entry m w k = (i : ℕ) × (get_elem? m i ≡ some (w, k))

map-append {ℓ} : {A : Type ℓ} (f : A → A) (xs ys : List A) → map f (xs ++ ys) ≡ map f xs ++ map f ys
map-append f [] ys = refl
map-append f (x ∷ xs) ys = ap (◌∷◌ (f x)) (map-append f xs ys)

length-map {ℓ} : {A : Type ℓ} (f : A → A) (xs : List A) → length (map f xs) ≡ length xs
length-map f [] = refl
length-map f (x ∷ xs) = ap suc (length-map f xs)

-- Lowering the bytes of a character is lowering the character.
utf8_char-lower : (c : ℕ) → map to_ascii_lowercase (utf8_char c) ≡ utf8_char (to_ascii_lowercase c)
unfolding utf8_char to_ascii_lowercase
utf8_char-lower c = ground arith

utf8-lower : (s : Text) → map to_ascii_lowercase (utf8 s) ≡ utf8 (lower s)
unfolding utf8
utf8-lower [] = refl
utf8-lower (c ∷ s) =
    map-append to_ascii_lowercase (utf8_char c) (utf8 s) ∙ rw (utf8_char-lower c, utf8-lower s)

utf8_char-pos : (c : ℕ) → 1 ≤ length (utf8_char c)
unfolding utf8_char
utf8_char-pos c = ground arith

-- The kind depends on the lowered text alone.
resolve_lem :
    (m : List (Text × TokenKind)) (s : Text)
    → resolve m s ≡ (
        if ltb max_keyword_len (length (utf8 (lower s)))
        then TokenKind.ident
        else unwrap_or (get m (utf8 (lower s))) TokenKind.ident)
unfolding resolve
resolve_lem m s = rw (← length-map to_ascii_lowercase (utf8 s), utf8-lower s)

-- Two spellings of a word that differ in the case of ASCII letters have one kind.
pub from_ident-lower : (s t : Text) → lower s ≡ lower t → from_ident s ≡ from_ident t
unfolding from_ident
from_ident-lower s t e = rw (resolve_lem keywords s, resolve_lem keywords t, e)

abbrev is_ascii : Text → Bool
is_ascii = all (λ b. ltb b 0x80)

utf8_char-is_ascii :
    (c : ℕ) (t : Text)
    → is_ascii (utf8_char c ++ t) ≡ true
    → (utf8_char c ≡ c ∷ []) × (is_ascii t ≡ true)
unfolding utf8_char
utf8_char-is_ascii c t h = ground arith

-- A text whose bytes are ASCII is its own bytes.
utf8-is_ascii : (s : Text) → is_ascii (utf8 s) ≡ true → utf8 s ≡ s
unfolding utf8
utf8-is_ascii [] h = refl
utf8-is_ascii (c ∷ s) h = let (e, r) = utf8_char-is_ascii c (utf8 s) h in rw (e, utf8-is_ascii s r)

-- What `get` finds stands in the table.
get-eq-some :
    (m : List (Text × TokenKind)) (w : Text) {k : TokenKind} → get m w ≡ some k → Entry m w k
unfolding get
get-eq-some [] w h = cc
get-eq-some ((j, v) ∷ m) w h = elim (Bool-cases (text_eq j w)) [
  | inl e ↦ (0, cc (rw e at h, eq_of_text_eq j w e))
  | inr e ↦ let (i, at) = get-eq-some m w (rw e at h) in (suc i, at)
]

-- The entry at `i` is the first with its key, and its key is lowered ASCII text.
abbrev resolves : List (Text × TokenKind) → Text × TokenKind → Bool
resolves m (w, k) =
    text_eq (lower w) w
    && is_ascii w
    && not (ltb max_keyword_len (length w))
    && is_kind (unwrap_or (get m w) TokenKind.ident) k
    && not (is_kind k TokenKind.ident)

-- Every entry of the table passes, by evaluation.
keywords_resolve : all (resolves keywords) keywords ≡ true
unfolding keywords get is_kind to_ascii_lowercase
keywords_resolve = refl

all-get_elem? {ℓ} :
    {A : Type ℓ} (p : A → Bool) (xs : List A) (i : ℕ) {x : A}
    → all p xs ≡ true
    → get_elem? xs i ≡ some x
    → p x ≡ true
all-get_elem? p [] i h e = cc
all-get_elem? p (y ∷ xs) zero h e = ground arith
all-get_elem? p (y ∷ xs) (suc i) h e = all-get_elem? p xs i (ground arith) e

-- ASCII text is its own bytes.
utf8_of_ascii : (s : Text) → is_ascii s ≡ true → utf8 s ≡ s
unfolding utf8
utf8_of_ascii [] h = refl
utf8_of_ascii (c ∷ s) h = ground (arith, utf8_of_ascii s)

-- The parts of the test, as statements.
resolves_parts :
    (m : List (Text × TokenKind)) (w : Text) (k : TokenKind)
    → resolves m (w, k) ≡ true
    → (lower w ≡ w)
      × (is_ascii w ≡ true)
      × (ltb max_keyword_len (length w) ≡ false)
      × (unwrap_or (get m w) TokenKind.ident ≡ k)
      × (k ≢ TokenKind.ident)
resolves_parts m w k h =
    let (rest₃, named) = and-eq-true _ _ h in
    let (rest₂, found) = and-eq-true _ _ rest₃ in
    let (rest₁, short) = and-eq-true _ _ rest₂ in
    let (low, asc) = and-eq-true _ _ rest₁ in
    (
      eq_of_text_eq (lower w) w low,
      asc,
      not-eq-true _ short,
      (is_kind_iff _ k).0 found,
      λ e. cc (not-eq-true _ named, (is_kind_iff k TokenKind.ident).1 e),
    )

found_of_resolve :
    (b : Bool) (o : Option TokenKind) {k : TokenKind}
    → (if b then TokenKind.ident else unwrap_or o TokenKind.ident) ≡ k
    → k ≢ TokenKind.ident
    → o ≡ some k
found_of_resolve true o r n = absurd (n (sym r))
found_of_resolve false none r n = absurd (n (sym r))
found_of_resolve false (some j) r n = ap some r

module _ (m : List (Text × TokenKind)) (checked : all (resolves m) m ≡ true) where
  Entry-parts :
      {w : Text} {k : TokenKind}
      → Entry m w k
      → (lower w ≡ w)
        × (is_ascii w ≡ true)
        × (ltb max_keyword_len (length w) ≡ false)
        × (unwrap_or (get m w) TokenKind.ident ≡ k)
        × (k ≢ TokenKind.ident)
  Entry-parts {w} {k} (i, e) = resolves_parts m w k (all-get_elem? (resolves m) m i checked e)

  resolve_of_Entry :
      (s : Text) {k : TokenKind} → Entry m (lower s) k → (resolve m s ≡ k) × (k ≢ TokenKind.ident)
  resolve_of_Entry s en =
      let (low, asc, short, found, named) = Entry-parts en in
      let e = utf8_of_ascii (lower s) asc in (resolve_lem m s ∙ rw (e, short, found), named)

  Entry-of_resolve :
      (s : Text) {k : TokenKind} → resolve m s ≡ k → k ≢ TokenKind.ident → Entry m (lower s) k
  Entry-of_resolve s {k} h n =
      let found = found_of_resolve _ _ (sym (resolve_lem m s) ∙ h) n in
      let entry = get-eq-some m (utf8 (lower s)) found in
      rw (utf8-is_ascii (lower s) (Entry-parts entry).1) at entry

-- An identifier is the keyword `k` exactly when the table has its lowered text with `k`: no entry
-- hides another, and the limit on the length cuts none off.
pub from_ident_iff :
    (s : Text) (k : TokenKind)
    → ((from_ident s ≡ k) × (k ≢ TokenKind.ident)) ↔ Entry keywords (lower s) k
unfolding from_ident
from_ident_iff s k = (
  λ (e, n). Entry-of_resolve keywords keywords_resolve s e n,
  λ en. resolve_of_Entry keywords keywords_resolve s en,
)
