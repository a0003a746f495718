-- ===== src/Server/Incremental/Patch.antt =====
-- An edit replaces one piece of the text and keeps what stands before and behind it
-- (crates/ase-ls-core/src/incremental.rs).
use tsqlremaker.Base.{
  ℕ, zero, suc, ◌+◌, ◌≤◌, ◌<◌, ◌≡◌, refl, sym, ap, ◌∙◌, true, false, Bool-cases, inl, inr, [], ◌∷◌,
  ◌++◌, append_assoc, ltb, some, Text, byte_len, len_utf8, len_utf8_bounds, is_char_boundary,
  byte_len-append, u32_mod, arith,
}
use tsqlremaker.Server.LineIndex.{text_from, new, offset_to_position}
use tsqlremaker.Server.LineIndex.RoundTrip.{
  text_from-append, position_to_offset-offset_to_position, position_to_offset-new,
}
use tsqlremaker.Server.Incremental.{
  get_to, snap, clip, position_to_byte_offset, replace_range, apply_content_change,
}
use tsqlremaker.Server.Incremental.Boundaries.{
  get_to-append, boundary-append, boundary-cut, snap-boundary,
}

-- Of two cuts of a text, the one behind goes on from the one before.
cuts-between :
    (p q p' q' : Text)
    → p ++ q ≡ p' ++ q'
    → byte_len p ≤ byte_len p'
    → (mid : Text) × (p' ≡ p ++ mid)
unfolding byte_len
cuts-between [] q p' q' e l = (p', refl)
cuts-between (c ∷ p) q [] q' e l = absurd (omega (arith, len_utf8_bounds c))
cuts-between (c ∷ p) q (d ∷ p') q' e l =
    let same : c ≡ d = cc in
    let tails : p ++ q ≡ p' ++ q' = cc in
    let (mid, k) = cuts-between p q p' q' tails (omega (arith, ap len_utf8 same)) in
    (mid, rw same (ap (λ x. d ∷ x) k))

-- With the index of the text a position gives a place where the text may be cut.
position-boundary :
    (source : Text) (position : ℕ × ℕ)
    → byte_len source < u32_mod
    → (offset : ℕ) × (position_to_byte_offset source (new source) position ≡ some offset)
      × (is_char_boundary offset source ≡ true)
unfolding position_to_byte_offset
position-boundary source position fits =
    let (offset, e) = position_to_offset-new source position fits in
    (snap (clip offset source) source, rw e refl, snap-boundary (clip offset source) source)

-- What `text` makes of `source` where it takes the place of one piece of it.
pub data Patches (source text : Text) : Text → Type 0 where
  patches :
      (pre mid post : Text) {result : Text}
      → source ≡ pre ++ (mid ++ post)
      → result ≡ pre ++ (text ++ post)
      → Patches source text result

get_to-cut : (p q : Text) {n : ℕ} {s : Text} → s ≡ p ++ q → byte_len p ≡ n → get_to n s ≡ some p
get_to-cut p q e l = rw e (rw⁻¹ l (get_to-append p q))

text_from-cut :
    (p q : Text) {n : ℕ} {s : Text} → s ≡ p ++ q → byte_len p ≡ n → text_from n s ≡ some q
text_from-cut p q e l = rw e (rw⁻¹ l (text_from-append p q))

replace_range-Patches :
    (source : Text) (start end : ℕ) (text : Text)
    → is_char_boundary start source ≡ true
    → is_char_boundary end source ≡ true
    → Patches source text (replace_range source start end text)
unfolding replace_range
replace_range-Patches source start end text h h' =
    let (p, q, e, l) = boundary-cut start source h in
    let (p', q', e', l') = boundary-cut end source h' in
    elim (Bool-cases (ltb end start)) [
      | inl crossed ↦
          patches p' [] q' e'
            (rw crossed (rw (get_to-cut p' q' e' l') (rw (text_from-cut p' q' e' l') refl)))
      | inr ordered ↦
          let (mid, k) = cuts-between p q p' q' (sym e ∙ e') (ground arith) in
          patches p mid q' (e' ∙ ap (λ x. x ++ q') k ∙ append_assoc p mid q')
            (rw ordered (rw (get_to-cut p q e l) (rw (text_from-cut p' q' e' l') refl)))
    ]

-- With the index of a document of less than 2 ^ 32 bytes a change with a range does not panic, whatever
-- the range, also one that ends before it starts or that points into a character or beyond the end: it
-- puts its text in the place of one piece of the document and keeps what stands before and behind that
-- piece.
pub apply_content_change-Patches :
    (source : Text) (range : (ℕ × ℕ) × (ℕ × ℕ)) (text : Text)
    → byte_len source < u32_mod
    → (result : Text) × (apply_content_change source (new source) (some range) text ≡ some result)
      × (Patches source text result)
unfolding apply_content_change
apply_content_change-Patches source (start, end) text fits =
    let (first, e, h) = position-boundary source start fits in
    let (last, e', h') = position-boundary source end fits in
    (
      replace_range source first last text,
      rw (e, e') refl,
      replace_range-Patches source first last text h h',
    )

snap_lem : (n : ℕ) (s : Text) → is_char_boundary n s ≡ true → snap n s ≡ n
unfolding snap
snap_lem zero s h = refl
snap_lem (suc n) s h = rw h refl

-- The position of a place in the text leads back to it.
position_to_byte_offset_lem :
    (s rest : Text)
    → byte_len (s ++ rest) + 1 < u32_mod
    → position_to_byte_offset
        (s ++ rest)
        (new (s ++ rest))
        (offset_to_position (new (s ++ rest)) (byte_len s))
      ≡ some (byte_len s)
unfolding position_to_byte_offset
position_to_byte_offset_lem s rest fits =
    let inside : ltb (byte_len (s ++ rest)) (byte_len s) ≡ false =
      ground (arith, byte_len-append s rest) in
    rw (position_to_offset-offset_to_position s rest fits)
      (rw inside (ap some (snap_lem (byte_len s) (s ++ rest) (boundary-append s rest))))

-- A change of the range between two places of a document of less than 2 ^ 32 - 1 bytes, given by
-- their positions, does not panic and replaces exactly what stands between them.
pub apply_content_change-append :
    (pre mid post text : Text)
    → byte_len (pre ++ (mid ++ post)) + 1 < u32_mod
    → (let source = pre ++ (mid ++ post) in
        let index = new source in
        apply_content_change source index
          (some (
            offset_to_position index (byte_len pre),
            offset_to_position index (byte_len (pre ++ mid)),
          ))
          text
        ≡ some (pre ++ (text ++ post)))
unfolding apply_content_change replace_range
apply_content_change-append pre mid post text fits =
    let whole = append_assoc pre mid post in
    let first = position_to_byte_offset_lem pre (mid ++ post) fits in
    let last = rw whole at (position_to_byte_offset_lem (pre ++ mid) post (rw whole fits)) in
    let ordered : ltb (byte_len (pre ++ mid)) (byte_len pre) ≡ false =
      ground (arith, byte_len-append pre mid) in
    rw first (
      rw last (
        rw ordered (
          rw (get_to-append pre (mid ++ post)) (
            rw (text_from-cut (pre ++ mid) post {n = byte_len (pre ++ mid)} (sym whole) refl)
              refl))))
