-- ===== src/Server/Incremental.antt =====
-- Edits of a document that the editor sends (crates/ase-ls-core/src/incremental.rs).
pub mod Boundaries
pub mod Patch
use tsqlremaker.Base.{
  ℕ, zero, suc, ◌-◌, Bool, true, false, List, [], ◌∷◌, ◌++◌, ltb, if◌then◌else◌, Option, none, some,
  Text, byte_len, len_utf8, is_char_boundary,
}
use tsqlremaker.Server.LineIndex.{LineIndex, text_from, position_to_offset}

-- The Rust standard library's `get(..n)` of a text: none inside a character, and beyond the end.
-- `get(n..)` is `text_from`.
abbrev pub cons : ℕ → Option Text → Option Text
cons c none = none
cons c (some s) = some (c ∷ s)

unfoldable pub get_to : ℕ → Text → Option Text
get_to zero s = some []
get_to (suc n) [] = none
get_to (suc n) (c ∷ s) =
    let rest = get_to (suc n - len_utf8 c) s in
    if ltb (suc n) (len_utf8 c) then none else cons c rest

-- `unwrap_or("")`
abbrev pub or_empty : Option Text → Text
or_empty none = []
or_empty (some s) = s

-- The loop of `position_to_byte_offset` down to a boundary.
unfoldable pub snap : ℕ → Text → ℕ
snap zero source = zero
snap (suc n) source =
    let lower = snap n source in if is_char_boundary (suc n) source then suc n else lower

abbrev pub clip : ℕ → Text → ℕ
clip offset source = if ltb (byte_len source) offset then byte_len source else offset

abbrev pub snapped : Text → Option ℕ → Option ℕ
snapped source none = none
snapped source (some offset) = some (snap (clip offset source) source)

-- None is the panic of `position_to_offset`.
unfoldable pub position_to_byte_offset : Text → LineIndex → ℕ × ℕ → Option ℕ
position_to_byte_offset source index position =
    snapped source (position_to_offset index source position)

-- The text with the bytes from one offset to another replaced.
unfoldable pub replace_range : Text → ℕ → ℕ → Text → Text
replace_range source start_offset end_offset text =
    let start = if ltb end_offset start_offset then end_offset else start_offset in
    or_empty (get_to start source) ++ (text ++ or_empty (text_from end_offset source))

abbrev pub replace_between : Text → Option ℕ → Option ℕ → Text → Option Text
replace_between source (some start_offset) (some end_offset) text =
    some (replace_range source start_offset end_offset text)
replace_between source _ _ text = none

-- `apply_content_change`, on the range and the text of the change; none is a panic.
unfoldable pub apply_content_change :
    Text → LineIndex → Option ((ℕ × ℕ) × (ℕ × ℕ)) → Text → Option Text
apply_content_change source index none text = some text
apply_content_change source index (some (start, end)) text =
    replace_between source (position_to_byte_offset source index start)
      (position_to_byte_offset source index end) text
