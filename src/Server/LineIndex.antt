-- ===== src/Server/LineIndex.antt =====
-- Lines of a text by byte offset (crates/ase-ls-core/src/line_index.rs). Offsets are `u32`.
pub mod Starts
pub mod RoundTrip
use tsqlremaker.Base.{
  ℕ, zero, suc, ◌+◌, ◌-◌, Bool, true, false, List, [], ◌∷◌, ◌==◌, leb, ltb, if◌then◌else◌, Option,
  none, some, Text, utf8, byte_len, len_utf8, u32, length,
}

-- The Rust standard library's operations on lists and texts.
-- `partition_point`: how many elements at the front pass the test
unfoldable pub partition_point : (ℕ → Bool) → List ℕ → ℕ
partition_point p [] = 0
partition_point p (x ∷ xs) = if p x then suc (partition_point p xs) else 0

-- `get(i)`, or 0 out of range
unfoldable pub get_or_zero : List ℕ → ℕ → ℕ
get_or_zero [] i = 0
get_or_zero (x ∷ xs) zero = x
get_or_zero (x ∷ xs) (suc i) = get_or_zero xs i

-- `get(start..)` of a text: none inside a character and beyond the end, where `&source[start..]`
-- panics
unfoldable pub text_from : ℕ → Text → Option Text
text_from zero s = some s
text_from (suc k) [] = none
text_from (suc k) (c ∷ s) =
    let rest = text_from (suc k - len_utf8 c) s in if ltb (suc k) (len_utf8 c) then none else rest

pub record LineIndex : Type 0 where
  pub line_offsets : List ℕ

-- The loop of `new` over the bytes, from byte `i` on.
unfoldable pub offsets_from : ℕ → List ℕ → List ℕ
offsets_from i [] = []
offsets_from i (b ∷ bs) =
    let rest = offsets_from (i + 1) bs in if b == b'\n' then u32 (i + 1) ∷ rest else rest

unfoldable pub new : Text → LineIndex
new source = record { line_offsets = 0 ∷ offsets_from 0 (utf8 source) }

unfoldable pub line_number : LineIndex → ℕ → ℕ
line_number x offset = u32 (partition_point (λ off. leb off offset) x.line_offsets) - 1

-- `offset_to_position`. The line is one of the index, so the access to it does not panic.
unfoldable pub offset_to_position : LineIndex → ℕ → ℕ × ℕ
offset_to_position x offset =
    let line = line_number x offset in (line, offset - get_or_zero x.line_offsets line)

-- The loop of `position_to_offset` over the characters of the line and what follows.
unfoldable pub count_to : ℕ → ℕ → Text → ℕ
count_to target counted [] = counted
count_to target counted (c ∷ s) =
    if leb target counted then counted else count_to target (counted + len_utf8 c) s

abbrev pub counted_from : ℕ → ℕ → Option Text → Option ℕ
counted_from char_offset character none = none
counted_from char_offset character (some s) = some (char_offset + count_to character 0 s)

-- `position_to_offset`; none is the panic of its slice.
unfoldable pub position_to_offset : LineIndex → Text → ℕ × ℕ → Option ℕ
position_to_offset x source (line, character) =
    let char_offset = get_or_zero x.line_offsets line in
    if leb (length x.line_offsets) line
    then some (byte_len source)
    else counted_from char_offset character (text_from char_offset source)

unfoldable pub line_count : LineIndex → ℕ
line_count x = length x.line_offsets

unfoldable pub line_offset : LineIndex → ℕ → ℕ
line_offset x line = get_or_zero x.line_offsets line

-- `offset_to_range`: the positions of its start and of its end
unfoldable pub offset_to_range : LineIndex → ℕ → ℕ → (ℕ × ℕ) × (ℕ × ℕ)
offset_to_range x start_offset end_offset =
    (offset_to_position x start_offset, offset_to_position x end_offset)
