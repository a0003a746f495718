-- ===== src/Emitter/Quoting.antt =====
-- Names and strings of PostgreSQL (crates/postgresql-emitter/src/mappers/identifier.rs and
-- expression.rs).
pub mod Bytes
pub mod Reading
use tsqlremaker.Base.{
  ℕ, Bool, true, false, ◌&&◌, ◌||◌, not, List, [], ◌∷◌, ◌++◌, ◌==◌, leb, if◌then◌else◌, Text, utf8,
  text_eq, is_ascii_digit,
}
use tsqlremaker.Emitter.Reserved.{reserved_words}

-- `u8::is_ascii_lowercase`
unfoldable pub is_ascii_lowercase : ℕ → Bool
is_ascii_lowercase b = leb b'a' b && leb b b'z'

-- `contains` of a list of texts
unfoldable pub contains : List Text → Text → Bool
contains [] s = false
contains (w ∷ ws) s = text_eq w s || contains ws s

-- `str::replace` of a character by two of it.
unfoldable pub doubled : ℕ → Text → Text
doubled q [] = []
doubled q (c ∷ s) = if c == q then q ∷ q ∷ doubled q s else c ∷ doubled q s

-- The loop over the bytes behind the first.
unfoldable pub has_other : List ℕ → Bool
has_other [] = false
has_other (b ∷ bs) =
    if not (is_ascii_lowercase b) && not (is_ascii_digit b) && not (b == b'_')
    then true
    else has_other bs

unfoldable pub bytes_need_quoting : List ℕ → Bool
bytes_need_quoting [] = true
bytes_need_quoting (first ∷ bs) =
    if not (is_ascii_lowercase first) && not (first == b'_') then true else has_other bs

-- `needs_quoting`, over `str::to_uppercase`
unfoldable pub needs_quoting : (Text → Text) → Text → Bool
needs_quoting to_uppercase [] = true
needs_quoting to_uppercase (c ∷ s) =
    if contains reserved_words (to_uppercase (c ∷ s))
    then true
    else bytes_need_quoting (utf8 (c ∷ s))

unfoldable pub quote : (Text → Text) → Text → Text
quote to_uppercase identifier =
    if needs_quoting to_uppercase identifier
    then b'"' ∷ (doubled b'"' identifier ++ (b'"' ∷ []))
    else identifier

-- A string literal of `emit_literal`
unfoldable pub emit_string : Text → Text
emit_string s = b'\'' ∷ (doubled b'\'' s ++ (b'\'' ∷ []))
