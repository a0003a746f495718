-- ===== src/Tests/Editing.antt =====
-- Instances of the theorems on the edits of a document.
use tsqlremaker.Base.{◌≡◌, ◌++◌, ◌∷◌, some, Text, codes, byte_len, len_utf8, arith}
use tsqlremaker.Server.LineIndex.{new, offset_to_position}
use tsqlremaker.Server.Incremental.{apply_content_change}
use tsqlremaker.Server.Incremental.Patch.{
  Patches, apply_content_change-Patches, apply_content_change-append,
}

-- Two lines up to a place, what is to go, and the rest.
abbrev kept : Text
kept = codes "SELECT a" ++ b'\n' ∷ codes "FROM "

abbrev old : Text
old = codes "tä"

abbrev after : Text
after = codes " x" ++ b'\n' ∷ codes "WHERE"

abbrev renamed : Text
renamed = codes "users"

apply_content_change-append_example :
    apply_content_change
      (kept ++ (old ++ after))
      (new (kept ++ (old ++ after)))
      (some (
        offset_to_position (new (kept ++ (old ++ after))) (byte_len kept),
        offset_to_position (new (kept ++ (old ++ after))) (byte_len (kept ++ old)),
      ))
      renamed
    ≡ some (kept ++ (renamed ++ after))
unfolding byte_len len_utf8
apply_content_change-append_example =
    apply_content_change-append kept old after renamed (omega arith)

-- A range from beyond the end back to the second line, inside its letter of two bytes.
apply_content_change-Patches_example :
    (result : Text) × (apply_content_change
        (kept ++ old)
        (new (kept ++ old))
        (some ((7, 0), (1, 7)))
        renamed
      ≡ some result)
    × (Patches (kept ++ old) renamed result)
unfolding byte_len len_utf8
apply_content_change-Patches_example =
    apply_content_change-Patches (kept ++ old) ((7, 0), (1, 7)) renamed (omega arith)
