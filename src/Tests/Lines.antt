-- ===== src/Tests/Lines.antt =====
-- Instances of the theorems on the line index.
use tsqlremaker.Base.{◌≡◌, ◌++◌, ◌∷◌, some, Text, codes, byte_len, len_utf8, arith}
use tsqlremaker.Server.LineIndex.{new, offset_to_position, position_to_offset}
use tsqlremaker.Server.LineIndex.Starts.{newlines, last_line}
use tsqlremaker.Server.LineIndex.RoundTrip.{
  offset_to_position-append, position_to_offset-offset_to_position,
}

-- A line, a second one up to a letter of two bytes, and the rest.
abbrev before : Text
before = codes "SELECT a" ++ b'\n' ∷ codes "FROM tä"

abbrev behind : Text
behind = codes "b" ++ b'\n' ∷ codes "WHERE"

offset_to_position-append_example :
    offset_to_position (new (before ++ behind)) (byte_len before)
    ≡ (newlines before, byte_len (last_line before))
unfolding byte_len len_utf8
offset_to_position-append_example = offset_to_position-append before behind (omega arith)

position_to_offset-offset_to_position_example :
    position_to_offset
      (new (before ++ behind))
      (before ++ behind)
      (offset_to_position (new (before ++ behind)) (byte_len before))
    ≡ some (byte_len before)
unfolding byte_len len_utf8
position_to_offset-offset_to_position_example =
    position_to_offset-offset_to_position before behind (omega arith)
