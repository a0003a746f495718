-- ===== src/Lexer/Read/Comments.antt =====
-- The loops over the text of a comment.
use tsqlremaker.Base.{ℕ, suc, ◌+◌, ◌-◌, ◌==◌, ◌&&◌, not, if◌then◌else◌}
use tsqlremaker.Base.Loop.{Round, leave, again, loop}
use tsqlremaker.Lexer.Cursor.{Cursor, current, peek, advance, at_char, is_eof, remaining}

-- The depth of nesting, and the cursor.
abbrev pub Scan : Type 0
Scan = ℕ × Cursor

unfoldable pub block_round : Scan → Round Scan
block_round (depth, c) =
    let c₂ = advance (advance c) in
    if is_eof c
    then leave (depth, c)
    else if at_char b'/' (current c) && at_char b'*' (peek c)
    then again (depth + 1, c₂)
    else if at_char b'*' (current c) && at_char b'/' (peek c)
    then (if depth - 1 == 0 then leave (depth - 1, c₂) else again (depth - 1, c₂))
    else again (depth, advance c)

-- From behind the opening `/*`.
unfoldable pub scan_block : Cursor → Scan
scan_block c = loop (suc (remaining c)) block_round (1, c)

unfoldable pub line_round : Cursor → Round Cursor
line_round c =
    if not (is_eof c) && not (at_char b'\n' (current c)) then again (advance c) else leave c

-- From behind the opening `--`.
unfoldable pub scan_line : Cursor → Cursor
scan_line c = loop (suc (remaining c)) line_round c
