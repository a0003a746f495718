-- ===== src/Token/Position.antt =====
-- Positions and spans (crates/tsql-token/src/position.rs). The fields are `u32`.
use tsqlremaker.Base.{
  ℕ, ◌+◌, ◌-◌, ◌*◌, ◌/◌, ◌^◌, Bool, ◌||◌, ltb, ◌==◌, if◌then◌else◌, u32, len_utf8,
}

-- A range of bytes, its end excluded.
pub record Span : Type 0 where
  pub start : ℕ
  pub end : ℕ

-- A line and a column, from 1, and a byte offset, from 0.
pub record Position : Type 0 where
  pub line : ℕ
  pub column : ℕ
  pub offset : ℕ

abbrev pub start : Position
start = record { line = 1; column = 1; offset = 0 }

-- `Span::len` is used on spans whose end is not before their start.
unfoldable pub len : Span → ℕ
len s = s.end - s.start

unfoldable pub is_empty : Span → Bool
is_empty s = s.start == s.end

unfoldable pub merge : Span → Span → Span
merge a b = record {
  start = if ltb a.start b.start then a.start else b.start;
  end = if ltb b.end a.end then a.end else b.end;
}

-- `((column - 1 + tab_width) / tab_width) * tab_width + 1`, with the wrap-around of `u32`.
unfoldable pub next_tab_stop : ℕ → ℕ → ℕ
next_tab_stop column w = u32 (u32 (u32 (u32 (column + 2 ^ 32 - 1) + w) / w * w) + 1)

unfoldable pub next_char : Position → ℕ → ℕ → Position
unfolding next_tab_stop len_utf8
next_char p ch w =
    if ch == b'\r' || ch == b'\n'
    then record { line = u32 (p.line + 1); column = 1; offset = u32 (p.offset + 1) }
    else if ch == b'\t'
    then record { line = p.line; column = next_tab_stop p.column w; offset = u32 (p.offset + 1) }
    else record {
      line = p.line;
      column = u32 (p.column + 1);
      offset = u32 (p.offset + len_utf8 ch);
    }

unfoldable pub advance_bytes : Position → ℕ → Position
advance_bytes p bytes = record p { offset = u32 (p.offset + bytes) }

unfoldable pub to_span : Position → ℕ → Span
to_span p length = record { start = p.offset; end = u32 (p.offset + length) }
