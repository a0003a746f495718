-- ===== src/Lexer/Progress/Scans.antt =====
-- The loops over comments and of the error recovery bump.
use tsqlremaker.Base.{ℕ, suc, Option, none, some}
use tsqlremaker.Base.Loop.{RoundInv, leaving, loop_inv}
use tsqlremaker.Lexer.Cursor.{Cursor, current, advance, remaining}
use tsqlremaker.Lexer.Read.Comments.{scan_block, block_round, scan_line, line_round}
use tsqlremaker.Lexer.Read.Comments
use tsqlremaker.Lexer.Stream.{sync_at, sync_round, synchronize}
use tsqlremaker.Lexer.Progress.Ahead.{Ahead, here, ahead}

block_round-Ahead :
    {c : Cursor} (s : Comments.Scan)
    → Ahead c s.1
    → RoundInv (λ (t : Comments.Scan). Ahead c t.1) (block_round s)
unfolding block_round
block_round-Ahead (depth, d) a = search ahead depth 8

pub scan_block-Ahead : (c : Cursor) → Ahead c (scan_block c).1
unfolding scan_block
scan_block-Ahead c =
    loop_inv (λ (t : Comments.Scan). Ahead c t.1) block_round block_round-Ahead (suc (remaining c))
      (1, c) here

pub scan_line-Ahead : (c : Cursor) → Ahead c (scan_line c)
unfolding scan_line line_round
scan_line-Ahead c = loop_inv (Ahead c) line_round (λ d a. search ahead) (suc (remaining c)) c here

sync_at-Ahead :
    (o : Option ℕ) {c : Cursor} (d : Cursor) → Ahead c d → RoundInv (Ahead c) (sync_at o d)
unfolding sync_at
sync_at-Ahead none d a = leaving a
sync_at-Ahead (some ch) d a = search ahead depth 7

pub synchronize-Ahead : (c : Cursor) → Ahead (advance c) (synchronize c)
unfolding synchronize sync_round
synchronize-Ahead c =
    loop_inv (Ahead (advance c)) sync_round (λ d a. sync_at-Ahead (current d) d a)
      (suc (remaining (advance c))) (advance c) here
