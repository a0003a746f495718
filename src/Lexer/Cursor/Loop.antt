-- ===== src/Lexer/Cursor/Loop.antt =====
-- The loop `while let Some(ch) = current() { if test(ch) { bump(); } else { break; } }`, and how much
-- text a bump leaves.
use tsqlremaker.Base.{ℕ, zero, suc, ◌≤◌, ◌<◌, ◌≡◌, Bool, true, false, Option, none, some, arith}
use tsqlremaker.Base.Loop.{Round, leave, again, loop}
use tsqlremaker.Lexer.Cursor.{Cursor, current, bump, advance, remaining}

abbrev pub passes : (ℕ → Bool) → Option ℕ → Bool
passes test none = false
passes test (some ch) = test ch

abbrev pub bump_if : Bool → Cursor → Round Cursor
bump_if true c = again (advance c)
bump_if false c = leave c

-- A round for each character left, and one to see the end.
unfoldable pub bump_while : (ℕ → Bool) → Cursor → Cursor
bump_while test c = loop (suc (remaining c)) (λ d. bump_if (passes test (current d)) d) c

-- `n` bumps.
unfoldable pub advances : ℕ → Cursor → Cursor
advances zero c = c
advances (suc n) c = advances n (advance c)

pub remaining-advance : (c : Cursor) → remaining (advance c) ≤ remaining c
unfolding remaining bump
remaining-advance c = ground arith

-- A bump at a character takes it off.
pub remaining-advance_lt :
    (c : Cursor) {ch : ℕ} → current c ≡ some ch → remaining (advance c) < remaining c
unfolding remaining bump current
remaining-advance_lt c h = ground arith
