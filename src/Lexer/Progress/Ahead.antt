-- ===== src/Lexer/Progress/Ahead.antt =====
-- Cursors that bumps lead to.
use tsqlremaker.Base.{
  ℕ, zero, suc, ◌≤◌, ◌≡◌, refl, subst, sym, Bool, true, false, arith, if◌then◌else◌,
}
use tsqlremaker.Base.Loop.{
  Round, leave, again, loop, RoundInv, leaving, going_on, RoundInv-if, loop_inv,
}
use tsqlremaker.Lexer.Cursor.{Cursor, current, advance, remaining}
use tsqlremaker.Lexer.Cursor.Loop.{bump_while, bump_if, passes, advances, remaining-advance}

-- Some bumps lead from `c` to the index.
pub data Ahead (c : Cursor) : Cursor → Type 0 where
  here : Ahead c c
  next : {d e : Cursor} → Ahead c d → e ≡ advance d → Ahead c e

pub Ahead-advance : {c d : Cursor} → Ahead c d → Ahead c (advance d)
Ahead-advance a = next a refl

pub Ahead-trans : {c d e : Cursor} → Ahead c d → Ahead d e → Ahead c e
Ahead-trans a here = a
Ahead-trans a (next b e) = next (Ahead-trans a b) e

-- What a bump keeps holds at every cursor ahead.
pub Ahead_inv {κ} :
    (P : Cursor → Type κ)
    → ((d : Cursor) → P d → P (advance d))
    → {c d : Cursor} → P c
    → Ahead c d
    → P d
Ahead_inv P keep p here = p
Ahead_inv P keep p (next a e) = subst P (sym e) (keep _ (Ahead_inv P keep p a))

pub Ahead-le : {c d : Cursor} → Ahead c d → remaining d ≤ remaining c
Ahead-le {c} =
    Ahead_inv (λ d. remaining d ≤ remaining c) (λ d h. omega (arith, remaining-advance d))
      (omega arith)

pub Ahead-if : (b : Bool) {c d e : Cursor} → Ahead c d → Ahead c e → Ahead c (if b then d else e)
Ahead-if true a b = a
Ahead-if false a b = b

pub Ahead-advances : (n : ℕ) {c d : Cursor} → Ahead c d → Ahead c (advances n d)
unfolding advances
Ahead-advances zero a = a
Ahead-advances (suc n) a = Ahead-advances n (Ahead-advance a)

pub bump_if-Ahead : (b : Bool) {c d : Cursor} → Ahead c d → RoundInv (Ahead c) (bump_if b d)
bump_if-Ahead true a = going_on (Ahead-advance a)
bump_if-Ahead false a = leaving a

pub bump_while-Ahead : (test : ℕ → Bool) {c d : Cursor} → Ahead c d → Ahead c (bump_while test d)
unfolding bump_while
bump_while-Ahead test {c} {d} a =
    loop_inv (Ahead c) (λ e. bump_if (passes test (current e)) e)
      (λ e h. bump_if-Ahead (passes test (current e)) h) (suc (remaining d)) d a

pub ruleset ahead = (
  here, Ahead-advance, Ahead-if, Ahead-advances, bump_while-Ahead, leaving, going_on, RoundInv-if,
)
