-- ===== src/Base/Loop.antt =====
-- A `while` loop with `break`, on fuel, and its rules.
use Prim.Native.Nat.{ℕ, zero, suc, ◌<◌}
use mathlib.Core.Path.{◌≡◌, refl}
use mathlib.Core.Bool.{Bool, true, false}
use native.Mathlib.Omega.{arith}
use tsqlremaker.Base.Tests.{if◌then◌else◌}

-- What a round of the loop says: leave with this state, or go on with it.
pub data Round {ℓ} (S : Type ℓ) : Type ℓ where
  leave : S → Round S
  again : S → Round S

abbrev pub resume {ℓ} : {S : Type ℓ} → Round S → (S → S) → S
resume (leave s) go_on = s
resume (again s) go_on = go_on s

unfoldable pub loop {ℓ} : {S : Type ℓ} → ℕ → (S → Round S) → S → S
loop zero body s = s
loop (suc fuel) body s = resume (body s) (loop fuel body)

-- The state in a round's answer.
abbrev pub state_of {ℓ} : {S : Type ℓ} → Round S → S
state_of (leave s) = s
state_of (again s) = s

-- `P` holds of the state in the answer.
pub data RoundInv {ℓ κ} {S : Type ℓ} (P : S → Type κ) : Round S → Type (ℓ ⊔ κ) where
  leaving : {s : S} → P s → RoundInv P (leave s)
  going_on : {s : S} → P s → RoundInv P (again s)

module _ {ℓ κ} {S : Type ℓ} {P : S → Type κ} where
  pub RoundInv-if :
      (b : Bool) {x y : Round S} → RoundInv P x → RoundInv P y → RoundInv P (if b then x else y)
  RoundInv-if true p q = p
  RoundInv-if false p q = q

  pub RoundInv-state_of : {r : Round S} → RoundInv P r → P (state_of r)
  RoundInv-state_of (leaving p) = p
  RoundInv-state_of (going_on p) = p

-- The round leaves, or goes on with a smaller measure.
abbrev pub Shrinks {ℓ} : {S : Type ℓ} → (S → ℕ) → ℕ → Round S → Type 0
Shrinks measure n (leave s) = Unit
Shrinks measure n (again s) = measure s < n

module _ {ℓ κ} {S : Type ℓ} (P : S → Type κ) where
  resume_inv :
      (r : Round S) (go_on : S → S)
      → P (state_of r)
      → ((s : S) → P s → P (go_on s))
      → P (resume r go_on)
  resume_inv (leave s) go_on p k = p
  resume_inv (again s) go_on p k = k s p

  -- What every round keeps, the loop keeps.
  pub loop_inv :
      (body : S → Round S)
      → ((s : S) → P s → RoundInv P (body s))
      → (fuel : ℕ) (s : S) → P s
      → P (loop fuel body s)
  unfolding loop
  loop_inv body keep zero s p = p
  loop_inv body keep (suc fuel) s p =
      resume_inv (body s) (loop fuel body) (RoundInv-state_of (keep s p)) (loop_inv body keep fuel)

module _ {ℓ} {S : Type ℓ} (measure : S → ℕ) (body : S → Round S) where
  -- The loop came to its end by a `break` in the state `s`.
  abbrev pub Leaves : S → S → Type ℓ
  Leaves t s = body t ≡ leave s

  resume-Leaves :
      (n : ℕ) (t : S) (r : Round S) (go_on : S → S)
      → body t ≡ r
      → Shrinks measure n r
      → ((s : S) → measure s < n → (u : S) × Leaves u (go_on s))
      → (u : S) × Leaves u (resume r go_on)
  resume-Leaves n t (leave s) go_on e h k = (t, e)
  resume-Leaves n t (again s) go_on e h k = k s h

  -- With more fuel than the measure the loop ends by a `break`.
  pub loop-Leaves :
      ((s : S) → Shrinks measure (measure s) (body s))
      → (fuel : ℕ) (s : S) → measure s < fuel
      → (u : S) × Leaves u (loop fuel body s)
  unfolding loop
  loop-Leaves shrink zero s h = absurd (omega arith)
  loop-Leaves shrink (suc fuel) s h =
      resume-Leaves (measure s) s (body s) (loop fuel body) refl (shrink s)
        λ t lt. loop-Leaves shrink fuel t (omega arith)
