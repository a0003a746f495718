-- ===== src/Base/Words.antt =====
-- Unsigned 32-bit words as numbers below 2 ^ 32.
use Prim.Native.Nat.{ℕ, ◌%◌, ◌^◌}

abbrev pub u32_mod : ℕ
u32_mod = 2 ^ 32

-- `n as u32`, and the wrap-around of a sum or a product in `u32`.
abbrev pub u32 : ℕ → ℕ
u32 n = n % 2 ^ 32
