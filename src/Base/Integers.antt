-- ===== src/Base/Integers.antt =====
-- Integers of 64 bits as `i64` of the standard library reads and writes them.
use Prim.Native.Nat.{ℕ, zero, suc, ◌+◌, ◌-◌, ◌*◌, ◌/◌, ◌%◌, ◌^◌}
use mathlib.Core.Option.{Option, none, some}
use mathlib.Core.List.{[], ◌∷◌}
use tsqlremaker.Base.Tests.{ltb, ◌==◌, if◌then◌else◌}
use tsqlremaker.Base.Strings.{Text, is_ascii_digit}

-- `negsuc n` is -(n + 1).
pub data ℤ : Type 0 where
  pos : ℕ → ℤ
  negsuc : ℕ → ℤ

-- The number that a text of digits stands for, behind `n`.
unfoldable pub read_digits : ℕ → Text → Option ℕ
read_digits n [] = some n
read_digits n (c ∷ s) =
    let rest = read_digits (n * 10 + (c - b'0')) s in if is_ascii_digit c then rest else none

unfoldable pub positive : Option ℕ → Option ℤ
positive none = none
positive (some n) = if ltb n (2 ^ 63) then some (pos n) else none

unfoldable pub negative : Option ℕ → Option ℤ
negative none = none
negative (some zero) = some (pos 0)
negative (some (suc n)) = if ltb n (2 ^ 63) then some (negsuc n) else none

-- Digits, one at least.
unfoldable pub read_number : Text → Option ℕ
unfolding read_digits
read_number [] = none
read_number (c ∷ s) = read_digits 0 (c ∷ s)

-- `str::parse::<i64>`, where its answer is not an error.
unfoldable pub parse_i64 : Text → Option ℤ
unfolding read_number positive negative
parse_i64 [] = none
parse_i64 (c ∷ s) =
    if c == b'-'
    then negative (read_number s)
    else if c == b'+'
    then positive (read_number s)
    else positive (read_number (c ∷ s))

-- The digits of `n` before `s`, on fuel, which `n` is enough for.
unfoldable pub digits : ℕ → ℕ → Text → Text
digits zero n s = s
digits (suc fuel) n s =
    let rest = digits fuel (n / 10) ((b'0' + n % 10) ∷ s) in
    if ltb n 10 then (b'0' + n) ∷ s else rest

unfoldable pub decimal : ℕ → Text
unfolding digits
decimal n = digits (suc n) n []

-- `i64::to_string`
unfoldable pub show_i64 : ℤ → Text
unfolding decimal
show_i64 (pos n) = decimal n
show_i64 (negsuc n) = b'-' ∷ decimal (suc n)
