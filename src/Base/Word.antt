-- ===== src/Base/Word.antt =====
-- Go's `int64` and `uint64`: every result is taken modulo 2 ^ 64.
use Prim.Native.Nat.{ℕ, ◌+◌, ◌-◌, ◌*◌, ◌%◌, ◌^◌, ◌≤◌, ◌<◌}
use mathlib.Core.Path.{◌≡◌}
use native.Mathlib.Omega.{arith}
use air_fi.Base.Tests.{ltb, if◌then◌else◌}
use air_fi.Base.Int.{ℤ, pos, negsuc, pos_part, neg_part, ◌+ℤ◌, ◌-ℤ◌, ◌*ℤ◌}

-- The bit pattern of an integer.
abbrev pub bits64 : ℤ → ℕ
bits64 (pos n) = n % 2 ^ 64
bits64 (negsuc n) = 2 ^ 64 - 1 - n % 2 ^ 64

-- The `int64` with a bit pattern.
abbrev pub signed64 : ℕ → ℤ
signed64 r = if ltb r (2 ^ 63) then pos r else negsuc (2 ^ 64 - 1 - r)

-- `int64(x)`, and `x.Int64()` of a `big.Int`.
unfoldable pub wrap64 : ℤ → ℤ
wrap64 z = signed64 (bits64 z)

unfoldable pub add_i64 : ℤ → ℤ → ℤ
unfolding wrap64 ◌+ℤ◌
add_i64 a b = wrap64 (a +ℤ b)

unfoldable pub sub_i64 : ℤ → ℤ → ℤ
unfolding wrap64 ◌-ℤ◌
sub_i64 a b = wrap64 (a -ℤ b)

unfoldable pub mul_i64 : ℤ → ℤ → ℤ
unfolding wrap64 ◌*ℤ◌
mul_i64 a b = wrap64 (a *ℤ b)

-- Unsigned: `uint64`.
unfoldable pub add_u64 : ℕ → ℕ → ℕ
add_u64 a b = (a + b) % 2 ^ 64

unfoldable pub sub_u64 : ℕ → ℕ → ℕ
sub_u64 a b = (a + 2 ^ 64 - b) % 2 ^ 64

unfoldable pub mul_u64 : ℕ → ℕ → ℕ
mul_u64 a b = (a * b) % 2 ^ 64

abbrev pub IsInt64 : ℤ → Type 0
IsInt64 z = (pos_part z < 2 ^ 63) × (neg_part z ≤ 2 ^ 63)

-- In range nothing wraps.
pub wrap64-eq_self : (z : ℤ) → IsInt64 z → wrap64 z ≡ z
unfolding wrap64
wrap64-eq_self (pos n) h = ground arith
wrap64-eq_self (negsuc n) h = ground arith

pub wrap64-IsInt64 : (z : ℤ) → IsInt64 (wrap64 z)
unfolding wrap64
wrap64-IsInt64 (pos n) = ground arith
wrap64-IsInt64 (negsuc n) = ground arith

pub add_u64-eq : (a b : ℕ) → a + b < 2 ^ 64 → add_u64 a b ≡ a + b
unfolding add_u64
add_u64-eq a b h = omega arith

pub sub_u64-eq : (a b : ℕ) → b ≤ a → a < 2 ^ 64 → sub_u64 a b ≡ a - b
unfolding sub_u64
sub_u64-eq a b h k = omega arith
