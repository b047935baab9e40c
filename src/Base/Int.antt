-- ===== src/Base/Int.antt =====
-- Go's 64-bit integers: `uint64` is a number below 2 ^ 64, and `int` and `int64` are integers.
use Prim.Native.Nat.{ℕ, suc, ◌+◌, ◌-◌, ◌%◌, ◌^◌}
use mathlib.Core.Bool.{Bool}
use deltanar.Base.Tests.{ltb, if◌then◌else◌}

-- `negsuc n` is -(n + 1).
pub data ℤ : Type 0 where
  pos : ℕ → ℤ
  negsuc : ℕ → ℤ

abbrev pub pos_part : ℤ → ℕ
pos_part (pos n) = n
pos_part (negsuc n) = 0

abbrev pub neg_part : ℤ → ℕ
neg_part (pos n) = 0
neg_part (negsuc n) = suc n

abbrev pub ltb_ℤ : ℤ → ℤ → Bool
ltb_ℤ a b = ltb (pos_part a + neg_part b) (pos_part b + neg_part a)

-- `int(w)` of a uint64, and `uint64(a)` of an int, in two's complement.
abbrev pub int_of_u64 : ℕ → ℤ
int_of_u64 w = if ltb w (2 ^ 63) then pos w else negsuc (2 ^ 64 - w - 1)

abbrev pub u64_of_int : ℤ → ℕ
u64_of_int (pos n) = n % 2 ^ 64
u64_of_int (negsuc n) = (2 ^ 64 - (n % 2 ^ 64) - 1) % 2 ^ 64

-- a + b on int, with its wrap-around.
abbrev pub add_int : ℤ → ℤ → ℤ
add_int a b = int_of_u64 ((u64_of_int a + u64_of_int b) % 2 ^ 64)

-- a + b on uint64.
abbrev pub add_u64 : ℕ → ℕ → ℕ
add_u64 a b = (a + b) % 2 ^ 64
