-- ===== src/Base/Int.antt =====
-- Go's `int`, as far as the program compares and prints it.
use Prim.Native.Nat.{ℕ}
use mathlib.Core.Bool.{Bool, true, false}
use familiar_fleet.Base.Tests.{ltb}
use familiar_fleet.Base.Equal.{nat_eq, ◌==◌}

-- `negsuc n` is -(n + 1).
pub data ℤ : Type 0 where
  pos : ℕ → ℤ
  negsuc : ℕ → ℤ

-- i < n, for a bound that is not negative
abbrev pub int_lt : ℤ → ℕ → Bool
int_lt (pos i) n = ltb i n
int_lt (negsuc i) n = true

-- n < i
abbrev pub lt_int : ℕ → ℤ → Bool
lt_int n (pos i) = ltb n i
lt_int n (negsuc i) = false

-- i == n
abbrev pub int_is : ℤ → ℕ → Bool
int_is (pos i) n = i == n
int_is (negsuc i) n = false
