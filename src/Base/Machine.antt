-- ===== src/Base/Machine.antt =====
-- The conversions between C's integer types that the program writes as casts.
use mpi_local_lab.Base.Tests.{ltb, if◌then◌else◌}
use mpi_local_lab.Base.Int.{ℤ, pos, negsuc, sub_ℕ}
use Prim.Native.Nat.{ℕ, ◌-◌, ◌%◌, ◌^◌, ◌<◌}
use mathlib.Core.Path.{◌≡◌}
use native.Mathlib.Omega.{arith}

-- `INT_MAX`, and with it `MSEARCH_NO_PLACEMENT`.
abbrev pub int_max : ℕ
int_max = 2147483647

-- `(int)k` of a non-negative `long long`: the low 32 bits, read as two's complement.
unfoldable pub to_int : ℕ → ℤ
to_int k = let w = k % 2 ^ 32 in if ltb w (2 ^ 31) then pos w else sub_ℕ w (2 ^ 32)

-- `(size_t)i` of an int.
unfoldable pub size_t : ℤ → ℕ
size_t (pos k) = k
size_t (negsuc k) = 2 ^ 64 - 1 - k

-- A value that fits keeps its value under the cast.
pub to_int_of_lt : (k : ℕ) → k < 2 ^ 31 → to_int k ≡ pos k
unfolding to_int
to_int_of_lt k h = ground arith
