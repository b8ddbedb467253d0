-- ===== src/Problem/Placements.antt =====
-- `msearch_placement_count` (src/core/problem.c) on sides that are not negative.
use mpi_local_lab.Base.{ℕ, ◌+◌, ◌-◌, ◌*◌, ◌≤◌, ◌<◌, ◌≡◌, arith}
use mpi_local_lab.Base.Int.{pos, ◌+ℤ◌, ◌-ℤ◌, ◌*ℤ◌}
use mpi_local_lab.Problem.{placement_count}

pub span_lem : (n m : ℕ) → m ≤ n → pos n -ℤ pos m +ℤ pos 1 ≡ pos (n - m + 1)
unfolding ◌+ℤ◌ ◌-ℤ◌
span_lem n m h = ground arith

square_lem : (a : ℕ) → pos a *ℤ pos a ≡ pos (a * a)
unfolding ◌*ℤ◌
square_lem a = ground arith

pub placement_count_of_le :
    (n m : ℕ) → m ≤ n → placement_count (pos n) (pos m) ≡ pos ((n - m + 1) * (n - m + 1))
unfolding placement_count
placement_count_of_le n m h = rw (span_lem n m h) (ground (arith, square_lem (n - m + 1)))

pub placement_count_of_lt : (n m : ℕ) → n < m → placement_count (pos n) (pos m) ≡ pos 0
unfolding placement_count ◌+ℤ◌ ◌-ℤ◌
placement_count_of_lt n m h = ground arith
