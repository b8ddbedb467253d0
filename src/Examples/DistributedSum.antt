-- ===== src/Examples/DistributedSum.antt =====
-- examples/distributed-sum/main.c: the sum of 1 to n, over the ranks.
pub mod Total
use mpi_local_lab.Base.{
  ℕ, zero, suc, ◌+◌, ◌*◌, ◌/◌, ◌<◌, ◌≤◌, ◌≡◌, Bool, List, [], ◌∷◌, length, take, drop,
}
use mpi_local_lab.Base.Int.{ℤ, pos, pos_part, ◌+ℤ◌, eqb_ℤ}
use mpi_local_lab.Base.Machine.{to_int}
use mpi_local_lab.Examples.Shares.{share, offset}

unfoldable pub sum_list : List ℤ → ℤ
sum_list [] = pos 0
sum_list (x ∷ xs) = x +ℤ sum_list xs

-- The values of the ranks below n, added up.
unfoldable pub sum_ranks : ℕ → (ℕ → ℤ) → ℤ
sum_ranks zero f = pos 0
sum_ranks (suc n) f = sum_ranks n f +ℤ f n

-- The two collectives of the program, with what the MPI standard says of them.
pub record SumCollectives : Type 0 where
  -- MPI_Scatterv: the slice that a rank receives.
  pub scatterv : (ranks : ℕ) (whole : List ℤ) (counts displs : ℕ → ℕ) → ℕ → List ℤ
  -- MPI_Reduce with MPI_SUM on the root.
  pub reduce_sum : (ranks : ℕ) → (ℕ → ℤ) → ℤ
  pub scatterv_lem :
      (ranks : ℕ) (whole : List ℤ) (counts displs : ℕ → ℕ) (r : ℕ)
      → r < ranks
      → displs r + counts r ≤ length whole
      → scatterv ranks whole counts displs r ≡ take (counts r) (drop (displs r) whole)
  pub reduce_sum_lem : (ranks : ℕ) (sent : ℕ → ℤ) → reduce_sum ranks sent ≡ sum_ranks ranks sent

-- `whole[i] = (int)(i + 1)`, from i on, for the rounds left.
unfoldable pub fill : (rounds i : ℕ) → List ℤ
fill zero i = []
fill (suc k) i = to_int (i + 1) ∷ fill k (suc i)

-- `counts` and `displs`, which are arrays of int.
unfoldable pub counts : (n ranks r : ℕ) → ℕ
unfolding share
counts n ranks r = pos_part (to_int (share n ranks r))

unfoldable pub displs : (n ranks r : ℕ) → ℕ
unfolding offset
displs n ranks r = pos_part (to_int (offset n ranks r))

-- `total` on rank 0, behind the reduction.
unfoldable pub total : SumCollectives → (n ranks : ℕ) → ℤ
unfolding fill counts displs sum_list
total mpi n ranks =
    let slice = mpi.scatterv ranks (fill n 0) (counts n ranks) (displs n ranks) in
    mpi.reduce_sum ranks (λ r. sum_list (slice r))

abbrev pub expected : ℕ → ℤ
expected n = pos (n * (n + 1) / 2)

-- Whether rank 0 reports `match = yes`, and exits with 0.
unfoldable pub is_match : SumCollectives → (n ranks : ℕ) → Bool
unfolding total
is_match mpi n ranks = eqb_ℤ (total mpi n ranks) (expected n)
