-- ===== src/Runtime/Claims/Buffers.antt =====
-- The buffers of records (src/runtime/runner_mpi.c): that of each rank, and rank 0's for all.
use mpi_local_lab.Base.{ℕ, zero, suc, ◌≤◌, ◌<◌, arith, List, length, ℕ_discrete}
use mpi_local_lab.Types.{Status, Picture}
use mpi_local_lab.Runtime.{Backend}
use mpi_local_lab.Runtime.Claims.{World, Run}
use mpi_local_lab.Runtime.Claims.Invariant.{sum, held, Run-Inv}

record_total-le : (n : ℕ) (w : World) → sum n (λ r. length (w.records r)) ≤ held n w
unfolding sum
record_total-le zero w = omega arith
record_total-le (suc n) w = ground (arith, record_total-le n w)

le-sum : (n : ℕ) (f : ℕ → ℕ) (r : ℕ) → r < n → f r ≤ sum n f
unfolding sum
le-sum zero f r lt = absurd (omega arith)
le-sum (suc n) f r lt = elim (ℕ_discrete r n) [
  | yes last ↦ rw last (omega arith)
  | no other ↦ omega (arith, le-sum n f r (omega (arith, lt, other)))
]

-- At every moment of a run no rank has written more records than there are pictures, and all ranks
-- together have not either: neither the buffer of a rank nor that of rank 0 overflows.
pub Run-fits :
    (backend : Backend) (pictures : List Picture) (ranks : ℕ) (started : ℕ → Status) (w : World)
    → Run backend pictures ranks started w
    → ((r : ℕ) → r < ranks → length (w.records r) ≤ length pictures)
      × (sum ranks (λ r. length (w.records r)) ≤ length pictures)
Run-fits backend pictures ranks started w run =
    let total = record_total-le ranks w in
    let bound = (Run-Inv backend pictures ranks started run).held-le-length in
    (
      λ r lt. omega (arith, total, bound, le-sum ranks (λ q. length (w.records q)) r lt),
      omega (arith, total, bound),
    )
