-- ===== src/Runtime/Collectives.antt =====
-- The MPI collectives that the programs call. MPI is not part of the repository, so they are a
-- parameter of the model, with what the MPI standard says of them.
use mpi_local_lab.Base.{ℕ, zero, suc, ◌+◌, ◌≤◌, ◌<◌, ◌≡◌, List, [], ◌++◌, length}

-- The blocks of the ranks below n, one behind the other.
unfoldable pub joined {ℓ} : {A : Type ℓ} → ℕ → (ℕ → List A) → List A
joined zero f = []
joined (suc n) f = joined n f ++ f n

-- `for (r = 0; r < n; ++r) { displs[r] = total; total += counts[r]; }`: the total in front of r.
unfoldable pub displs_of : (ℕ → ℕ) → ℕ → ℕ
displs_of counts zero = 0
displs_of counts (suc r) = displs_of counts r + counts r

-- `A` is the type of the elements that are sent; ranks are numbered from 0.
pub record Collectives (A : Type 0) : Type 0 where
  -- MPI_Gather of one number from each rank: element r of the root's buffer.
  pub gather : (ranks : ℕ) → (ℕ → ℕ) → ℕ → ℕ
  -- MPI_Gatherv: the root's buffer, up to the end of the blocks.
  pub gatherv : (ranks : ℕ) (sent : ℕ → List A) (counts displs : ℕ → ℕ) → List A
  -- MPI_Allreduce with MPI_MAX.
  pub allreduce_max : (ranks : ℕ) → (ℕ → ℕ) → ℕ
  pub gather_lem : (ranks : ℕ) (sent : ℕ → ℕ) (r : ℕ) → r < ranks → gather ranks sent r ≡ sent r
  -- Blocks that are received whole and without gaps make up the buffer.
  pub gatherv-packed :
      (ranks : ℕ) (sent : ℕ → List A) (counts displs : ℕ → ℕ)
      → ((r : ℕ) → r < ranks → counts r ≡ length (sent r))
      → displs 0 ≡ 0
      → ((r : ℕ) → suc r < ranks → displs (suc r) ≡ displs r + counts r)
      → gatherv ranks sent counts displs ≡ joined ranks sent
  pub allreduce_max-le :
      (ranks : ℕ) (sent : ℕ → ℕ) (r : ℕ) → r < ranks → sent r ≤ allreduce_max ranks sent
  pub allreduce_max-attained :
      (ranks : ℕ) (sent : ℕ → ℕ)
      → 0 < ranks
      → (r : ℕ) × (r < ranks) × (allreduce_max ranks sent ≡ sent r)
