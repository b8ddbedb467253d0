-- ===== src/Examples/Shares.antt =====
-- The block decomposition of examples/distributed-sum/main.c, over the ranks.
use mpi_local_lab.Base.{ℕ, zero, suc, ◌+◌, ◌*◌, ◌/◌, ◌%◌, ◌<◌, ◌≤◌, ◌≡◌, arith, ltb, if◌then◌else◌}
use mpi_local_lab.Runtime.Collectives.{displs_of}

-- `base + (r < remainder ? 1 : 0)`
unfoldable pub share : (n ranks r : ℕ) → ℕ
share n ranks r = n / ranks + (if ltb r (n % ranks) then 1 else 0)

-- `offset` in front of rank r.
unfoldable pub offset : (n ranks r : ℕ) → ℕ
unfolding share displs_of
offset n ranks r = displs_of (share n ranks) r

offset_lem :
    (n ranks r : ℕ)
    → offset n ranks r ≡ r * (n / ranks) + (if ltb r (n % ranks) then r else n % ranks)
unfolding offset share displs_of
offset_lem n ranks zero = ground arith
offset_lem n ranks (suc r) = ground (arith, offset_lem n ranks r)

-- The shares of all ranks make up the whole, no two differ by more than one, and the leading ranks
-- have the larger ones; there must be a rank.
pub share-partition :
    (n ranks : ℕ)
    → 0 < ranks
    → (offset n ranks ranks ≡ n)
      × ((r q : ℕ)
          → r ≤ q
          → (share n ranks q ≤ share n ranks r) × (share n ranks r ≤ share n ranks q + 1))
unfolding share
share-partition n ranks some_rank =
    (ground (arith, offset_lem n ranks ranks), λ r q le. (ground (arith, le), ground (arith, le)))
