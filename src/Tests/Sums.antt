-- ===== src/Tests/Sums.antt =====
-- The distributed sum of 1 to 10 over three ranks.
use mpi_local_lab.Base.{ℕ, ◌+◌, ◌≤◌, ◌≡◌, refl, arith, true, take, drop}
use mpi_local_lab.Base.Int.{pos}
use mpi_local_lab.Examples.Shares.{share, offset, share-partition}
use mpi_local_lab.Examples.DistributedSum.{sum_ranks, SumCollectives, total, is_match}
use mpi_local_lab.Examples.DistributedSum.Total.{total_lem}

abbrev collectives : SumCollectives
collectives = record {
  scatterv = λ ranks whole counts displs r. take (counts r) (drop (displs r) whole);
  reduce_sum = sum_ranks;
  scatterv_lem = λ ranks whole counts displs r lt fits. refl;
  reduce_sum_lem = λ ranks sent. refl;
}

total_lem_example : (total collectives 10 3 ≡ pos 55) × (is_match collectives 10 3 ≡ true)
total_lem_example = total_lem collectives 10 3 (omega arith) (omega arith)

share-partition_example :
    (offset 10 3 3 ≡ 10)
    × ((r q : ℕ) → r ≤ q → (share 10 3 q ≤ share 10 3 r) × (share 10 3 r ≤ share 10 3 q + 1))
share-partition_example = share-partition 10 3 (omega arith)
