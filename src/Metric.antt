-- ===== src/Metric.antt =====
-- include/msearch/metric.h: the score of one placement, with its early exit.
pub mod Exact
pub mod Bounds
use mpi_local_lab.Base.{
  ℕ, zero, suc, ◌+◌, ◌*◌, ◌%◌, ◌^◌, List, Option, some, ◌>>=◌, get_elem?, if◌then◌else◌,
}
use mpi_local_lab.Base.Int.{ℤ, pos, pos_part, ◌+ℤ◌, eqb_ℤ}
use mpi_local_lab.Base.Machine.{size_t}
use mpi_local_lab.Floating.{Floating, fzero}

-- `picture + (size_t)(row + y) * (size_t)n + (size_t)col`, as an index of the array.
unfoldable pub row_offset : (n row col : ℤ) → ℕ → ℕ
unfolding size_t
row_offset n row col y = (size_t (row +ℤ pos y) * size_t n + size_t col) % 2 ^ 64

module _ (F : Floating) where
  open F use {Double, of_int, add, sub, div, fabs, ge}

  unfoldable pub term : (p o : ℤ) → (zero_eps : Double) → Double
  term p o zero_eps =
      let denom = if eqb_ℤ p (pos 0) then zero_eps else of_int p in
      fabs (div (sub (of_int p) (of_int o)) denom)

  -- The inner `for`: `rounds` elements, from `picture[i]` and `object[j]` on. A read outside an
  -- array is a fault.
  unfoldable pub add_row :
      (rounds i j : ℕ) (picture object : List ℤ) (zero_eps sum : Double) → Option Double
  add_row zero i j picture object zero_eps sum = some sum
  add_row (suc k) i j picture object zero_eps sum = do
    p ← get_elem? picture i
    o ← get_elem? object j
    add_row k (i + 1) (j + 1) picture object zero_eps (add sum (term p o zero_eps))

  -- The outer `for`, from row `y` on.
  unfoldable pub score_rows :
      (rounds y : ℕ) (picture : List ℤ) (n : ℤ) (object : List ℤ) (m row col : ℤ)
      → (threshold zero_eps sum : Double) → Option Double
  score_rows zero y picture n object m row col threshold zero_eps sum = some sum
  score_rows (suc k) y picture n object m row col threshold zero_eps sum = do
    sum' ← add_row (pos_part m) (row_offset n row col y) (y * size_t m) picture object zero_eps sum
    let rest = score_rows k (suc y) picture n object m row col threshold zero_eps sum'
    if ge sum' threshold then some sum' else rest

  unfoldable pub score_at :
      (picture : List ℤ) (n : ℤ) (object : List ℤ) (m row col : ℤ)
      → (threshold zero_eps : Double) → Option Double
  score_at picture n object m row col threshold zero_eps =
      score_rows (pos_part m) 0 picture n object m row col threshold zero_eps (fzero F)
