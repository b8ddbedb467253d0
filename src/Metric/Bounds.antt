-- ===== src/Metric/Bounds.antt =====
-- Every read of `msearch_score_at` (include/msearch/metric.h) lies inside its array.
use mpi_local_lab.Base.{
  ℕ, zero, suc, ◌+◌, ◌*◌, ◌^◌, ◌≤◌, ◌<◌, ◌≡◌, refl, arith, List, [], ◌∷◌, some, inl, inr,
  Bool-cases, length, get_elem?, mul_mono,
}
use mpi_local_lab.Base.Int.{ℤ, pos}
use mpi_local_lab.Base.Machine.{size_t}
use mpi_local_lab.Floating.{Floating, fzero}
use mpi_local_lab.Metric.{add_row, score_rows, score_at}
use mpi_local_lab.Metric.Exact.{exact_rows, exact_score, row_offset_lem, row_fits}

pub get_elem?_of_lt {ℓ} :
    {A : Type ℓ} (xs : List A) (i : ℕ) → i < length xs → (x : A) × (get_elem? xs i ≡ some x)
get_elem?_of_lt [] i h = absurd (omega arith)
get_elem?_of_lt (x ∷ xs) zero h = (x, refl)
get_elem?_of_lt (x ∷ xs) (suc i) h = get_elem?_of_lt xs i (omega arith)

-- An m x m window at row `r` and column `c` of an n x n picture, and the two arrays.
pub record Window (picture : List ℤ) (n : ℕ) (object : List ℤ) (m r c : ℕ) : Type 0 where
  pub picture_size : length picture ≡ n * n
  pub object_size : length object ≡ m * m
  pub rows : r + m ≤ n
  pub cols : c + m ≤ n
  pub small : n ≤ 46340

window_row : (n m r c y : ℕ) → r + m ≤ n → c + m ≤ n → y < m → (r + y) * n + c + m ≤ n * n
window_row n m r c y hr hc lt = omega (arith, mul_mono (suc (r + y)) n n (omega arith))

object_row : (m y : ℕ) → y < m → y * m + m ≤ m * m
object_row m y lt = omega (arith, mul_mono (suc y) m m (omega arith))

square-le : (n : ℕ) → n ≤ 46340 → n * n ≤ 46340 * 46340
square-le n h = omega (arith, mul_mono n 46340 n h)

module _ (F : Floating) (zero_eps : F.Double) where
  open F use {Double, add, lt, ge}

  add_row_total :
      (rounds i j : ℕ) (picture object : List ℤ) (sum : Double)
      → i + rounds ≤ length picture
      → j + rounds ≤ length object
      → (s : Double) × (add_row F rounds i j picture object zero_eps sum ≡ some s)
  unfolding add_row
  add_row_total zero i j picture object sum hi hj = (sum, refl)
  add_row_total (suc k) i j picture object sum hi hj =
      let (p, at_p) = get_elem?_of_lt picture i (omega arith) in
      let (o, at_o) = get_elem?_of_lt object j (omega arith) in
      rw (at_p, at_o) (add_row_total k (i + 1) (j + 1) picture object _ (omega arith) (omega arith))

  module _ (picture : List ℤ) (n : ℕ) (object : List ℤ) (m r c : ℕ)
      (w : Window picture n object m r c) where
    open w use {picture_size, object_size, rows, cols, small}

    pub window_fits : (r + m) * n + c < 2 ^ 64
    window_fits = omega (arith, mul_mono (r + m) n n rows, square-le n small)

    window_row_total :
        (y : ℕ) (sum : Double)
        → y < m
        → (s : Double) × (add_row F m ((r + y) * n + c) (y * m) picture object zero_eps sum
            ≡ some s)
    window_row_total y sum lt =
        add_row_total m _ _ picture object sum (omega (arith, window_row n m r c y rows cols lt))
          (omega (arith, object_row m y lt))

    exact_rows_total :
        (k y : ℕ) (sum : Double)
        → y + k ≡ m
        → (s : Double) × (exact_rows F k y picture n object m r c zero_eps sum ≡ some s)
    unfolding exact_rows
    exact_rows_total zero y sum q = (sum, refl)
    exact_rows_total (suc k) y sum q =
        let (sum', row) = window_row_total y sum (omega arith) in
        rw row (exact_rows_total k (suc y) sum' (omega arith))

    score_rows_total :
        (threshold : Double) (k y : ℕ) (sum : Double)
        → y + k ≡ m
        → (s : Double) × (score_rows F k y picture
              (pos n)
              object
              (pos m)
              (pos r)
              (pos c)
              threshold
              zero_eps
              sum
            ≡ some s)
    unfolding score_rows size_t
    score_rows_total threshold zero y sum q = (sum, refl)
    score_rows_total threshold (suc k) y sum q =
        let (sum', row) = window_row_total y sum (omega arith) in
        let (rest, later) = score_rows_total threshold k (suc y) sum' (omega arith) in
        rw (row_offset_lem n r c y (row_fits n r c y m window_fits (omega arith)), row)
          (elim (Bool-cases (ge sum' threshold)) [
            | inl stop ↦ (sum', rw stop)
            | inr go ↦ (rest, rw go later)
          ])

    pub exact_score_total : (s : Double) × (exact_score F picture n object m r c zero_eps ≡ some s)
    unfolding exact_score
    exact_score_total = exact_rows_total m 0 (fzero F) (omega arith)

    pub score_at_total :
        (threshold : Double)
        → (s : Double) × (score_at F picture
              (pos n)
              object
              (pos m)
              (pos r)
              (pos c)
              threshold
              zero_eps
            ≡ some s)
    unfolding score_at
    score_at_total threshold = score_rows_total threshold m 0 (fzero F) (omega arith)
