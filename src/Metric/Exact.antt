-- ===== src/Metric/Exact.antt =====
-- The early exit of `msearch_score_at` (include/msearch/metric.h) against the sum of all terms.
use mpi_local_lab.Base.{
  ℕ, zero, suc, ◌+◌, ◌*◌, ◌^◌, ◌<◌, ◌≡◌, sym, ◌∙◌, arith, true, List, Option, some, inl, inr,
  Bool-cases, ◌>>=◌, >>=-eq-some, get_elem?,
}
use mpi_local_lab.Base.Int.{ℤ, pos, ◌+ℤ◌}
use mpi_local_lab.Base.Machine.{size_t}
use mathlib.Core.Option.{some-injective}
use mpi_local_lab.Floating.{Floating, Ieee, fzero}
use mpi_local_lab.Metric.{row_offset, term, add_row, score_rows, score_at}

pub row_offset_lem :
    (n r c y : ℕ)
    → (r + y) * n + c < 2 ^ 64
    → row_offset (pos n) (pos r) (pos c) y ≡ (r + y) * n + c
unfolding row_offset ◌+ℤ◌
row_offset_lem n r c y h = ground arith

pub row_fits : (n r c y m : ℕ) → (r + m) * n + c < 2 ^ 64 → y < m → (r + y) * n + c < 2 ^ 64
row_fits n r c y m h lt = grind arith

module _ (F : Floating) where
  open F use {Double, of_int, add, lt, ge}

  -- The sum of every term, row by row, at row `r` and column `c` of an n x n picture.
  unfoldable pub exact_rows :
      (rounds y : ℕ) (picture : List ℤ) (n : ℕ) (object : List ℤ) (m r c : ℕ)
      → (zero_eps sum : Double) → Option Double
  exact_rows zero y picture n object m r c zero_eps sum = some sum
  exact_rows (suc k) y picture n object m r c zero_eps sum = do
    sum' ← add_row F m ((r + y) * n + c) (y * m) picture object zero_eps sum
    exact_rows k (suc y) picture n object m r c zero_eps sum'

  unfoldable pub exact_score :
      (picture : List ℤ) (n : ℕ) (object : List ℤ) (m r c : ℕ) → (zero_eps : Double) → Option Double
  unfolding exact_rows
  exact_score picture n object m r c zero_eps =
      exact_rows m 0 picture n object m r c zero_eps (fzero F)

  module _ (laws : Ieee F) (zero_eps : Double) (eps_pos : lt (fzero F) zero_eps ≡ true) where
    open laws use {of_int-nonzero, fabs-quotient, zero-ge, add-ge, ge-not_lt}

    pub term-ge-zero : (p o : ℤ) → ge (term F p o zero_eps) (fzero F) ≡ true
    unfolding term
    term-ge-zero p o =
        ground (arith, fabs-quotient p o zero_eps, fabs-quotient p o (of_int p), of_int-nonzero p)

    pub add_row-ge :
        (rounds i j : ℕ) (picture object : List ℤ) (b sum : Double) {s : Double}
        → add_row F rounds i j picture object zero_eps sum ≡ some s
        → ge sum (fzero F) ≡ true
        → ge sum b ≡ true
        → ge s b ≡ true
    unfolding add_row
    add_row-ge zero i j picture object b sum e h0 h = cc
    add_row-ge (suc k) i j picture object b sum e h0 h =
        let (p, at_p, e') = >>=-eq-some (get_elem? picture i) _ e in
        let (o, at_o, e'') = >>=-eq-some (get_elem? object j) _ e' in
        let t = term F p o zero_eps in
        add_row-ge k (i + 1) (j + 1) picture object b (add sum t) e''
          (add-ge sum t (fzero F) h0 (term-ge-zero p o) h0) (add-ge sum t b h0 (term-ge-zero p o) h)

    pub exact_rows-ge :
        (k y : ℕ) (picture : List ℤ) (n : ℕ) (object : List ℤ) (m r c : ℕ)
        → (b sum : Double) {t : Double}
        → exact_rows k y picture n object m r c zero_eps sum ≡ some t
        → ge sum (fzero F) ≡ true
        → ge sum b ≡ true
        → ge t b ≡ true
    unfolding exact_rows
    exact_rows-ge zero y picture n object m r c b sum e h0 h = cc
    exact_rows-ge (suc k) y picture n object m r c b sum e h0 h =
        let (sum', row, e') =
          >>=-eq-some (add_row F m ((r + y) * n + c) (y * m) picture object zero_eps sum) _ e in
        exact_rows-ge k (suc y) picture n object m r c b sum' e'
          (add_row-ge m _ _ picture object (fzero F) sum row h0 h0)
          (add_row-ge m _ _ picture object b sum row h0 h)

    exact_of_over :
        (s t threshold : Double)
        → ge t threshold ≡ true
        → ge s threshold ≡ true
        → (lt s threshold ≡ lt t threshold) × (lt t threshold ≡ true → s ≡ t)
    exact_of_over s t threshold over stop =
        let not_t = ge-not_lt t threshold over in
        let not_s = ge-not_lt s threshold stop in (not_s ∙ sym not_t, λ below. absurd (cc))

    -- On the rows that are left: the code's loop and the exact sum agree on the comparison with
    -- the threshold, and on the value if that lies below.
    score_rows-exact :
        (k y : ℕ) (picture : List ℤ) (n : ℕ) (object : List ℤ) (m r c : ℕ)
        → (threshold sum : Double) {s t : Double} → y + k ≡ m
        → (r + m) * n + c < 2 ^ 64
        → score_rows F k y picture (pos n) object (pos m) (pos r) (pos c) threshold zero_eps sum
          ≡ some s
        → exact_rows k y picture n object m r c zero_eps sum ≡ some t
        → ge sum (fzero F) ≡ true
        → (lt s threshold ≡ lt t threshold) × (lt t threshold ≡ true → s ≡ t)
    unfolding score_rows exact_rows size_t
    score_rows-exact zero y picture n object m r c threshold sum q fits e f h0 = (cc, λ _. cc)
    score_rows-exact (suc k) y picture n object m r c threshold sum {s} {t} q fits e f h0 =
        let (sum', row, f') =
          >>=-eq-some (add_row F m ((r + y) * n + c) (y * m) picture object zero_eps sum) _ f in
        let e' = rw (row_offset_lem n r c y (row_fits n r c y m fits (omega arith)), row) at e in
        let h0' = add_row-ge m _ _ picture object (fzero F) sum row h0 h0 in
        elim (Bool-cases (ge sum' threshold)) [
          | inl stop ↦
              let here : sum' ≡ s = some-injective _ _ (rw stop at e') in
              exact_of_over s t threshold
                (exact_rows-ge k (suc y) picture n object m r c threshold sum' f' h0' stop)
                (rw here at stop)
          | inr go ↦
              score_rows-exact k (suc y) picture n object m r c threshold sum' (omega arith) fits
                (rw go at e') f' h0'
        ]

    -- At a placement inside the picture, where both sums are read to their end: the code's score,
    -- early exit included, compares with the threshold as the full sum does, and is the full sum
    -- if that lies below the threshold. The floating-point operations must have the properties of
    -- `Ieee`, and zero_eps must be positive.
    pub score_at-exact :
        (picture : List ℤ) (n : ℕ) (object : List ℤ) (m r c : ℕ) (threshold : Double) {s t : Double}
        → (r + m) * n + c < 2 ^ 64
        → score_at F picture (pos n) object (pos m) (pos r) (pos c) threshold zero_eps ≡ some s
        → exact_score picture n object m r c zero_eps ≡ some t
        → (lt s threshold ≡ lt t threshold) × (lt t threshold ≡ true → s ≡ t)
    unfolding score_at exact_score
    score_at-exact picture n object m r c threshold fits e f =
        score_rows-exact m 0 picture n object m r c threshold (fzero F) (omega arith) fits e f
          zero-ge
