-- ===== src/Examples/DistributedSum/Total.antt =====
-- examples/distributed-sum/main.c: the total does not depend on the number of ranks.
use mpi_local_lab.Base.{
  ℕ, zero, suc, ◌+◌, ◌*◌, ◌/◌, ◌<◌, ◌≤◌, ◌≡◌, refl, sym, ap, ◌∙◌, arith, true, List, [], ◌∷◌,
  length, take, take-length, drop, ℕ_discrete,
}
use mpi_local_lab.Base.Int.{ℤ, pos, pos_part, ◌+ℤ◌}
use mpi_local_lab.Base.Machine.{to_int, to_int_of_lt}
use mpi_local_lab.Runtime.Collectives.{displs_of}
use mpi_local_lab.Examples.Shares.{share, offset, share-partition}
use mpi_local_lab.Examples.DistributedSum.{
  sum_list, sum_ranks, SumCollectives, fill, counts, displs, total, expected, is_match,
}

add_zero : (a : ℤ) → a +ℤ pos 0 ≡ a
unfolding ◌+ℤ◌
add_zero a = ground arith

add_assoc : (a b c : ℤ) → (a +ℤ b) +ℤ c ≡ a +ℤ (b +ℤ c)
unfolding ◌+ℤ◌
add_assoc a b c = ground arith

zero_add : (a : ℤ) → pos 0 +ℤ a ≡ a
unfolding ◌+ℤ◌
zero_add a = ground arith

take-nil {ℓ} : {A : Type ℓ} (n : ℕ) → take {A = A} n [] ≡ []
take-nil zero = refl
take-nil (suc n) = refl

sum_list-take :
    (a b : ℕ) (xs : List ℤ)
    → sum_list (take (a + b) xs) ≡ sum_list (take a xs) +ℤ sum_list (take b (drop a xs))
unfolding sum_list
sum_list-take zero b xs =
    let none_more : 0 + b ≡ b = omega arith in
    ap (λ t. sum_list (take t xs)) none_more ∙ sym (zero_add (sum_list (take b xs)))
sum_list-take (suc a) b [] =
    ap sum_list (take-nil (suc a + b)) ∙ rw (take-nil {A = ℤ} b) (sym (zero_add (pos 0)))
sum_list-take (suc a) b (x ∷ xs) =
    let one_more : suc a + b ≡ suc (a + b) = omega arith in
    ap (λ t. sum_list (take t (x ∷ xs))) one_more
    ∙ ap (λ s. x +ℤ s) (sum_list-take a b xs)
    ∙ sym (add_assoc x (sum_list (take a xs)) (sum_list (take b (drop a xs))))

-- Slices that lie behind one another have the sum of what they cover.
sum_ranks-slices :
    (f : ℕ → ℕ) (xs : List ℤ) (slice : ℕ → ℤ) (k : ℕ)
    → ((r : ℕ) → r < k → slice r ≡ sum_list (take (f r) (drop (displs_of f r) xs)))
    → sum_ranks k slice ≡ sum_list (take (displs_of f k) xs)
unfolding sum_ranks displs_of sum_list
sum_ranks-slices f xs slice zero h = refl
sum_ranks-slices f xs slice (suc k) h =
    rw (sum_ranks-slices f xs slice k (λ r lt. h r (omega (arith, lt))), h k (omega arith))
      (sym (sum_list-take (displs_of f k) (f k) xs))

-- 1 + ... + k
triangle : ℕ → ℕ
triangle zero = 0
triangle (suc k) = triangle k + suc k

triangle_lem : (k : ℕ) → triangle k ≡ k * (k + 1) / 2
unfolding triangle
triangle_lem zero = refl
triangle_lem (suc k) = ground (arith, triangle_lem k)

sum_list-fill : (k i : ℕ) → k + i < 2147483648 → sum_list (fill k i) ≡ pos (k * i + triangle k)
unfolding sum_list fill triangle ◌+ℤ◌
sum_list-fill zero i small = ap pos (omega arith)
sum_list-fill (suc k) i small =
    rw (to_int_of_lt (i + 1) (omega (arith, small)), sum_list-fill k (suc i) (omega (arith, small)))
      (ground arith)

length-fill : (k i : ℕ) → length (fill k i) ≡ k
unfolding fill
length-fill zero i = refl
length-fill (suc k) i = ap suc (length-fill k (suc i))

displs_of-le : (f : ℕ → ℕ) (k m : ℕ) → k ≤ m → displs_of f k ≤ displs_of f m
unfolding displs_of
displs_of-le f k zero le = elim (ℕ_discrete k 0) [
  | yes start ↦ rw start (omega arith)
  | no later ↦ absurd (omega (arith, le, later))
]
displs_of-le f k (suc m) le = elim (ℕ_discrete k (suc m)) [
  | yes same ↦ rw same (omega arith)
  | no before ↦ omega (arith, displs_of-le f k m (omega (arith, le, before)))
]

cast_back : (k : ℕ) → k < 2147483648 → pos_part (to_int k) ≡ k
cast_back k small = ap pos_part (to_int_of_lt k small)

module _ (mpi : SumCollectives) (n ranks : ℕ) (some_rank : 0 < ranks) (small : n < 2147483648) where
  inside : (r : ℕ) → r < ranks → offset n ranks r + share n ranks r ≤ n
  unfolding offset displs_of
  inside r lt =
      let below = displs_of-le (share n ranks) (suc r) ranks (omega (arith, lt)) in
      omega (arith, below, (share-partition n ranks some_rank).0)

  slice_lem :
      (r : ℕ)
      → r < ranks
      → sum_list (mpi.scatterv ranks (fill n 0) (counts n ranks) (displs n ranks) r)
        ≡ sum_list (take (share n ranks r) (drop (displs_of (share n ranks) r) (fill n 0)))
  unfolding counts displs offset
  slice_lem r lt =
      let fits = inside r lt in
      let count : counts n ranks r ≡ share n ranks r =
        cast_back (share n ranks r) (omega (arith, fits, small)) in
      let displ : displs n ranks r ≡ offset n ranks r =
        cast_back (offset n ranks r) (omega (arith, fits, small)) in
      ap sum_list (
        mpi.scatterv_lem ranks (fill n 0) (counts n ranks) (displs n ranks) r lt
          (omega (arith, count, displ, fits, length-fill n 0)))
      ∙ ap (λ c. sum_list (take c (drop (displs n ranks r) (fill n 0)))) count
      ∙ ap (λ d. sum_list (take (share n ranks r) (drop d (fill n 0)))) displ

  total_sums : total mpi n ranks ≡ expected n
  unfolding total
  total_sums =
      mpi.reduce_sum_lem ranks _
      ∙ sum_ranks-slices (share n ranks) (fill n 0) _ ranks slice_lem
      ∙ ap (λ t. sum_list (take t (fill n 0))) (share-partition n ranks some_rank).0
      ∙ ap sum_list (take-length (fill n 0) n (length-fill n 0))
      ∙ sum_list-fill n 0 (omega (arith, small))
      ∙ ap pos (omega (arith, triangle_lem n))

-- With an int for every number up to n and at least one rank, rank 0 reports the sum of 1 to n, and
-- that it matches, for every number of ranks.
pub total_lem :
    (mpi : SumCollectives) (n ranks : ℕ)
    → 0 < ranks
    → n < 2147483648
    → (total mpi n ranks ≡ expected n) × (is_match mpi n ranks ≡ true)
unfolding is_match
total_lem mpi n ranks some_rank small =
    let sums = total_sums mpi n ranks some_rank small in (sums, rw sums (ground arith))
