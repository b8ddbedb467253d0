-- ===== src/Backends/Work.antt =====
-- The work that the threads of a parallel loop have left (src/backends/backend_openmp.c,
-- src/backends/backend_cuda.cu).
use mpi_local_lab.Base.{
  ℕ, zero, suc, ◌+◌, ◌*◌, ◌≤◌, ◌<◌, ◌≡◌, ◌≢◌, refl, arith, ◌⊎◌, inl, inr, update, dec_lt,
}

module _ {ℓ} {A : Type ℓ} where
  -- The sum of the weights of the first `n` states.
  unfoldable pub work : (weight : A → ℕ) → ℕ → (ℕ → A) → ℕ
  work weight zero f = 0
  work weight (suc n) f = work weight n f + weight (f n)

  work-update_of_le :
      (weight : A → ℕ) (n : ℕ) (f : ℕ → A) (i : ℕ) (a : A)
      → n ≤ i
      → work weight n (update f i a) ≡ work weight n f
  unfolding work
  work-update_of_le weight zero f i a h = refl
  work-update_of_le weight (suc n) f i a h = ground (arith, work-update_of_le weight n f i a)

  pub work-update :
      (weight : A → ℕ) (n : ℕ) (f : ℕ → A) (i : ℕ) (a : A)
      → i < n
      → work weight n (update f i a) + weight (f i) ≡ work weight n f + weight a
  unfolding work
  work-update weight zero f i a h = absurd (omega arith)
  work-update weight (suc n) f i a h = elim (dec_lt i n) [
    | yes below ↦ ground (arith, work-update weight n f i a below)
    | no last ↦ ground (arith, work-update_of_le weight n f i a)
  ]

  pub work-const : (weight : A → ℕ) (n : ℕ) (a : A) → work weight n (λ _. a) ≡ n * weight a
  unfolding work
  work-const weight zero a = omega arith
  work-const weight (suc n) a = grind (arith, work-const weight n a)

  -- All of the first `n` states are the last one, or there is one that is not.
  pub unfinished :
      (last : A)
      → ((a : A) → (a ≡ last) ⊎ (a ≢ last))
      → (f : ℕ → A) (n : ℕ) → ((i : ℕ) → i < n → f i ≡ last) ⊎ ((i : ℕ) × (i < n) × (f i ≢ last))
  unfinished last decide f zero = inl (λ i lt. absurd (omega (arith, lt)))
  unfinished last decide f (suc n) = elim (unfinished last decide f n) [
    | inr (i, lt, ne) ↦ inr (i, omega (arith, lt), ne)
    | inl below ↦ elim (decide (f n)) [
      | inr ne ↦ inr (n, omega arith, ne)
      | inl e ↦ inl (λ i lt. elim (dec_lt i n) [
        | yes less ↦ below i less
        | no over ↦ let same : i ≡ n = omega (arith, lt, over) in rw same e
      ])
    ]
  ]
