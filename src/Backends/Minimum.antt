-- ===== src/Backends/Minimum.antt =====
-- `best`, the minimum that the threads of a loop share (src/backends/backend_openmp.c,
-- src/backends/backend_cuda.cu).
use mpi_local_lab.Base.{
  ℕ, ◌<◌, ◌≡◌, refl, arith, Bool, true, ◌⊎◌, inl, inr, Option, none, some, if◌then◌else◌,
  Bool-cases,
}
use mpi_local_lab.Base.Int.{ℤ, pos, ltb_ℤ, ◌≤ℤ◌}
use mpi_local_lab.Base.Machine.{int_max, to_int, to_int_of_lt}
use mpi_local_lab.Canonical.Placement.{IsLeast}
use mpi_local_lab.Backends.OpenMp.{no_placement}

-- What `if ((int)key < best) best = (int)key` and `atomicMin` make of `best`.
unfoldable pub lower : (key : ℕ) → ℤ → ℤ
lower key best = if ltb_ℤ (to_int key) best then to_int key else best

module _ (placements : ℕ) (hit : ℕ → Bool) where
  -- `best` is a key that matches, or none.
  abbrev pub KeyOrNone : ℤ → Type 0
  KeyOrNone best = (k : ℕ) × (best ≡ pos k) × ((k ≡ int_max) ⊎ ((k < placements) × (hit k ≡ true)))

  module _ (few : placements < int_max) where
    pub lower-le :
        (key : ℕ) (best : ℤ)
        → key < placements
        → KeyOrNone best
        → (lower key best ≤ℤ best) × (lower key best ≤ℤ pos key)
    unfolding lower
    lower-le key best lt (k, e, or) = rw (to_int_of_lt key (omega arith), e) (ground arith)

    pub lower-KeyOrNone :
        (key : ℕ) (best : ℤ)
        → key < placements
        → hit key ≡ true
        → KeyOrNone best
        → KeyOrNone (lower key best)
    unfolding lower
    lower-KeyOrNone key best lt h (k, e, or) = elim (Bool-cases (ltb_ℤ (pos key) (pos k))) [
      | inl below ↦ (key, rw (to_int_of_lt key (omega arith), e) (rw below refl), inr (lt, h))
      | inr above ↦ (k, rw (to_int_of_lt key (omega arith), e) (rw above refl), or)
    ]

    -- Where no key that matches lies below it, `best` is the lowest key that matches, or
    -- `MSEARCH_NO_PLACEMENT` if none does.
    pub KeyOrNone-IsLeast :
        (best : ℤ)
        → KeyOrNone best
        → ((j : ℕ) → j < placements → hit j ≡ true → best ≤ℤ pos j)
        → (found : Option ℕ) × IsLeast hit 0 placements found
          × (best ≡ elim found [ none ↦ no_placement | some k ↦ pos k ])
    KeyOrNone-IsLeast best (k, e, inl top) low = (
      none,
      (λ j lo lt. elim (Bool-cases (hit j)) [
        | inl h ↦ absurd (ground (arith, low j lt h))
        | inr no_hit ↦ no_hit
      ]),
      ground arith,
    )
    KeyOrNone-IsLeast best (k, e, inr (lt, h)) low = (
      some k,
      (
        omega arith,
        lt,
        h,
        λ j lo below. elim (Bool-cases (hit j)) [
          | inl h' ↦ absurd (ground (arith, low j (omega arith) h'))
          | inr no_hit ↦ no_hit
        ],
      ),
      e,
    )
