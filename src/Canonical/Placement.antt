-- ===== src/Canonical/Placement.antt =====
-- Placement keys: the key `row * span + col` of include/msearch/backend.h, and the first hit.
use mpi_local_lab.Canonical.{Earlier}
use mpi_local_lab.Base.{
  inl, inr, ℕ_discrete, ℕ, suc, ◌+◌, ◌*◌, ◌/◌, ◌%◌, ◌≤◌, ◌<◌, ◌≡◌, arith, Bool, true, false, Option,
  none, some, mul_mono,
}

-- The least key from `lo` on and below `hi` at which `hit` holds, or none.
abbrev pub IsLeast : (hit : ℕ → Bool) (lo hi : ℕ) → Option ℕ → Type 0
IsLeast hit lo hi none = (k : ℕ) → lo ≤ k → k < hi → hit k ≡ false
IsLeast hit lo hi (some k) =
    (lo ≤ k) × (k < hi) × (hit k ≡ true) × ((j : ℕ) → lo ≤ j → j < k → hit j ≡ false)

pub key_row-lt : (key span : ℕ) → key < span * span → key / span < span
key_row-lt key span h = grind arith

pub key_col-lt : (key span : ℕ) → key < span * span → key % span < span
key_col-lt key span h = grind arith

pub key-lt : (r c span : ℕ) → r < span → c < span → r * span + c < span * span
key-lt r c span hr hc = omega (arith, mul_mono (suc r) span span hr)

pub key_row_col :
    (r c span : ℕ) → c < span → ((r * span + c) / span ≡ r) × ((r * span + c) % span ≡ c)
key_row_col r c span h = grind arith

above_row : (key r c span : ℕ) → c < span → r < key / span → r * span + c < key
above_row key r c span hc hr = grind arith

same_row : (key r c span : ℕ) → r ≡ key / span → c < key % span → r * span + c < key
same_row key r c span hr hc = grind arith

-- Keys are ordered as placements are, row by row.
pub key_lt_of_Earlier :
    (r c key span : ℕ) → c < span → Earlier r c (key / span) (key % span) → r * span + c < key
key_lt_of_Earlier r c key span hc (inl above) = above_row key r c span hc above
key_lt_of_Earlier r c key span hc (inr (row, left)) = same_row key r c span row left

pub IsLeast-here :
    (hit : ℕ → Bool) (lo hi : ℕ) → lo < hi → hit lo ≡ true → IsLeast hit lo hi (some lo)
IsLeast-here hit lo hi lt h = (omega arith, lt, h, λ j le below. absurd (omega arith))

pub IsLeast-later :
    (hit : ℕ → Bool) (lo hi : ℕ) (found : Option ℕ)
    → hit lo ≡ false
    → IsLeast hit (suc lo) hi found
    → IsLeast hit lo hi found
IsLeast-later hit lo hi none miss later =
    λ k le lt. elim (ℕ_discrete k lo) [ yes e ↦ rw e miss | no ne ↦ later k (omega arith) lt ]
IsLeast-later hit lo hi (some n) miss (ge, lt, is_hit, least) = (
  omega arith,
  lt,
  is_hit,
  λ j le below. elim (ℕ_discrete j lo) [ yes e ↦ rw e miss | no ne ↦ least j (omega arith) below ],
)
