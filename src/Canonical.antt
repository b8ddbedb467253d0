-- ===== src/Canonical.antt =====
-- The determinism contract of include/msearch/backend.h: the one match that every backend returns.
pub mod Placement
pub mod Contract
use mpi_local_lab.Base.{
  ℕ, ◌+◌, ◌≤◌, ◌<◌, ◌≡◌, Bool, true, false, ◌⊎◌, List, [], ◌∷◌, Option, none, some,
}
use mpi_local_lab.Base.Int.{ℤ, pos}
use mpi_local_lab.Floating.{Floating}
use mpi_local_lab.Metric.Exact.{exact_score}
use mpi_local_lab.Types.{Picture, Object, Match, match_none}

-- `(r', c')` comes before `(r, c)` row by row.
abbrev pub Earlier : (r' c' r c : ℕ) → Type 0
Earlier r' c' r c = (r' < r) ⊎ ((r' ≡ r) × (c' < c))

module _ (F : Floating) (threshold zero_eps : F.Double) where
  -- The full score at row `r` and column `c` is below the threshold.
  unfoldable pub matches : (cells : List ℤ) (n : ℕ) (pattern : List ℤ) (m r c : ℕ) → Bool
  matches cells n pattern m r c = elim (exact_score F cells n pattern m r c zero_eps) [
    | none ↦ false
    | some score ↦ F.lt score threshold
  ]

  -- The object matches at a placement that lies inside the picture.
  pub record Occurs (p : Picture) (o : Object) (r c : ℕ) : Type 0 where
    pub n : ℕ
    pub m : ℕ
    pub cells : List ℤ
    pub pattern : List ℤ
    pub n_is : p.n ≡ pos n
    pub m_is : o.m ≡ pos m
    pub cells_is : p.elems ≡ some cells
    pub pattern_is : o.elems ≡ some pattern
    pub rows : r + m ≤ n
    pub cols : c + m ≤ n
    pub below : matches cells n pattern m r c ≡ true

  abbrev pub Absent : Picture → Object → Type 0
  Absent p o = (r c : ℕ) → ¬ Occurs p o r c

  -- The row-major-first placement of an object.
  pub record First (p : Picture) (o : Object) (r c : ℕ) : Type 0 where
    pub occurs : Occurs p o r c
    pub least : (r' c' : ℕ) → Earlier r' c' r c → ¬ Occurs p o r' c'

  -- The first object of the list that occurs, at its first placement.
  abbrev pub IsCanonical : Picture → List Object → Match → Type 0
  IsCanonical p [] match = match ≡ match_none p.id
  IsCanonical p (o ∷ os) match =
      (Absent p o × IsCanonical p os match)
      ⊎ ((r : ℕ) × (c : ℕ) × First p o r c
          × (match ≡ record { picture_id = p.id; object_id = o.id; row = pos r; col = pos c }))
