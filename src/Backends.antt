-- ===== src/Backends.antt =====
-- The backends of src/backends, each of which searches one picture.
pub mod Hits
pub mod Work
pub mod Minimum
pub mod Serial
pub mod OpenMp
pub mod Cuda
use mpi_local_lab.Base.{Option, ◌>>=◌}
use mpi_local_lab.Base.Int.{ℤ}
use mpi_local_lab.Floating.{Floating}
use mpi_local_lab.Metric.{score_at}
use mpi_local_lab.Types.{Picture, Object, Problem, Match}

-- `SerialContext`, and what `OpenMpContext` has in common with it.
pub record Context (F : Floating) : Type 0 where
  pub problem : Problem F
  pub zero_eps : F.Double

-- The call of `msearch_score_at` in the placement loops of both backends; to read through a `data`
-- that is NULL is a fault.
unfoldable pub placement_score :
    (F : Floating) (threshold zero_eps : F.Double)
    → Picture
    → Object
    → (row col : ℤ) → Option F.Double
placement_score F threshold zero_eps picture object row col = do
  cells ← picture.elems
  pattern ← object.elems
  score_at F cells picture.n pattern object.m row col threshold zero_eps

-- What `search` leaves in `*out` at a match.
abbrev pub match_at : Picture → Object → (row col : ℤ) → Match
match_at picture object row col = record {
  picture_id = picture.id;
  object_id = object.id;
  row = row;
  col = col;
}
