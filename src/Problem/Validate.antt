-- ===== src/Problem/Validate.antt =====
-- `msearch_problem_validate` (src/core/problem.c).
pub mod Valid
pub mod Total
use mpi_local_lab.Base.{Bool, not, ◌||◌, List, [], ◌∷◌, Option, none, some, ◌>>=◌, if◌then◌else◌}
use mpi_local_lab.Base.Int.{ℤ, pos, ltb_ℤ, leb_ℤ}
use mpi_local_lab.Base.Machine.{int_max}
use mpi_local_lab.Floating.{Floating, fzero}
use mpi_local_lab.Types.{
  err_invalid, Picture, Object, Problem, Kind, threshold_not_positive, negative_count, incomplete,
  too_many_placements, Result, done, err,
}
use mpi_local_lab.Problem.{placement_count, sort_objects_by_id}

is_null {ℓ} : {A : Type ℓ} → Option A → Bool
is_null none = Bool.true
is_null (some a) = Bool.false

-- The loop over the pictures.
unfoldable pub check_pictures : List Picture → Result (Unit {0})
unfolding is_null placement_count
check_pictures [] = done tt
check_pictures (p ∷ ps) =
    let rest = check_pictures ps in
    if leb_ℤ p.n (pos 0) || is_null p.elems
    then err err_invalid (incomplete Kind.picture p.id)
    else if ltb_ℤ (pos int_max) (placement_count p.n (pos 1))
    then err err_invalid (too_many_placements p.id p.n)
    else rest

-- The loop over the objects.
unfoldable pub check_objects : List Object → Result (Unit {0})
unfolding is_null
check_objects [] = done tt
check_objects (o ∷ os) =
    let rest = check_objects os in
    if leb_ℤ o.m (pos 0) || is_null o.elems
    then err err_invalid (incomplete Kind.object o.id)
    else rest

-- The largest side of a picture, from `most` on.
unfoldable pub max_n : ℤ → List Picture → ℤ
max_n most [] = most
max_n most (p ∷ ps) = max_n (if ltb_ℤ most p.n then p.n else most) ps

-- The objects that the log warns of: larger than every picture.
unfoldable pub oversize : ℤ → List Object → List Object
oversize most [] = []
oversize most (o ∷ os) = if ltb_ℤ most o.m then o ∷ oversize most os else oversize most os

-- The problem with its objects in order, and the objects that are warned of.
unfoldable pub problem_validate :
    {F : Floating} → Problem F → Option (Result (Problem F × List Object))
unfolding max_n oversize
problem_validate {F} p =
    if not (F.lt (fzero F) p.threshold)
    then some (err err_invalid threshold_not_positive)
    else if ltb_ℤ p.num_pictures (pos 0) || ltb_ℤ p.num_objects (pos 0)
    then some (err err_invalid negative_count)
    else elim (check_pictures p.pictures) [
      | err s e ↦ some (err s e)
      | done _ ↦ elim (check_objects p.objects) [
        | err s e ↦ some (err s e)
        | done _ ↦ do
          sorted ← sort_objects_by_id p.objects p.num_objects
          some (done (record p { objects = sorted }, oversize (max_n (pos 0) p.pictures) p.objects))
      ]
    ]
