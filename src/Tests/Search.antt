-- ===== src/Tests/Search.antt =====
-- The matcher on a 3 x 3 picture and two objects, and its properties there.
use mpi_local_lab.Base.{ℕ, ◌*◌, ◌≤◌, ◌≡◌, refl, arith, true, List, [], ◌∷◌, some, get_elem?}
use mpi_local_lab.Base.Int.{ℤ, pos, ◌+ℤ◌, ◌-ℤ◌, ◌*ℤ◌, ◌≤ℤ◌}
use mpi_local_lab.Base.Machine.{to_int, size_t}
use mpi_local_lab.Floating.{fzero}
use mpi_local_lab.Types.{Picture, Object, Problem, Match, done}
use mpi_local_lab.Metric.{row_offset, term, add_row, score_rows, score_at}
use mpi_local_lab.Metric.Exact.{exact_score, score_at-exact}
use mpi_local_lab.Metric.Bounds.{Window, score_at_total}
use mpi_local_lab.Problem.{sort_objects_by_id, placement_count}
use mpi_local_lab.Problem.Sort.Order.{IsStableSort, sort_objects_by_id-IsStableSort}
use mpi_local_lab.Problem.Validate.{problem_validate, check_pictures, check_objects}
use mpi_local_lab.Problem.Validate.Valid.{
  IsAllocated, IsValid, IsPicture, IsObject, problem_validate-IsValid, problem_validate_accepts,
}
use mpi_local_lab.Canonical.{IsCanonical, Occurs, First, matches}
use mpi_local_lab.Backends.Serial.Lowest.{search-lowest}
use mpi_local_lab.Backends.{Context, placement_score}
use mpi_local_lab.Backends.Serial.{search}
use mpi_local_lab.Backends.Serial.Canonical.{search-IsCanonical}
use mpi_local_lab.Backends.OpenMp.{Search, read, begin, later}
use mpi_local_lab.Backends.OpenMp.Progress.{Run-bound}
use mpi_local_lab.Backends.OpenMp.Canonical.{Search-eq-serial}
use mpi_local_lab.Tests.Fixed.{fixed, fixed-Ieee, scale, absolute, fixed_div}

abbrev grid : List ℤ
grid = pos 0 ∷ pos 1 ∷ pos 2 ∷ pos 3 ∷ pos 4 ∷ pos 5 ∷ pos 6 ∷ pos 7 ∷ pos 8 ∷ []

abbrev pub picture : Picture
picture = record { id = pos 7; n = pos 3; elems = some grid }

abbrev corner : List ℤ
corner = pos 4 ∷ pos 5 ∷ pos 7 ∷ pos 8 ∷ []

abbrev late : Object
late = record { id = pos 9; m = pos 1; elems = some (pos 3 ∷ []) }

abbrev early : Object
early = record { id = pos 2; m = pos 2; elems = some corner }

abbrev unsorted : Problem fixed
unsorted = record {
  threshold = pos 100;
  num_pictures = pos 1;
  pictures = picture ∷ [];
  num_objects = pos 2;
  objects = late ∷ early ∷ [];
}

abbrev sorted : Problem fixed
sorted = record unsorted { objects = early ∷ late ∷ [] }

abbrev pub ctx : Context fixed
ctx = record { problem = sorted; zero_eps = pos 1 }

search_runs :
    search ctx picture
    ≡ some (record { picture_id = pos 7; object_id = pos 2; row = pos 1; col = pos 1 })
unfolding search score_at score_rows add_row row_offset term placement_count placement_score to_int
    size_t scale absolute fixed_div ◌+ℤ◌ ◌-ℤ◌ ◌*ℤ◌
search_runs = refl

validate_runs : problem_validate unsorted ≡ some (done (sorted, []))
unfolding problem_validate check_pictures check_objects sort_objects_by_id placement_count scale
    ◌+ℤ◌ ◌-ℤ◌ ◌*ℤ◌
validate_runs = refl

unsorted-IsAllocated : IsAllocated unsorted
unfolding size_t
unsorted-IsAllocated = record {
  pictures_counted = refl;
  objects_counted = refl;
  pictures_sized = (refl, tt);
  objects_sized = (refl, (refl, tt));
}

problem_validate-IsValid_example :
    IsValid sorted
    × IsStableSort unsorted.objects sorted.objects
    × (sorted ≡ record unsorted { objects = sorted.objects })
problem_validate-IsValid_example =
    problem_validate-IsValid unsorted sorted [] unsorted-IsAllocated validate_runs

pub sorted-IsValid : IsValid sorted
sorted-IsValid = (problem_validate-IsValid unsorted sorted [] unsorted-IsAllocated validate_runs).0

threshold_pos : fixed.lt (fzero fixed) (pos 100) ≡ true
unfolding scale
threshold_pos = refl

pub eps_pos : fixed.lt (fzero fixed) (pos 1) ≡ true
unfolding scale
eps_pos = refl

pub picture-IsPicture : IsPicture picture
picture-IsPicture = (
  record {
    width = 3;
    cells = grid;
    side_is = refl;
    width_pos = omega arith;
    elems_is = refl;
    size = refl;
  },
  omega arith,
)

early-IsObject : IsObject early
early-IsObject = record {
  width = 2;
  cells = corner;
  side_is = refl;
  width_pos = omega arith;
  elems_is = refl;
  size = refl;
}

late-IsObject : IsObject late
late-IsObject = record {
  width = 1;
  cells = pos 3 ∷ [];
  side_is = refl;
  width_pos = omega arith;
  elems_is = refl;
  size = refl;
}

problem_validate_accepts_example :
    (p' : Problem fixed) × (warned : List Object) × (problem_validate unsorted
      ≡ some (done (p', warned)))
problem_validate_accepts_example =
    problem_validate_accepts unsorted unsorted-IsAllocated threshold_pos (picture-IsPicture, tt)
      (late-IsObject, (early-IsObject, tt))

sort_objects_by_id-IsStableSort_example :
    (ys : List Object) × (sort_objects_by_id (late ∷ early ∷ late ∷ []) (pos 3) ≡ some ys)
    × IsStableSort (late ∷ early ∷ late ∷ []) ys
sort_objects_by_id-IsStableSort_example = sort_objects_by_id-IsStableSort (late ∷ early ∷ late ∷ [])

abbrev answer : Match
answer = record { picture_id = pos 7; object_id = pos 2; row = pos 1; col = pos 1 }

search-IsCanonical_example :
    (match : Match) × (search ctx picture ≡ some match)
    × IsCanonical fixed (pos 100) (pos 1) picture (early ∷ late ∷ []) match
search-IsCanonical_example =
    search-IsCanonical ctx picture fixed-Ieee eps_pos sorted-IsValid picture-IsPicture

Search-eq-serial_example :
    (match : Match) × (search ctx picture ≡ some match)
    × Search ctx picture match
    × ((out : Match) → Search ctx picture out → out ≡ match)
Search-eq-serial_example =
    Search-eq-serial ctx picture fixed-Ieee eps_pos sorted-IsValid picture-IsPicture

late-Occurs : Occurs fixed (pos 100) (pos 1) picture late 1 0
unfolding matches exact_score add_row term scale absolute fixed_div ◌+ℤ◌ ◌-ℤ◌
late-Occurs = record {
  n = 3;
  m = 1;
  cells = grid;
  pattern = pos 3 ∷ [];
  n_is = refl;
  m_is = refl;
  cells_is = refl;
  pattern_is = refl;
  rows = omega arith;
  cols = omega arith;
  below = refl;
}

search-lowest_example :
    (match : Match) × (search ctx picture ≡ some match)
    × (j : ℕ) × (o : Object) × (r : ℕ) × (c : ℕ) × (get_elem? (early ∷ late ∷ []) j ≡ some o)
    × First fixed (pos 100) (pos 1) picture o r c
    × (match ≡ record { picture_id = pos 7; object_id = o.id; row = pos r; col = pos c })
    × (o.id ≤ℤ pos 9)
search-lowest_example =
    search-lowest ctx picture fixed-Ieee eps_pos sorted-IsValid picture-IsPicture 1 late 1 0 refl
      late-Occurs

early-Window : Window grid 3 corner 2 0 0
early-Window = record {
  picture_size = refl;
  object_size = refl;
  rows = omega arith;
  cols = omega arith;
  small = omega arith;
}

score_at_total_example :
    (s : ℤ) × (score_at fixed grid (pos 3) corner (pos 2) (pos 0) (pos 0) (pos 100) (pos 1)
      ≡ some s)
score_at_total_example = score_at_total fixed (pos 1) grid 3 corner 2 0 0 early-Window (pos 100)

score_early :
    score_at fixed grid (pos 3) corner (pos 2) (pos 0) (pos 0) (pos 100) (pos 1)
    ≡ some (pos 4004000)
unfolding score_at score_rows add_row row_offset term size_t scale absolute fixed_div ◌+ℤ◌ ◌-ℤ◌
score_early = refl

exact_early : exact_score fixed grid 3 corner 2 0 0 (pos 1) ≡ some (pos 4006333)
unfolding exact_score add_row term scale absolute fixed_div ◌+ℤ◌ ◌-ℤ◌
exact_early = refl

-- The early exit leaves out the second row.
score_at-exact_example :
    (fixed.lt (pos 4004000) (pos 100) ≡ fixed.lt (pos 4006333) (pos 100))
    × (fixed.lt (pos 4006333) (pos 100) ≡ true → pos 4004000 ≡ pos 4006333)
score_at-exact_example =
    score_at-exact fixed fixed-Ieee (pos 1) eps_pos grid 3 corner 2 0 0 (pos 100) (omega arith)
      score_early exact_early

-- Two iterations of which one has read `best`.
Run-bound_example : 1 ≤ 3 * 2
Run-bound_example = Run-bound (λ key. some true) 2 (later begin (read 0 (omega arith) refl))
