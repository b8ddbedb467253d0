-- ===== src/Problem.antt =====
-- src/core/problem.c: allocation of a problem, its validation and the order of its objects.
pub mod Sort
pub mod Placements
pub mod Validate
pub mod Lifecycle
use mpi_local_lab.Base.{
  ℕ, zero, suc, ◌+◌, ◌-◌, ◌*◌, Bool, true, not, ◌&&◌, ◌||◌, List, [], ◌∷◌, Option, none, some,
  ◌>>=◌, ltb, leb, if◌then◌else◌, get_elem?, write, replicate,
}
use mpi_local_lab.Base.Int.{ℤ, pos, pos_part, ◌+ℤ◌, ◌-ℤ◌, ◌*ℤ◌, ltb_ℤ, leb_ℤ}
use mpi_local_lab.Base.Machine.{int_max, size_t}
use mpi_local_lab.Floating.{Floating, fzero}
use mpi_local_lab.Types.{
  Status, err_invalid, err_nomem, Picture, Object, Problem, Kind, Message, size_not_positive,
  size_too_large, cannot_allocate_array, cannot_allocate_elements, threshold_not_positive,
  negative_count, incomplete, too_many_placements, Result, done, err,
}

-- `MSEARCH_MAX_SIDE`
abbrev pub max_side : ℤ
max_side = pos 46340

-- `msearch_problem_init`
unfoldable pub problem_init : (F : Floating) → Problem F
problem_init F = record {
  threshold = fzero F;
  num_pictures = pos 0;
  pictures = [];
  num_objects = pos 0;
  objects = [];
}

-- `malloc k` is the answer of the allocator to the request for `k` ints: `none` for NULL, and else
-- an array whose contents are not determined.
abbrev pub Malloc : Type 0
Malloc = ℕ → Option (List ℤ)

-- The matrix that `*data` points to afterwards.
unfoldable pub alloc_matrix : Malloc → (side : ℤ) → Kind → (id : ℤ) → Result (Option (List ℤ))
alloc_matrix malloc side what id =
    if leb_ℤ side (pos 0)
    then err err_invalid (size_not_positive what id side)
    else if ltb_ℤ max_side side
    then err err_invalid (size_too_large what id side)
    else elim (malloc (size_t side * size_t side)) [
      | none ↦ err err_nomem (cannot_allocate_elements what id)
      | some cells ↦ done (some cells)
    ]

unfoldable pub picture_alloc : Malloc → (id n : ℤ) → Result Picture
unfolding alloc_matrix
picture_alloc malloc id n = elim (alloc_matrix malloc n Kind.picture id) [
  | err s e ↦ err s e
  | done cells ↦ done (record { id = id; n = n; elems = cells })
]

unfoldable pub object_alloc : Malloc → (id m : ℤ) → Result Object
unfolding alloc_matrix
object_alloc malloc id m = elim (alloc_matrix malloc m Kind.object id) [
  | err s e ↦ err s e
  | done cells ↦ done (record { id = id; m = m; elems = cells })
]

-- A slot of an array from `calloc`.
abbrev pub zero_picture : Picture
zero_picture = record { id = pos 0; n = pos 0; elems = none }

abbrev pub zero_object : Object
zero_object = record { id = pos 0; m = pos 0; elems = none }

-- `msearch_problem_alloc`: the problem as it stands at the return, and what is returned. The flags
-- are the answers of the two calls of `calloc`; an array that is NULL has no elements.
unfoldable pub problem_alloc :
    {F : Floating}
    → (calloc_pictures calloc_objects : Bool) → Problem F
    → (num_pictures num_objects : ℤ) → Problem F × Result (Unit {0})
problem_alloc calloc_pictures calloc_objects p num_pictures num_objects =
    let bare = record p {
      num_pictures = num_pictures;
      pictures = [];
      num_objects = num_objects;
      objects = [];
    } in
    let with_pictures = record bare { pictures = replicate (pos_part num_pictures) zero_picture } in
    let with_both = record with_pictures {
      objects = replicate (pos_part num_objects) zero_object;
    } in
    if ltb_ℤ (pos 0) num_pictures && not calloc_pictures
    then (bare, err err_nomem (cannot_allocate_array Kind.picture num_pictures))
    else if ltb_ℤ (pos 0) num_objects && not calloc_objects
    then (with_pictures, err err_nomem (cannot_allocate_array Kind.object num_objects))
    else (with_both, done tt)

-- A loop of `msearch_problem_free`: `array[i].data` is read for each i, and freed.
unfoldable pub free_each {ℓ} : {A : Type ℓ} → (rounds i : ℕ) → List A → Option (Unit {0})
free_each zero i array = some tt
free_each (suc k) i array = do slot ← get_elem? array i; free_each k (suc i) array

-- `msearch_problem_free`; the arrays are given back, and the record is zeroed.
unfoldable pub problem_free : {F : Floating} → Problem F → Option (Problem F)
unfolding free_each problem_init
problem_free {F} p = do
  pictures ← free_each (pos_part p.num_pictures) 0 p.pictures
  objects ← free_each (pos_part p.num_objects) 0 p.objects
  some (problem_init F)

-- A `long long`: n and m are ints, so nothing overflows for positive m.
unfoldable pub placement_count : (n m : ℤ) → ℤ
placement_count n m =
    let span = n -ℤ m +ℤ pos 1 in if ltb_ℤ (pos 0) span then span *ℤ span else pos 0

unfoldable pub max_elems : ℕ → List Picture → ℕ
max_elems most [] = most
max_elems most (p ∷ ps) =
    let elems = size_t p.n * size_t p.n in max_elems (if ltb most elems then elems else most) ps

unfoldable pub max_picture_elems : {F : Floating} → Problem F → ℕ
unfolding max_elems
max_picture_elems p = max_elems 0 p.pictures

-- The `while` of `sort_objects_by_id`, with `j + 1` for j: what is greater than `key` moves up.
unfoldable pub shift : (next : ℕ) (objects : List Object) (key : Object) → Option (List Object)
shift zero objects key = write objects 0 key
shift (suc j) objects key = do
  o ← get_elem? objects j
  let rest = write objects (suc j) o >>= λ moved. shift j moved key
  if ltb_ℤ key.id o.id then rest else write objects (suc j) key

-- The `for`, with the number of rounds left.
unfoldable pub sort_from : (rounds i : ℕ) (objects : List Object) → Option (List Object)
unfolding shift
sort_from zero i objects = some objects
sort_from (suc k) i objects = do
  key ← get_elem? objects i
  objects' ← shift i objects key
  sort_from k (suc i) objects'

unfoldable pub sort_objects_by_id : (objects : List Object) (count : ℤ) → Option (List Object)
unfolding sort_from
sort_objects_by_id objects count = sort_from (pos_part count - 1) 1 objects
