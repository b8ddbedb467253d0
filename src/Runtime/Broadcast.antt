-- ===== src/Runtime/Broadcast.antt =====
-- `msearch_broadcast_problem` (src/runtime/runner_mpi.c): the problem of rank 0 on every rank.
pub mod Received
use mpi_local_lab.Base.{
  ℕ, zero, suc, ◌+◌, ◌*◌, ◌≡◌, Bool, not, ◌&&◌, List, [], ◌∷◌, ◌++◌, Option, none, some, ◌>>=◌,
  length, get_elem?, write, take, drop, leb, if◌then◌else◌,
}
use mpi_local_lab.Base.Int.{ℤ, pos, pos_part, ltb_ℤ, eqb_ℤ, ◌+ℤ◌, ◌*ℤ◌}
use mpi_local_lab.Base.Machine.{size_t}
use mpi_local_lab.Floating.{Floating}
use mpi_local_lab.Types.{
  Status, err_nomem, err_backend, Picture, Object, Problem, Message, bcast_failed,
  cannot_allocate_shapes, Result, done, err,
}
use mpi_local_lab.Problem.{Malloc, problem_alloc, picture_alloc, object_alloc}
use mpi_local_lab.Problem.Validate.{problem_validate}
use mpi_local_lab.Reader.Matrix.{data_of}

-- MPI_Bcast on one rank: what its buffer holds behind the call when the root sends these values, or
-- `none` where the call does not return MPI_SUCCESS. The MPI standard says that the buffer holds
-- what the root sent. The calls are numbered in the order of the program.
pub record Broadcasts (F : Floating) : Type 0 where
  pub ints : (call : ℕ) → List ℤ → Option (List ℤ)
  pub double : F.Double → Option F.Double
  pub ints_lem : (call : ℕ) (sent got : List ℤ) → ints call sent ≡ some got → got ≡ sent
  pub double_lem : (sent got : F.Double) → double sent ≡ some got → got ≡ sent

-- The answers of the allocator on this rank.
pub record Allocator : Type 0 where
  pub calloc_pictures : Bool
  pub calloc_objects : Bool
  pub malloc_shapes : Bool
  pub malloc_picture : ℕ → Malloc
  pub malloc_object : ℕ → Malloc

-- `shapes` as the root fills it: id and side of each picture, then of each object.
unfoldable pub picture_shapes : List Picture → List ℤ
picture_shapes [] = []
picture_shapes (p ∷ ps) = p.id ∷ p.n ∷ picture_shapes ps

unfoldable pub object_shapes : List Object → List ℤ
object_shapes [] = []
object_shapes (o ∷ os) = o.id ∷ o.m ∷ object_shapes os

unfoldable pub shapes_of : {F : Floating} → Problem F → List ℤ
unfolding picture_shapes object_shapes
shapes_of p = picture_shapes p.pictures ++ object_shapes p.objects

-- The `side * side` ints that the root sends of a matrix.
unfoldable pub sent_of : (elems : Option (List ℤ)) → (side : ℤ) → List ℤ
sent_of elems side = take (size_t side * size_t side) (data_of elems)

-- What the root sends in round `i` of the two loops; `none` is a read out of bounds.
unfoldable pub picture_sent : List Picture → ℕ → Option (List ℤ)
unfolding sent_of
picture_sent pictures i = do p ← get_elem? pictures i; some (sent_of p.elems p.n)

unfoldable pub object_sent : List Object → ℕ → Option (List ℤ)
unfolding sent_of
object_sent objects i = do o ← get_elem? objects i; some (sent_of o.elems o.m)

-- A slot whose allocation has failed.
abbrev pub unfilled_picture : (id side : ℤ) → Picture
unfilled_picture id side = record { id = id; n = side; elems = none }

abbrev pub unfilled_object : (id side : ℤ) → Object
unfilled_object id side = record { id = id; m = side; elems = none }

abbrev pub picture_data : Picture → List ℤ
picture_data p = data_of p.elems

abbrev pub object_data : Object → List ℤ
object_data o = data_of o.elems

abbrev pub picture_with : Picture → List ℤ → Picture
picture_with p cells = record p { elems = some cells }

abbrev pub object_with : Object → List ℤ → Object
object_with o cells = record o { elems = some cells }

-- What MPI_Bcast leaves in a buffer that is to receive `count` ints; `none` where the count is not
-- that of the root, or the buffer is shorter.
unfoldable pub received : (count : ℤ) → (buffer got : List ℤ) → Option (List ℤ)
received count buffer got =
    if eqb_ℤ count (pos (length got)) && leb (length got) (length buffer)
    then some (got ++ drop (length got) buffer)
    else none

-- A loop over the matrices on a rank that is not the root, where `base` is the index of its first
-- shape: the array as it stands at the end, and how the loop ends. `bcast` numbers the calls of
-- both loops in order.
unfoldable pub receive_all {ℓ} :
    {A : Type ℓ}
    → (alloc_one : Malloc → (id side : ℤ) → Result A) → (unfilled : (id side : ℤ) → A)
    → (buffer_of : A → List ℤ) → (with_data : A → List ℤ → A) → (malloc : ℕ → Malloc)
    → (bcast : ℕ → List ℤ → Option (List ℤ)) → (shapes : List ℤ) → (sent : ℕ → Option (List ℤ))
    → (base rounds i : ℕ) → List A
    → Option (List A × Result (Unit {0}))
receive_all alloc_one unfilled buffer_of with_data malloc bcast shapes sent base zero i array =
    some (array, done tt)
receive_all alloc_one unfilled buffer_of with_data malloc bcast shapes sent base (suc k) i array =
    do
      id ← get_elem? shapes ((base + i) * 2)
      side ← get_elem? shapes ((base + i) * 2 + 1)
      cells ← sent i
      elim (alloc_one (malloc i) id side) [
        | err s e ↦ do array' ← write array i (unfilled id side); some (array', err s e)
        | done x ↦ elim (bcast (base + i) cells) [
          | none ↦ do array' ← write array i x; some (array', err err_backend bcast_failed)
          | some got ↦ do
            filled ← received (side *ℤ side) (buffer_of x) got
            array' ← write array i (with_data x filled)
            receive_all alloc_one unfilled buffer_of with_data malloc bcast shapes sent base k
                (suc i) array'
        ]
      ]

-- The same loop on the root.
unfoldable pub send_all :
    (bcast : ℕ → List ℤ → Option (List ℤ))
    → (sent : ℕ → Option (List ℤ)) → (base rounds i : ℕ) → Option (Result (Unit {0}))
send_all bcast sent base zero i = some (done tt)
send_all bcast sent base (suc k) i = do
  cells ← sent i
  elim (bcast (base + i) cells) [
    | none ↦ some (err err_backend bcast_failed)
    | some got ↦ send_all bcast sent base k (suc i)
  ]

module _ {F : Floating} (mpi : Broadcasts F) (alloc : Allocator) (root : Problem F) where
  abbrev bcast_cells : ℕ → List ℤ → Option (List ℤ)
  bcast_cells call = mpi.ints (call + 2)

  -- The objects, behind the pictures, on a rank that is not the root; then the validation.
  unfoldable pub receive_objects :
      (header_pictures header_objects : ℤ)
      → (shapes : List ℤ) → Problem F
      → Option (Problem F × Result (Unit {0}))
  unfolding receive_all object_sent object_alloc problem_validate
  receive_objects header_pictures header_objects shapes p = do
    (objects, end) ←
        receive_all object_alloc unfilled_object object_data object_with alloc.malloc_object
          bcast_cells shapes (object_sent root.objects) (pos_part header_pictures)
          (pos_part header_objects) 0 p.objects
    let p' = record p { objects = objects }
    elim end [
      | err s e ↦ some (p', err s e)
      | done _ ↦ do
        validated ← problem_validate p'
        elim validated [ err s e ↦ some (p', err s e) | done (p'', warned) ↦ some (p'', done tt) ]
    ]

  unfoldable pub receive_pictures :
      (header_pictures header_objects : ℤ)
      → (shapes : List ℤ) → Problem F
      → Option (Problem F × Result (Unit {0}))
  unfolding receive_all picture_sent picture_alloc receive_objects
  receive_pictures header_pictures header_objects shapes p = do
    (pictures, end) ←
        receive_all picture_alloc unfilled_picture picture_data picture_with alloc.malloc_picture
          bcast_cells shapes (picture_sent root.pictures) 0 (pos_part header_pictures) 0 p.pictures
    let p' = record p { pictures = pictures }
    elim end [
      | err s e ↦ some (p', err s e)
      | done _ ↦ receive_objects header_pictures header_objects shapes p'
    ]

  -- Behind `msearch_problem_alloc`: the shapes. `malloc` of no bytes is not called.
  unfoldable pub receive_allocated :
      (header_pictures header_objects : ℤ)
      → Problem F × Result (Unit {0})
      → Option (Problem F × Result (Unit {0}))
  unfolding receive_pictures shapes_of
  receive_allocated header_pictures header_objects (p, err s e) = some (p, err s e)
  receive_allocated header_pictures header_objects (p, done _) =
      let shape_ints = (header_pictures +ℤ header_objects) *ℤ pos 2 in
      if ltb_ℤ (pos 0) shape_ints && not alloc.malloc_shapes
      then some (p, err err_nomem cannot_allocate_shapes)
      else elim (mpi.ints 1 (shapes_of root)) [
        | none ↦ some (p, err err_backend bcast_failed)
        | some shapes ↦ receive_pictures header_pictures header_objects shapes p
      ]

  -- Behind the header and the threshold: the arrays.
  unfoldable pub receive_shapes :
      (header_pictures header_objects : ℤ) → Problem F → Option (Problem F × Result (Unit {0}))
  unfolding receive_allocated problem_alloc
  receive_shapes header_pictures header_objects p =
      receive_allocated header_pictures header_objects
        (problem_alloc alloc.calloc_pictures alloc.calloc_objects p header_pictures header_objects)

  -- On a rank that is not the root: the problem that it holds afterwards, and what is returned.
  unfoldable pub receive_problem : Problem F → Option (Problem F × Result (Unit {0}))
  unfolding receive_shapes
  receive_problem p = elim (mpi.ints 0 (root.num_pictures ∷ root.num_objects ∷ [])) [
    | none ↦ some (p, err err_backend bcast_failed)
    | some header ↦ elim (mpi.double root.threshold) [
      | none ↦ some (p, err err_backend bcast_failed)
      | some threshold ↦ do
        header_pictures ← get_elem? header 0
        header_objects ← get_elem? header 1
        receive_shapes header_pictures header_objects (record p { threshold = threshold })
    ]
  ]

  -- On the root, whose problem does not change: what is returned.
  unfoldable pub send_problem : Option (Result (Unit {0}))
  unfolding send_all picture_sent object_sent shapes_of
  send_problem = elim (mpi.ints 0 (root.num_pictures ∷ root.num_objects ∷ [])) [
    | none ↦ some (err err_backend bcast_failed)
    | some header ↦ elim (mpi.double root.threshold) [
      | none ↦ some (err err_backend bcast_failed)
      | some threshold ↦
          if ltb_ℤ (pos 0) ((root.num_pictures +ℤ root.num_objects) *ℤ pos 2)
            && not alloc.malloc_shapes
          then some (err err_nomem cannot_allocate_shapes)
          else elim (mpi.ints 1 (shapes_of root)) [
            | none ↦ some (err err_backend bcast_failed)
            | some shapes ↦ do
              pictures ←
                  send_all bcast_cells (picture_sent root.pictures) 0 (pos_part root.num_pictures) 0
              elim pictures [
                | err s e ↦ some (err s e)
                | done _ ↦
                    send_all bcast_cells (object_sent root.objects) (pos_part root.num_pictures)
                      (pos_part root.num_objects) 0
              ]
          ]
    ]
  ]
