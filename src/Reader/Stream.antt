-- ===== src/Reader/Stream.antt =====
-- src/core/parser.c: `msearch_read_problem_stream` and `msearch_read_problem`.
pub mod Arrays
pub mod Total
use mpi_local_lab.Base.{
  ℕ, zero, suc, ◌+◌, ◌*◌, ◌&&◌, not, Bool, true, List, [], ◌∷◌, Option, none, some, ◌>>=◌,
  if◌then◌else◌, get_elem?, write, replicate,
}
use mpi_local_lab.Base.Int.{ℤ, pos, pos_part, ltb_ℤ}
use mpi_local_lab.Base.Machine.{size_t}
use mpi_local_lab.Floating.{Floating}
use mpi_local_lab.Types.{
  Status, err_io, err_nomem, Picture, Object, Problem, Kind, Label, threshold_label, picture_count,
  picture_id, picture_size, object_count, object_id, object_size, element, Message,
  cannot_allocate_array, cannot_open, Result, done, err,
}
use mpi_local_lab.Problem.{
  Malloc, problem_init, problem_alloc, picture_alloc, object_alloc, zero_object, problem_free,
}
use mpi_local_lab.Problem.Validate.{problem_validate}
use mpi_local_lab.Reader.{Lexer, lexer_init}
use mpi_local_lab.Reader.Matrix.{read_picture, read_object}
use mpi_local_lab.Reader.Number.{Converted, expect_double, read_count}

-- The answers of the allocator to the calls of one reading.
pub record Allocator : Type 0 where
  pub calloc_pictures : Bool
  pub calloc_objects : Bool
  pub malloc_picture : ℕ → Malloc
  pub malloc_object : ℕ → Malloc

-- The two loops: the array as it stands at the end, and how they end. A slot whose round fails
-- keeps its former value here; what it holds by then is freed with the array. `none` is a write
-- outside an array.
unfoldable pub read_all {ℓ} :
    {A : Type ℓ}
    → (read_one : Malloc → Lexer → Option (Result (A × Lexer))) → (malloc : ℕ → Malloc)
    → (rounds i : ℕ) → Lexer
    → List A
    → Option (List A × Result Lexer)
read_all read_one malloc zero i lexer array = some (array, done lexer)
read_all read_one malloc (suc k) i lexer array = do
  read ← read_one (malloc i) lexer
  elim read [
    | err s e ↦ some (array, err s e)
    | done (x, lexer') ↦
        write array i x >>= λ array'. read_all read_one malloc k (suc i) lexer' array'
  ]

module _ {F : Floating} (strtod : List ℕ → Converted F.Double) (alloc : Allocator) where
  -- `fail:`
  unfoldable pub fail : Problem F → Status → Message → Option (Problem F × Result (Unit {0}))
  unfolding problem_free
  fail p s e = do freed ← problem_free p; some (freed, err s e)

  -- Behind the loop over the objects. The token that may follow is only logged.
  unfoldable pub finish : Problem F → Option (Problem F × Result (Unit {0}))
  unfolding fail problem_validate
  finish p = do
    validated ← problem_validate p
    elim validated [ err s e ↦ fail p s e | done (p', warned) ↦ some (p', done tt) ]

  -- Behind the loop over the pictures.
  unfoldable pub read_objects : Problem F → Lexer → Option (Problem F × Result (Unit {0}))
  unfolding finish read_all read_object read_count
  read_objects p lexer = elim (read_count lexer object_count) [
    | err s e ↦ fail p s e
    | done (num_objects, lexer') ↦
        if ltb_ℤ (pos 0) num_objects && not alloc.calloc_objects
        then fail p err_nomem (cannot_allocate_array Kind.object num_objects)
        else do
          (objects, end) ←
              read_all read_object alloc.malloc_object (pos_part num_objects) 0 lexer'
                (replicate (pos_part num_objects) zero_object)
          let p' = record p { num_objects = num_objects; objects = objects }
          elim end [ err s e ↦ fail p' s e | done _ ↦ finish p' ]
  ]

  -- Behind the allocation of the pictures.
  unfoldable pub fill_pictures : Problem F → ℤ → Lexer → Option (Problem F × Result (Unit {0}))
  unfolding read_objects read_picture read_all
  fill_pictures p num_pictures lexer = do
    (pictures, end) ←
        read_all read_picture alloc.malloc_picture (pos_part num_pictures) 0 lexer p.pictures
    let p' = record p { pictures = pictures }
    elim end [ err s e ↦ fail p' s e | done lexer' ↦ read_objects p' lexer' ]

  -- Behind the picture count.
  unfoldable pub read_pictures : Problem F → ℤ → Lexer → Option (Problem F × Result (Unit {0}))
  unfolding fill_pictures problem_alloc
  read_pictures p num_pictures lexer =
      let (allocated, status) = problem_alloc alloc.calloc_pictures true p num_pictures (pos 0) in
      elim status [
        | err s e ↦ fail allocated s e
        | done _ ↦ fill_pictures allocated num_pictures lexer
      ]

  -- The problem that `out` points to afterwards, and what is returned.
  unfoldable pub read_problem_stream : List ℕ → Option (Problem F × Result (Unit {0}))
  unfolding read_pictures expect_double
  read_problem_stream input =
      let p = problem_init F in
      elim (expect_double strtod (lexer_init input) threshold_label) [
        | err s e ↦ fail p s e
        | done (threshold, lexer) ↦
            let p' = record p { threshold = threshold } in
            elim (read_count lexer picture_count) [
              | err s e ↦ fail p' s e
              | done (num_pictures, lexer') ↦ read_pictures p' num_pictures lexer'
            ]
      ]

  -- `none` for a file that cannot be opened.
  unfoldable pub read_problem : Option (List ℕ) → Option (Problem F × Result (Unit {0}))
  unfolding read_problem_stream
  read_problem none = some (problem_init F, err err_io cannot_open)
  read_problem (some input) = read_problem_stream input
