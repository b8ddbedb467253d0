-- ===== src/Tests/Broadcasts.antt =====
-- The broadcast of the problem on a rank whose calls all succeed, and its property there.
use mathlib.Core.Option.{some-injective}
use mpi_local_lab.Base.{◌≡◌, sym, ◌⊎◌, arith, true, some, replicate, length-replicate, ℕ}
use mpi_local_lab.Base.Int.{pos}
use mpi_local_lab.Types.{Status, Problem, Message, Result, done, err}
use mpi_local_lab.Problem.{problem_init}
use mpi_local_lab.Reader.Matrix.Sized.{IsSizing}
use mpi_local_lab.Runtime.Broadcast.{Broadcasts, Allocator, receive_problem}
use mpi_local_lab.Runtime.Broadcast.Received.Matrices.{Refused}
use mpi_local_lab.Runtime.Broadcast.Received.Whole.{receive_problem-Gets}
use mpi_local_lab.Tests.Fixed.{fixed}
use mpi_local_lab.Tests.Search.{ctx, sorted-IsValid}

abbrev mpi : Broadcasts fixed
mpi = record {
  ints = λ call sent. some sent;
  double = λ sent. some sent;
  ints_lem = λ call sent got e. sym (some-injective _ _ e);
  double_lem = λ sent got e. sym (some-injective _ _ e);
}

abbrev alloc : Allocator
alloc = record {
  calloc_pictures = true;
  calloc_objects = true;
  malloc_shapes = true;
  malloc_picture = λ i ints. some (replicate ints (pos 0));
  malloc_object = λ i ints. some (replicate ints (pos 0));
}

alloc-IsSizing : (i : ℕ) → IsSizing (alloc.malloc_picture i)
alloc-IsSizing i k cells e = rw (sym (some-injective _ _ e)) (length-replicate k (pos 0))

receive_problem-Gets_example :
    (got : Problem fixed) × (r : Result (Unit {0})) × (receive_problem mpi alloc ctx.problem
        (problem_init fixed)
      ≡ some (got, r))
    × (((r ≡ done tt) × (got ≡ ctx.problem))
        ⊎ ((s : Status) × (m : Message) × (r ≡ err s m) × Refused mpi alloc ctx.problem))
receive_problem-Gets_example =
    receive_problem-Gets mpi alloc ctx.problem sorted-IsValid (omega arith, (omega arith, tt))
      alloc-IsSizing alloc-IsSizing (problem_init fixed)
