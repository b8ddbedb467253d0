-- ===== src/Tests/Files.antt =====
-- Problem files that are read, and the properties of the reader there.
use mpi_local_lab.Base.{
  ℕ, ◌≡◌, refl, arith, true, false, List, [], ◌∷◌, some, none, replicate, length-replicate, sym,
}
use mpi_local_lab.Base.Int.{ℤ, pos, negsuc, ◌-ℤ◌}
use mathlib.Core.Option.{some-injective}
use mpi_local_lab.Types.{Kind, Message, err_nomem, err}
use mpi_local_lab.Problem.{problem_init, problem_alloc, problem_free}
use mpi_local_lab.Problem.Lifecycle.{problem_free-problem_alloc}
use mpi_local_lab.Reader.{word, lexer_next, is_space}
use mpi_local_lab.Reader.Lines.{lexer_next-line_end}
use mpi_local_lab.Reader.Number.{Converted, strtol}
use mpi_local_lab.Reader.Matrix.Sized.{IsSizing}
use mpi_local_lab.Reader.Stream.{Allocator, read_problem_stream}
use mpi_local_lab.Reader.Stream.Total.{Ends, read_problem_stream-Ends}
use mpi_local_lab.Tests.Fixed.{fixed}

-- An allocator that never fails.
abbrev allocator : Allocator
allocator = record {
  calloc_pictures = true;
  calloc_objects = true;
  malloc_picture = λ i k. some (replicate k (pos 0));
  malloc_object = λ i k. some (replicate k (pos 0));
}

allocator-IsSizing : (i : ℕ) → IsSizing (allocator.malloc_picture i)
allocator-IsSizing i k cells e = rw (sym (some-injective _ _ e)) (length-replicate k (pos 0))

-- A `strtod` that reads thousandths.
abbrev thousandths : List ℕ → Converted ℤ
thousandths text = strtol text

-- "100\n1\n7 1\n3\n0\n"
abbrev file : List ℕ
file = 49 ∷ 48 ∷ 48 ∷ 10 ∷ 49 ∷ 10 ∷ 55 ∷ 32 ∷ 49 ∷ 10 ∷ 51 ∷ 10 ∷ 48 ∷ 10 ∷ []

read_problem_stream-Ends_example : Ends (read_problem_stream {F = fixed} thousandths allocator file)
read_problem_stream-Ends_example =
    read_problem_stream-Ends thousandths allocator file allocator-IsSizing allocator-IsSizing refl

strtol_runs :
    strtol (45 ∷ 52 ∷ 50 ∷ 120 ∷ [])
    ≡ record { value = negsuc 41; rest = 120 ∷ []; converted = true; out_of_range = false }
unfolding strtol ◌-ℤ◌
strtol_runs = refl

-- "42\n7": the newline is consumed, and the line stays 1.
lexer_next-line_end_example :
    lexer_next (record { input = 52 ∷ 50 ∷ 10 ∷ 55 ∷ []; line = pos 1 })
    ≡ word (52 ∷ 50 ∷ []) (record { input = 55 ∷ []; line = pos 1 })
unfolding is_space
lexer_next-line_end_example =
    lexer_next-line_end (pos 1) 52 (50 ∷ []) (55 ∷ []) refl refl (refl, tt) (omega arith)

problem_free-problem_alloc_example :
    ((problem_alloc false true (problem_init fixed) (pos 3) (pos 0)).1
      ≡ err err_nomem (Message.cannot_allocate_array Kind.picture (pos 3)))
    × (problem_free (problem_alloc false true (problem_init fixed) (pos 3) (pos 0)).0 ≡ none)
problem_free-problem_alloc_example =
    problem_free-problem_alloc (problem_init fixed) (pos 3) (pos 0) true refl
