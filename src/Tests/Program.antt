-- ===== src/Tests/Program.antt =====
-- A run of the whole program on one file, and the properties of its parts there.
use mathlib.Core.Option.{some-injective}
use mpi_local_lab.Base.{
  ℕ, ◌<◌, ◌≡◌, refl, sym, ap, arith, true, [], ◌∷◌, ◌++◌, some, length, replicate, length-replicate,
}
use mpi_local_lab.Base.Int.{pos, negsuc, ◌+ℤ◌, ◌-ℤ◌, ◌*ℤ◌}
use mpi_local_lab.Base.Machine.{size_t}
use mpi_local_lab.Config.{Text}
use mpi_local_lab.Types.{Problem, Match, match_found, Label, done}
use mpi_local_lab.Problem.{
  problem_init, alloc_matrix, picture_alloc, object_alloc, problem_alloc, placement_count,
  sort_objects_by_id,
}
use mpi_local_lab.Problem.Validate.{problem_validate, check_pictures, check_objects}
use mpi_local_lab.Reader.{is_space, line_after, skip, collect, lexer_next, newline}
use mpi_local_lab.Reader.Number.{digits, strtol, c_string, expect_int, expect_double, read_count}
use mpi_local_lab.Reader.Matrix.{read_elems, read_matrix, read_picture, read_object}
use mpi_local_lab.Reader.Matrix.Sized.{IsSizing}
use mpi_local_lab.Reader.Stream.{
  Allocator, read_all, finish, read_objects, fill_pictures, read_pictures, read_problem_stream,
  read_problem,
}
use mpi_local_lab.Writer.{
  print_nat, print_int, codes, format_match, write_lines, write_results, Output,
}
use mpi_local_lab.Writer.Numbers.{expect_int-print_int}
use mpi_local_lab.Writer.Lines.{IsPrintable, lines_of, format_match-fits, write_results-lines}
use mpi_local_lab.Tests.Fixed.{fixed, scale}

abbrev pub allocator : Allocator
allocator = record {
  calloc_pictures = true;
  calloc_objects = true;
  malloc_picture = λ i k. some (replicate k (pos 0));
  malloc_object = λ i k. some (replicate k (pos 0));
}

pub allocator-IsSizing : (i : ℕ) → IsSizing (allocator.malloc_picture i)
allocator-IsSizing i k cells e = rw (sym (some-injective _ _ e)) (length-replicate k (pos 0))

-- A picture and an object of one element, which is the same.
abbrev pub file : Text
file = codes "100\n1\n7 1\n3\n1\n5 1\n3\n"

abbrev pub problem : Problem fixed
problem = record {
  threshold = pos 100;
  num_pictures = pos 1;
  pictures = record { id = pos 7; n = pos 1; elems = some (pos 3 ∷ []) } ∷ [];
  num_objects = pos 1;
  objects = record { id = pos 5; m = pos 1; elems = some (pos 3 ∷ []) } ∷ [];
}

pub read_runs : read_problem {F = fixed} strtol allocator (some file) ≡ some (problem, done tt)
unfolding read_problem read_problem_stream read_pictures fill_pictures read_objects read_all finish
    read_picture read_object read_matrix read_elems expect_int expect_double read_count lexer_next
    skip collect is_space line_after strtol digits c_string problem_init problem_alloc picture_alloc
    object_alloc alloc_matrix problem_validate check_pictures check_objects sort_objects_by_id
    placement_count scale size_t ◌+ℤ◌ ◌-ℤ◌ ◌*ℤ◌
read_runs = refl

abbrev pub found : Match
found = record { picture_id = pos 7; object_id = pos 5; row = pos 0; col = pos 0 }

abbrev pub output : Output
output = record { fopen = true; fprintf = λ i. true; fclose = true }

abbrev pub line : Text
line = codes "Picture 7 found Object 5 in Position(0,0)\n"

pub write_runs : write_results output (codes "output.txt") (found ∷ []) ≡ (line, done tt)
unfolding write_results write_lines format_match print_int print_nat match_found
write_runs = refl

write_results-lines_example :
    (write_results output (codes "output.txt") (found ∷ [])).0 ≡ lines_of (found ∷ [])
write_results-lines_example =
    write_results-lines output (codes "output.txt") (found ∷ []) (ap (λ x. x.1) write_runs)

found-IsPrintable : IsPrintable found
found-IsPrintable = record {
  picture_int = omega arith;
  object_int = omega arith;
  row_int = omega arith;
  col_int = omega arith;
}

format_match-fits_example : length (format_match found) < 128
format_match-fits_example = format_match-fits found found-IsPrintable

expect_int-print_int_example :
    expect_int
      (record { input = print_int (negsuc 41) ++ newline ∷ []; line = pos 3 })
      Label.picture_count
    ≡ done (negsuc 41, record { input = []; line = pos 3 })
expect_int-print_int_example =
    expect_int-print_int (negsuc 41) [] (pos 3) Label.picture_count (omega arith)
