-- ===== src/Reader/Matrix.antt =====
-- src/core/parser.c: the pictures and objects of a problem file.
pub mod Sized
use mpi_local_lab.Base.{
  ℕ, zero, suc, ◌+◌, ◌*◌, Bool, List, [], ◌∷◌, Option, none, some, ◌>>=◌, write,
}
use mpi_local_lab.Base.Int.{ℤ}
use mpi_local_lab.Base.Machine.{size_t}
use mpi_local_lab.Types.{
  Picture, Object, Kind, Label, picture_id, picture_size, object_id, object_size, element, Result,
  done, err, attempt,
}
use mpi_local_lab.Problem.{Malloc, picture_alloc, object_alloc}
use mpi_local_lab.Reader.{Lexer}
use mpi_local_lab.Reader.Number.{expect_int}

-- The loop of `read_matrix`, from element `i` on. `none` is a write outside `data`.
unfoldable pub read_elems :
    (rounds i elems : ℕ) → Kind → (id : ℤ) → Lexer → List ℤ → Option (Result (List ℤ × Lexer))
unfolding expect_int
read_elems zero i elems what id lexer cells = some (done (cells, lexer))
read_elems (suc k) i elems what id lexer cells =
    attempt (expect_int lexer (element (suc i) elems what id))
      (λ read. write cells i read.0 >>= λ cells'. read_elems k (suc i) elems what id read.1 cells')

unfoldable pub read_matrix :
    Lexer → List ℤ → (side : ℤ) → Kind → (id : ℤ) → Option (Result (List ℤ × Lexer))
unfolding read_elems
read_matrix lexer cells side what id =
    let elems = size_t side * size_t side in read_elems elems 0 elems what id lexer cells

-- The array behind a pointer that an allocation has set.
abbrev pub data_of : Option (List ℤ) → List ℤ
data_of none = []
data_of (some cells) = cells

-- One round of the loop over the pictures.
unfoldable pub read_picture : Malloc → Lexer → Option (Result (Picture × Lexer))
unfolding read_matrix picture_alloc expect_int
read_picture malloc lexer = attempt (expect_int lexer picture_id) (λ named.
    attempt (expect_int named.1 picture_size) (λ sized.
      attempt (picture_alloc malloc named.0 sized.0) (λ picture.
        read_matrix sized.1 (data_of picture.elems) sized.0 Kind.picture named.0 >>= λ filled.
        attempt filled (λ end. some (done (record picture { elems = some end.0 }, end.1))))))

-- One round of the loop over the objects.
unfoldable pub read_object : Malloc → Lexer → Option (Result (Object × Lexer))
unfolding read_matrix object_alloc expect_int
read_object malloc lexer = attempt (expect_int lexer object_id) (λ named.
    attempt (expect_int named.1 object_size) (λ sized.
      attempt (object_alloc malloc named.0 sized.0) (λ object.
        read_matrix sized.1 (data_of object.elems) sized.0 Kind.object named.0 >>= λ filled.
        attempt filled (λ end. some (done (record object { elems = some end.0 }, end.1))))))
