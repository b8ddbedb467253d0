-- ===== src/Reader/Matrix/Sized.antt =====
-- src/core/parser.c: the matrix of a picture or object that has been read has all its elements.
use mathlib.Core.Path.{subst}
use mpi_local_lab.Base.{
  ℕ, zero, suc, ◌+◌, ◌*◌, ◌≤◌, ◌≡◌, refl, sym, ap, ◌∙◌, arith, inl, inr, List, Option, some, ◌>>=◌,
  length, set, length-set, write-set, Option-cases,
}
use mpi_local_lab.Base.Int.{ℤ}
use mpi_local_lab.Base.Machine.{size_t}
use mpi_local_lab.Types.{
  Result-cases, Picture, Object, Kind, Label, Result, done, err, attempt, done-injective,
}
use mpi_local_lab.Problem.{Malloc, alloc_matrix, picture_alloc, object_alloc}
use mpi_local_lab.Problem.Validate.Valid.{Sized}
use mpi_local_lab.Reader.{Lexer}
use mpi_local_lab.Reader.Number.{expect_int}
use mpi_local_lab.Reader.Matrix.{read_elems, read_matrix, data_of, read_picture, read_object}

-- An array that the allocator gives has the size that was asked for.
abbrev pub IsSizing : Malloc → Type 0
IsSizing malloc = (k : ℕ) (cells : List ℤ) → malloc k ≡ some cells → length cells ≡ k

-- A reading step does not fault, and what it reads satisfies `P`.
abbrev pub Returns {ℓ κ} : {A : Type ℓ} → (A → Type κ) → Option (Result (A × Lexer)) → Type (ℓ ⊔ κ)
Returns {A = A} P o =
    (r : Result (A × Lexer)) × (o ≡ some r) × ((x : A) (lexer : Lexer) → r ≡ done (x, lexer) → P x)

attempt-Returns {ℓ κ μ} :
    {A : Type ℓ} {B : Type μ} (P : A → Type κ) (x : Result B) (f : B → Option (Result (A × Lexer)))
    → ((b : B) → x ≡ done b → Returns P (f b))
    → Returns P (attempt x f)
attempt-Returns P (done b) f h = h b refl
attempt-Returns P (err s m) f h = (err s m, refl, λ y l e. absurd (cc e))

bind-Returns {ℓ κ μ ν} :
    {A : Type ℓ} {B : Type μ} (P : A → Type κ) (Q : B → Type ν) (o : Option (Result (B × Lexer)))
    (f : Result (B × Lexer) → Option (Result (A × Lexer)))
    → Returns Q o
    → ((r : Result (B × Lexer))
        → ((x : B) (lexer : Lexer) → r ≡ done (x, lexer) → Q x)
        → Returns P (f r))
    → Returns P (o >>= f)
bind-Returns P Q o f (r, run, good) h = subst (λ q. Returns P (q >>= f)) (sym run) (h r good)

read_elems-Returns :
    (rounds i elems : ℕ) (what : Kind) (id : ℤ) (lexer : Lexer) (cells : List ℤ)
    → rounds + i ≤ length cells
    → Returns (λ out. length out ≡ length cells) (read_elems rounds i elems what id lexer cells)
unfolding read_elems
read_elems-Returns zero i elems what id lexer cells h = (_, refl, λ x l e. cc e)
read_elems-Returns (suc k) i elems what id lexer cells h =
    attempt-Returns _ (expect_int lexer (Label.element (suc i) elems what id)) _ (λ read e.
      let (r, run, good) =
        read_elems-Returns k (suc i) elems what id read.1 (set cells i read.0)
          (omega (arith, h, length-set cells i read.0)) in
      (
        r,
        rw (write-set cells i read.0 (omega (arith, h))) run,
        λ x l is. good x l is ∙ length-set cells i read.0,
      ))

alloc_matrix-Sized :
    (malloc : Malloc) (side : ℤ) (what : Kind) (id : ℤ) {elems : Option (List ℤ)}
    → IsSizing malloc
    → alloc_matrix malloc side what id ≡ done elems
    → length (data_of elems) ≡ size_t side * size_t side
unfolding alloc_matrix
alloc_matrix-Sized malloc side what id sizing e =
    elim (Option-cases (malloc (size_t side * size_t side))) [
      | inl none_given ↦ ground (arith, none_given)
      | inr (cells, given) ↦ ground (arith, given, sizing (size_t side * size_t side) cells given)
    ]

read_matrix-Returns :
    (lexer : Lexer) (cells : List ℤ) (side : ℤ) (what : Kind) (id : ℤ)
    → length cells ≡ size_t side * size_t side
    → Returns (λ out. length out ≡ length cells) (read_matrix lexer cells side what id)
unfolding read_matrix
read_matrix-Returns lexer cells side what id size =
    read_elems-Returns (size_t side * size_t side) 0 (size_t side * size_t side) what id lexer cells
      (omega (arith, size))

picture_alloc-Sized :
    (malloc : Malloc) (id n : ℤ) {p : Picture}
    → IsSizing malloc
    → picture_alloc malloc id n ≡ done p
    → (p.n ≡ n) × (length (data_of p.elems) ≡ size_t n * size_t n)
unfolding picture_alloc
picture_alloc-Sized malloc id n sizing e =
    elim (Result-cases (alloc_matrix malloc n Kind.picture id)) [
      | inl (status, message, failed) ↦ absurd (ground (arith, failed))
      | inr (elems, given) ↦
          let size = alloc_matrix-Sized malloc n Kind.picture id sizing given in
          ground (arith, given, size)
    ]

pub read_picture-Sized :
    (malloc : Malloc) (lexer : Lexer)
    → IsSizing malloc
    → Returns (λ (x : Picture). Sized x.n x.elems) (read_picture malloc lexer)
unfolding read_picture
read_picture-Sized malloc lexer sizing =
    attempt-Returns _ (expect_int lexer Label.picture_id) _ (λ named _.
      attempt-Returns _ (expect_int named.1 Label.picture_size) _ (λ sized _.
        attempt-Returns _ (picture_alloc malloc named.0 sized.0) _ (λ x made.
          let (side, size) = picture_alloc-Sized malloc named.0 sized.0 sizing made in
          bind-Returns _ (λ out. length out ≡ length (data_of x.elems)) _ _
            (read_matrix-Returns sized.1 (data_of x.elems) sized.0 Kind.picture named.0 size)
            (λ filled good. attempt-Returns _ filled _ (λ end e. (
              _,
              refl,
              λ y l is.
                  subst (λ (z : Picture). Sized z.n z.elems) (ap (λ q. q.0) (done-injective is))
                    (rw side (good end.0 end.1 e ∙ size)),
            ))))))

object_alloc-Sized :
    (malloc : Malloc) (id n : ℤ) {p : Object}
    → IsSizing malloc
    → object_alloc malloc id n ≡ done p
    → (p.m ≡ n) × (length (data_of p.elems) ≡ size_t n * size_t n)
unfolding object_alloc
object_alloc-Sized malloc id n sizing e =
    elim (Result-cases (alloc_matrix malloc n Kind.object id)) [
      | inl (status, message, failed) ↦ absurd (ground (arith, failed))
      | inr (elems, given) ↦
          let size = alloc_matrix-Sized malloc n Kind.object id sizing given in
          ground (arith, given, size)
    ]

pub read_object-Sized :
    (malloc : Malloc) (lexer : Lexer)
    → IsSizing malloc
    → Returns (λ (x : Object). Sized x.m x.elems) (read_object malloc lexer)
unfolding read_object
read_object-Sized malloc lexer sizing =
    attempt-Returns _ (expect_int lexer Label.object_id) _ (λ named _.
      attempt-Returns _ (expect_int named.1 Label.object_size) _ (λ sized _.
        attempt-Returns _ (object_alloc malloc named.0 sized.0) _ (λ x made.
          let (side, size) = object_alloc-Sized malloc named.0 sized.0 sizing made in
          bind-Returns _ (λ out. length out ≡ length (data_of x.elems)) _ _
            (read_matrix-Returns sized.1 (data_of x.elems) sized.0 Kind.object named.0 size)
            (λ filled good. attempt-Returns _ filled _ (λ end e. (
              _,
              refl,
              λ y l is.
                  subst (λ (z : Object). Sized z.m z.elems) (ap (λ q. q.0) (done-injective is))
                    (rw side (good end.0 end.1 e ∙ size)),
            ))))))
