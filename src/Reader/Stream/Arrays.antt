-- ===== src/Reader/Stream/Arrays.antt =====
-- src/core/parser.c: the arrays that the loops fill, and giving them back.
use mpi_local_lab.Base.{
  ℕ, zero, suc, ◌+◌, ◌≤◌, ◌≡◌, refl, ◌∙◌, arith, inl, inr, List, [], ◌∷◌, some, length,
  get_elem?-some, set, length-set, write-set, Option, replicate, All,
}
use mpi_local_lab.Base.Int.{pos}
use mpi_local_lab.Floating.{Floating}
use mpi_local_lab.Types.{Result-cases, Problem, Result, done, err}
use mpi_local_lab.Problem.{Malloc, problem_init, problem_free, free_each}
use mpi_local_lab.Reader.{Lexer}
use mpi_local_lab.Reader.Matrix.Sized.{Returns}
use mpi_local_lab.Reader.Stream.{read_all}

All-set {ℓ κ} :
    {A : Type ℓ} (P : A → Type κ) (xs : List A) (i : ℕ) (v : A)
    → All P xs
    → P v
    → All P (set xs i v)
All-set P [] i v h new = tt
All-set P (x ∷ xs) zero v h new = (new, h.1)
All-set P (x ∷ xs) (suc i) v h new = (h.0, All-set P xs i v h.1 new)

-- The loops write inside the array, keep the number of slots, and whatever holds of each slot and
-- of all that is read.
pub read_all-All {ℓ κ} :
    {A : Type ℓ} (P : A → Type κ) (read_one : Malloc → Lexer → Option (Result (A × Lexer)))
    (malloc : ℕ → Malloc)
    → ((i : ℕ) (lexer : Lexer) → Returns P (read_one (malloc i) lexer))
    → (rounds i : ℕ) (lexer : Lexer) (array : List A) → rounds + i ≤ length array
    → All P array
    → (out : List A) × (end : Result Lexer) × (read_all read_one malloc rounds i lexer array
        ≡ some (out, end))
      × All P out
      × (length out ≡ length array)
unfolding read_all
read_all-All P read_one malloc good zero i lexer array le h = (array, done lexer, refl, h, refl)
read_all-All P read_one malloc good (suc k) i lexer array le h =
    let (r, run, is) = good i lexer in
    elim (Result-cases r) [
      | inl (s, m, failed) ↦ (array, err s m, rw (run, failed) refl, h, refl)
      | inr ((x, next), read) ↦
          let (out, end, rest, all, same) =
            read_all-All P read_one malloc good k (suc i) next (set array i x)
              (omega (arith, le, length-set array i x)) (All-set P array i x h (is x next read)) in
          (
            out,
            end,
            rw (run, read, write-set array i x (omega (arith, le))) rest,
            all,
            same ∙ length-set array i x,
          )
    ]

free_each-total {ℓ} :
    {A : Type ℓ} (rounds i : ℕ) (array : List A)
    → rounds + i ≤ length array
    → free_each rounds i array ≡ some tt
unfolding free_each
free_each-total zero i array h = refl
free_each-total (suc k) i array h =
    let (x, at) = get_elem?-some array i (omega (arith, h)) in
    rw at (free_each-total k (suc i) array (omega (arith, h)))

-- A problem whose counts count its arrays is freed without a fault.
pub problem_free-total :
    {F : Floating} (p : Problem F)
    → p.num_pictures ≡ pos (length p.pictures)
    → p.num_objects ≡ pos (length p.objects)
    → problem_free p ≡ some (problem_init F)
unfolding problem_free
problem_free-total p ps os =
    rw
      (
        ps,
        os,
        free_each-total (length p.pictures) 0 p.pictures (omega arith),
        free_each-total (length p.objects) 0 p.objects (omega arith),
      )
      refl

pub All-replicate {ℓ κ} :
    {A : Type ℓ} (P : A → Type κ) (n : ℕ) (a : A) → P a → All P (replicate n a)
All-replicate P zero a h = tt
All-replicate P (suc n) a h = (h, All-replicate P n a h)
