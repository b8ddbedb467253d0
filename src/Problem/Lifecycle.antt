-- ===== src/Problem/Lifecycle.antt =====
-- src/core/problem.c: a problem whose allocation failed, and what freeing it does.
use mpi_local_lab.Base.{◌≡◌, refl, arith, Bool, true, false, none, zero, suc}
use mpi_local_lab.Base.Int.{ℤ, pos, negsuc, ltb_ℤ}
use mpi_local_lab.Floating.{Floating}
use mpi_local_lab.Types.{Problem, Kind, Message, err_nomem, err}
use mpi_local_lab.Problem.{problem_alloc, problem_free, free_each}

-- Where `calloc` cannot give the pictures of a positive count, `msearch_problem_alloc` returns
-- MSEARCH_ERR_NOMEM with the count set, and `msearch_problem_free` then reads through NULL.
pub problem_free-problem_alloc :
    {F : Floating} (p : Problem F) (num_pictures num_objects : ℤ) (calloc_objects : Bool)
    → ltb_ℤ (pos 0) num_pictures ≡ true
    → ((problem_alloc false calloc_objects p num_pictures num_objects).1
        ≡ err err_nomem (Message.cannot_allocate_array Kind.picture num_pictures))
      × (problem_free (problem_alloc false calloc_objects p num_pictures num_objects).0 ≡ none)
unfolding problem_alloc problem_free free_each
problem_free-problem_alloc p (pos zero) num_objects calloc_objects h = cc
problem_free-problem_alloc p (pos (suc k)) num_objects calloc_objects h = (rw h refl, rw h refl)
problem_free-problem_alloc p (negsuc k) num_objects calloc_objects h = absurd (ground (arith, h))
