-- ===== src/Problem/Validate/Total.antt =====
-- `msearch_problem_validate` (src/core/problem.c) returns on every allocated problem.
use mpi_local_lab.Base.{◌≡◌, refl, inl, inr, not, ◌||◌, List, some, Bool-cases}
use mpi_local_lab.Base.Int.{pos, ltb_ℤ}
use mpi_local_lab.Floating.{Floating, fzero}
use mpi_local_lab.Types.{
  err_invalid, threshold_not_positive, negative_count, Object, Problem, Result, done, err,
  Result-cases,
}
use mpi_local_lab.Problem.Sort.Order.{sort_objects_by_id-IsStableSort}
use mpi_local_lab.Problem.Validate.{
  max_n, oversize, problem_validate, check_pictures, check_objects,
}
use mpi_local_lab.Problem.Validate.Valid.{IsAllocated}

pub problem_validate-total :
    {F : Floating} (p : Problem F)
    → IsAllocated p
    → (r : Result (Problem F × List Object)) × (problem_validate p ≡ some r)
unfolding problem_validate
problem_validate-total {F} p al =
    let (sorted, sorts, stable) = sort_objects_by_id-IsStableSort p.objects in
    elim (Bool-cases (not (F.lt (fzero F) p.threshold))) [
      | inl low ↦ (err err_invalid threshold_not_positive, rw low refl)
      | inr positive ↦
          elim (Bool-cases (ltb_ℤ p.num_pictures (pos 0) || ltb_ℤ p.num_objects (pos 0))) [
            | inl negative ↦ (err err_invalid negative_count, rw (positive, negative) refl)
            | inr counted ↦ elim (Result-cases (check_pictures p.pictures)) [
              | inl (s, m, failed) ↦ (err s m, rw (positive, counted, failed) refl)
              | inr (passed_pictures, pictures_pass) ↦
                  elim (Result-cases (check_objects p.objects)) [
                    | inl (s, m, failed) ↦
                        (err s m, rw (positive, counted, pictures_pass, failed) refl)
                    | inr (passed_objects, objects_pass) ↦ (
                      done (
                        record p { objects = sorted },
                        oversize (max_n (pos 0) p.pictures) p.objects,
                      ),
                      rw (positive, counted, pictures_pass, objects_pass, al.objects_counted, sorts)
                          refl,
                    )
                  ]
            ]
          ]
    ]
