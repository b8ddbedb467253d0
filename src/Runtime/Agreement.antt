-- ===== src/Runtime/Agreement.antt =====
-- `msearch_run_mpi` (src/runtime/runner_mpi.c) against `msearch_run_local`.
use mathlib.Core.Path.{subst}
use mathlib.Core.Option.{some-injective}
use mpi_local_lab.Base.{
  ℕ, suc, ◌<◌, ◌≡◌, refl, sym, ap, ◌∙◌, arith, List, [], ◌∷◌, some, length, get_elem?, length-map,
  if◌then◌else◌,
}
use mpi_local_lab.Base.Int.{ℤ}
use mpi_local_lab.Types.{Status, ok, Picture, Match, match_none, done}
use mpi_local_lab.Runtime.{Backend}
use mpi_local_lab.Runtime.Local.{Loop, none_left, searched}
use mpi_local_lab.Runtime.Collectives.{Collectives}
use mpi_local_lab.Runtime.Gather.{
  MpiRun, gathered, returned, status_of, is_ok, gathered_status, final_status,
}
use mpi_local_lab.Runtime.Gather.Complete.{placed, gathered-done, all_claimed-ok, all-IsAnswered}

-- The backend fills in the id of the picture that it was given.
abbrev pub IsNaming : Backend → Type 0
IsNaming backend = (p : Picture) (x : Match) → backend p (done x) → x.picture_id ≡ p.id

-- A list with an answer for each picture is one that the local loop may leave.
Loop_of_answers :
    (backend : Backend) (pictures : List Picture) (out : List Match)
    → IsNaming backend
    → length out ≡ length pictures
    → ((i : ℕ) (p : Picture)
        → get_elem? pictures i ≡ some p
        → (m : Match) × backend p (done m)
          × (get_elem? out i ≡ some (record m { picture_id = p.id })))
    → Loop backend pictures out ok
Loop_of_answers backend [] [] named len answers = none_left
Loop_of_answers backend [] (x ∷ out) named len answers = absurd (omega (arith, len))
Loop_of_answers backend (p ∷ pictures) [] named len answers = absurd (omega (arith, len))
Loop_of_answers backend (p ∷ pictures) (x ∷ out) named len answers =
    let (m, may, at) = answers 0 p refl in
    let named_m : record m { picture_id = p.id } ≡ m =
      ap (λ id. record m { picture_id = id }) (sym (named p m may)) in
    let first : x ≡ m = some-injective _ _ at ∙ named_m in
    searched (subst (λ y. backend p (done y)) (sym first) may)
      (Loop_of_answers backend pictures out named (omega (arith, len)) (λ i. answers (suc i)))

final_status_all :
    (mpi : Collectives ℤ) (ranks : ℕ) (gather_status : Status) (claimed : ℕ → Status)
    → gather_status ≡ ok
    → ((q : ℕ) → q < ranks → claimed q ≡ ok)
    → (r : ℕ) → r < ranks
    → final_status mpi ranks gather_status claimed r ≡ ok
unfolding final_status gathered_status
final_status_all mpi ranks gather_status claimed placed_ok good r lt =
    let flag : ℕ → ℕ = λ q. if is_ok (gathered_status gather_status claimed q) then 0 else 1 in
    let (q, below, e) = mpi.allreduce_max-attained ranks flag (omega (arith, lt)) in
    ground (arith, placed_ok, good q below, good r lt, e)

module _ (mpi : Collectives ℤ) (ranks : ℕ) (backend : Backend) (pictures : List Picture)
    (m : MpiRun mpi ranks backend pictures) where
  -- Where one rank returns MSEARCH_OK, rank 0 has a list of matches that `msearch_run_local` may
  -- return for the same pictures, with MSEARCH_OK; the backend must fill in the picture's id.
  pub returned-IsLocal :
      IsNaming backend
      → (r : ℕ) → r < ranks
      → returned mpi ranks m r ≡ ok
      → (out : List Match) × (gathered mpi ranks m ≡ done out) × Loop backend pictures out ok
  returned-IsLocal named r lt e =
      let place = placed mpi ranks backend pictures m in
      (
        place.out,
        gathered-done mpi ranks backend pictures m,
        Loop_of_answers backend pictures place.out named
            (place.same_length ∙ length-map pictures (λ (p : Picture). match_none p.id))
            (all-IsAnswered mpi ranks backend pictures m r lt e),
      )

  -- Whether MSEARCH_OK is returned is the same on every rank, and it is returned exactly where no
  -- rank has failed to start or to search.
  pub returned-ok_iff :
      (r : ℕ)
      → r < ranks
      → ((returned mpi ranks m r ≡ ok
            → (q : ℕ) → q < ranks
            → (m.claimed q ≡ ok) × (returned mpi ranks m q ≡ ok))
          × (((q : ℕ) → q < ranks → m.claimed q ≡ ok) → returned mpi ranks m r ≡ ok))
  returned-ok_iff r lt =
      let placed_ok : status_of (gathered mpi ranks m) ≡ ok =
        rw (gathered-done mpi ranks backend pictures m) refl in
      (
        λ e q below.
            let good = all_claimed-ok mpi ranks backend pictures m r lt e in
            (
              good q below,
              final_status_all mpi ranks (status_of (gathered mpi ranks m)) m.claimed placed_ok good
                  q below,
            ),
        λ good.
            final_status_all mpi ranks (status_of (gathered mpi ranks m)) m.claimed placed_ok good r
              lt,
      )
