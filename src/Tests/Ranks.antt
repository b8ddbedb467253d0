-- ===== src/Tests/Ranks.antt =====
-- MPI runs of the matcher on one picture by two ranks, and the properties of the runtime there.
use mathlib.Core.Path.{subst}
use mathlib.Core.Option.{some-injective}
use mpi_local_lab.Base.{
  get_elem?, some, ◌≢◌, update, ℕ, zero, suc, ◌+◌, ◌*◌, ◌≤◌, ◌<◌, ◌≡◌, refl, arith, ◌⊎◌, inl, ltb,
  if◌then◌else◌, List, [], ◌∷◌, length, dec_lt, ℕ_discrete,
}
use mpi_local_lab.Base.Int.{ℤ}
use mpi_local_lab.Types.{Status, ok, Picture, Match, Message, done, err}
use mpi_local_lab.Backends.OpenMp.{Search}
use mpi_local_lab.Backends.OpenMp.Canonical.{Search-eq-serial}
use mpi_local_lab.Runtime.Local.{Loop}
use mpi_local_lab.Runtime.Collectives.{Collectives, joined}
use mpi_local_lab.Runtime.Claims.{
  World, open_world, claiming, searching, stopped, Run, Step, begin, later, claim, exhausted,
  searched, IsOver,
}
use mpi_local_lab.Runtime.Claims.Invariant.{sum}
use mpi_local_lab.Runtime.Claims.Buffers.{Run-fits}
use mpi_local_lab.Runtime.Claims.Progress.{Run-ends}
use mpi_local_lab.Runtime.Gather.{MpiRun, gathered, returned}
use mpi_local_lab.Runtime.Agreement.{returned-IsLocal, returned-ok_iff}
use mpi_local_lab.Determinism.{
  openmp_backend, serial_backend, run_mpi-eq-run_local, openmp-IsNaming,
}
use mpi_local_lab.Tests.Fixed.{fixed-Ieee}
use mpi_local_lab.Tests.Search.{picture, ctx, eps_pos, sorted-IsValid, picture-IsPicture}

most : ℕ → (ℕ → ℕ) → ℕ
most zero f = 0
most (suc n) f = let rest = most n f in if ltb rest (f n) then f n else rest

most-le : (n : ℕ) (f : ℕ → ℕ) (r : ℕ) → r < n → f r ≤ most n f
unfolding most
most-le zero f r lt = absurd (omega arith)
most-le (suc n) f r lt = elim (ℕ_discrete r n) [
  | yes e ↦ rw e (ground arith)
  | no ne ↦ ground (arith, most-le n f r (omega (arith, lt, ne)))
]

most-attained : (n : ℕ) (f : ℕ → ℕ) → 0 < n → (r : ℕ) × (r < n) × (most n f ≡ f r)
unfolding most
most-attained zero f lt = absurd (omega arith)
most-attained (suc zero) f lt = (0, omega arith, ground arith)
most-attained (suc (suc n)) f lt =
    let (r, below, e) = most-attained (suc n) f (omega arith) in
    elim (dec_lt (most (suc n) f) (f (suc n))) [
      | yes larger ↦ (suc n, omega arith, ground (arith, larger))
      | no not ↦ (r, omega (arith, below), ground (arith, not, e))
    ]

-- Collectives that run.
abbrev collectives : Collectives ℤ
collectives = record {
  gather = λ ranks sent r. sent r;
  gatherv = λ ranks sent counts displs. joined ranks sent;
  allreduce_max = most;
  gather_lem = λ ranks sent r lt. refl;
  gatherv-packed = λ ranks sent counts displs c d e. refl;
  allreduce_max-le = most-le;
  allreduce_max-attained = most-attained;
}

searched_match : (m : Match) × Search ctx picture m
searched_match =
    let (m, serial, run, unique) =
      Search-eq-serial ctx picture fixed-Ieee eps_pos sorted-IsValid picture-IsPicture in
    (m, run)

abbrev all_start : ℕ → Status
all_start r = ok

-- Rank 0 claims the picture, rank 1 finds none left, rank 0 finishes its search and leaves too.
abbrev last_world : (w : World) × Run (openmp_backend ctx) (picture ∷ []) 2 all_start w
last_world = (
  _,
  later
      (later
        (later (later begin (claim 0 (omega arith) refl (omega arith)))
          (exhausted 1 (omega arith) refl (omega arith)))
        (searched 0 0 picture searched_match.0 (omega arith) refl refl searched_match.1))
      (exhausted 0 (omega arith) refl (omega arith)),
)

both : (r : ℕ) → r < 2 → last_world.0.phase r ≡ stopped ok
both zero lt = refl
both (suc zero) lt = refl
both (suc (suc r)) lt = absurd (omega arith)

abbrev two_ranks : MpiRun collectives 2 (openmp_backend ctx) (picture ∷ [])
two_ranks = record {
  started = all_start;
  world = last_world.0;
  run = last_world.1;
  claimed = λ r. ok;
  over = λ r lt. both r lt;
}

reports_ok : returned collectives 2 two_ranks 0 ≡ ok
reports_ok =
    let agreed =
      returned-ok_iff collectives 2 (openmp_backend ctx) (picture ∷ []) two_ranks 0 (omega arith) in
    agreed.1 (λ q lt. refl)

run_mpi-eq-run_local_example :
    (out : List Match) × (gathered collectives 2 two_ranks ≡ done out)
    × Loop (serial_backend ctx) (picture ∷ []) out ok
    × ((matches : List Match) (status : Status)
        → Loop (serial_backend ctx) (picture ∷ []) matches status
        → (matches ≡ out) × (status ≡ ok))
run_mpi-eq-run_local_example =
    run_mpi-eq-run_local ctx collectives 2 fixed-Ieee eps_pos sorted-IsValid two_ranks 0
      (omega arith) reports_ok

returned-IsLocal_example :
    (out : List Match) × (gathered collectives 2 two_ranks ≡ done out)
    × Loop (openmp_backend ctx) (picture ∷ []) out ok
returned-IsLocal_example =
    returned-IsLocal collectives 2 (openmp_backend ctx) (picture ∷ []) two_ranks
      (openmp-IsNaming ctx) 0 (omega arith) reports_ok

returned-ok_iff_example :
    (returned collectives 2 two_ranks 0 ≡ ok
      → (q : ℕ) → q < 2
      → (ok ≡ ok) × (returned collectives 2 two_ranks q ≡ ok))
    × (((q : ℕ) → q < 2 → ok ≡ ok) → returned collectives 2 two_ranks 0 ≡ ok)
returned-ok_iff_example =
    returned-ok_iff collectives 2 (openmp_backend ctx) (picture ∷ []) two_ranks 0 (omega arith)

Run-fits_example :
    ((r : ℕ) → r < 2 → length (two_ranks.world.records r) ≤ 1)
    × (sum 2 (λ r. length (two_ranks.world.records r)) ≤ 1)
Run-fits_example =
    Run-fits (openmp_backend ctx) (picture ∷ []) 2 all_start last_world.0 last_world.1

-- The OpenMP backend answers for the picture.
openmp_answers :
    (i : ℕ) (p : Picture)
    → get_elem? (picture ∷ []) i ≡ some p
    → ((m : Match) × openmp_backend ctx p (done m))
      ⊎ ((s : Status) × (message : Message) × openmp_backend ctx p (err s message) × (s ≢ ok))
openmp_answers zero p e =
    inl (
      subst (λ q. (m : Match) × openmp_backend ctx q (done m)) (some-injective _ _ e)
        searched_match)
openmp_answers (suc i) p e = cc

Run-ends_example :
    (1 ≤ 1 * 2 + 2)
    × (((status : ℕ → Status) × IsOver 2
            (record (open_world all_start) {
              counter = 1;
              phase = update (λ r. claiming) 0 (searching 0);
            })
            status)
        ⊎ ((v : World) × Step
              (openmp_backend ctx)
              (picture ∷ [])
              2
              (record (open_world all_start) {
                counter = 1;
                phase = update (λ r. claiming) 0 (searching 0);
              })
              v))
Run-ends_example =
    Run-ends (openmp_backend ctx) (picture ∷ []) 2 openmp_answers all_start _
      (later begin (claim 0 (omega arith) refl (omega arith)))
