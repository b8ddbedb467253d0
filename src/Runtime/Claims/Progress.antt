-- ===== src/Runtime/Claims/Progress.antt =====
-- The claims (src/runtime/runner_mpi.c) end: a bound on their steps, and no state is stuck.
use mpi_local_lab.Base.{
  update, ℕ, zero, suc, ◌+◌, ◌*◌, ◌-◌, ◌≤◌, ◌<◌, ◌≡◌, ◌≢◌, arith, ◌⊎◌, inl, inr, List, length,
  get_elem?, some, get_elem?-some, dec_lt, ℕ_discrete, ◌==◌, if◌then◌else◌, refl,
}
use mpi_local_lab.Types.{Status, ok, Picture, Match, Message, done, err}
use mpi_local_lab.Runtime.{Backend}
use mpi_local_lab.Runtime.Claims.{
  Phase, claiming, searching, stopped, World, first_phase, Step, claim, exhausted, searched, failed,
  Run, begin, later, IsOver,
}
use mpi_local_lab.Runtime.Claims.Invariant.{sum, sum-change, Run-Inv}

-- The steps that a rank can take before its next claim, and that claim.
abbrev weight : Phase → ℕ
weight claiming = 1
weight (searching _) = 2
weight (stopped _) = 0

module _ (backend : Backend) (pictures : List Picture) (ranks : ℕ) where
  -- Two steps for each picture that is not claimed, and those of the ranks.
  abbrev potential : World → ℕ
  potential w = (length pictures - w.counter) * 2 + sum ranks (λ r. weight (w.phase r))

  Step-potential : {v w : World} → Step backend pictures ranks v w → potential w + 1 ≤ potential v
  Step-potential {v} (claim r lt at small) =
      let w : ℕ → ℕ = λ q. weight (update v.phase r (searching v.counter) q) in
      ground (arith, sum-change ranks (λ q. weight (v.phase q)) w r (λ j ne. ground (arith, ne)) lt)
  Step-potential {v} (exhausted r lt at full) =
      let w : ℕ → ℕ = λ q. weight (update v.phase r (stopped ok) q) in
      ground (arith, sum-change ranks (λ q. weight (v.phase q)) w r (λ j ne. ground (arith, ne)) lt)
  Step-potential {v} (searched r index picture match lt at is found) =
      let w : ℕ → ℕ = λ q. weight (update v.phase r claiming q) in
      ground (arith, sum-change ranks (λ q. weight (v.phase q)) w r (λ j ne. ground (arith, ne)) lt)
  Step-potential {v} (failed r index picture status message lt at is lost bad) =
      let w : ℕ → ℕ = λ q. weight (update v.phase r (stopped status) q) in
      ground (arith, sum-change ranks (λ q. weight (v.phase q)) w r (λ j ne. ground (arith, ne)) lt)

  open_potential :
      (n : ℕ) (started : ℕ → Status) → sum n (λ r. weight (first_phase (started r))) ≤ n
  unfolding sum
  open_potential zero started = omega arith
  open_potential (suc n) started = ground (arith, open_potential n started, started n)

  abbrev pub steps_of :
      {started : ℕ → Status} {w : World} → Run backend pictures ranks started w → ℕ
  steps_of begin = 0
  steps_of (later run step) = steps_of run + 1

  steps-potential :
      {started : ℕ → Status} {w : World} (run : Run backend pictures ranks started w)
      → steps_of run + potential w ≤ length pictures * 2 + ranks
  steps-potential {started} begin = omega (arith, open_potential ranks started)
  steps-potential (later run step) = omega (arith, steps-potential run, Step-potential step)

  -- Either all ranks have stopped, or one of the first n has not.
  running_or_IsOver :
      (n : ℕ) (w : World)
      → ((r : ℕ) × (r < n) × ((w.phase r ≡ claiming) ⊎ ((i : ℕ) × (w.phase r ≡ searching i))))
        ⊎ ((status : ℕ → Status) × IsOver n w status)
  running_or_IsOver zero w = inr (λ r. ok, λ r lt. absurd (omega arith))
  running_or_IsOver (suc n) w = elim (running_or_IsOver n w) [
    | inl (r, lt, busy) ↦ inl (r, omega arith, busy)
    | inr (status, over) ↦ elim (phase_cases (w.phase n)) [
      | inl busy ↦ inl (n, omega arith, busy)
      | inr (last, e) ↦ inr (
        λ r. if r == n then last else status r,
        λ r lt. elim (ℕ_discrete r n) [
          | yes same ↦ ground (arith, same, e)
          | no other ↦ ground (arith, other, over r (omega (arith, lt, other)))
        ],
      )
    ]
  ]
    where
      phase_cases :
          (p : Phase)
          → ((p ≡ claiming) ⊎ ((i : ℕ) × (p ≡ searching i))) ⊎ ((s : Status) × (p ≡ stopped s))
      phase_cases claiming = inl (inl refl)
      phase_cases (searching i) = inl (inr (i, refl))
      phase_cases (stopped s) = inr (s, refl)

-- A run takes at most two steps for each picture and one for each rank, and where it can take no
-- further step all ranks have left the loop; the backend must answer for each picture of the
-- problem, with a match or with a failure that is not MSEARCH_OK.
pub Run-ends :
    (backend : Backend) (pictures : List Picture) (ranks : ℕ)
    → ((i : ℕ) (p : Picture)
        → get_elem? pictures i ≡ some p
        → ((m : Match) × backend p (done m))
          ⊎ ((s : Status) × (message : Message) × backend p (err s message) × (s ≢ ok)))
    → (started : ℕ → Status) (w : World) (run : Run backend pictures ranks started w)
    → (steps_of backend pictures ranks run ≤ length pictures * 2 + ranks)
      × (((status : ℕ → Status) × IsOver ranks w status)
          ⊎ ((v : World) × Step backend pictures ranks w v))
Run-ends backend pictures ranks answers started w run = (
  omega (arith, steps-potential backend pictures ranks run),
  elim (running_or_IsOver backend pictures ranks ranks w) [
    | inr over ↦ inl over
    | inl (r, lt, inl at) ↦ elim (dec_lt w.counter (length pictures)) [
      | yes few ↦ inr (_, claim r lt at few)
      | no full ↦ inr (_, exhausted r lt at (omega arith))
    ]
    | inl (r, lt, inr (i, at)) ↦
        let (p, here) =
          get_elem?-some pictures i ((Run-Inv backend pictures ranks started run).claimed r i at) in
        elim (answers i p here) [
          | inl (m, may) ↦ inr (_, searched r i p m lt at here may)
          | inr (s, message, may, bad) ↦ inr (_, failed r i p s message lt at here may bad)
        ]
  ],
)
