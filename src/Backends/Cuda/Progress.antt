-- ===== src/Backends/Cuda/Progress.antt =====
-- A kernel (src/backends/backend_cuda.cu) ends: every step of a thread brings the end nearer, and
-- until then some thread can take one.
use mathlib.Core.Path.{subst}
use mpi_local_lab.Base.{
  ℕ, zero, suc, ◌+◌, ◌-◌, ◌*◌, ◌≤◌, ◌<◌, ◌≡◌, ◌≢◌, refl, ap, ◌∙◌, arith, Bool, ◌⊎◌, inl, inr,
  Option, some, Bool-cases, dec_lt, ℕ_discrete, update,
}
use mpi_local_lab.Base.Int.{pos, leb_ℤ}
use mpi_local_lab.Backends.Work.{work, work-update, work-const, unfinished}
use mpi_local_lab.Backends.Cuda.{
  Thread, launched, at_key, scoring, storing, returned, Kernel, launch, KernelStep, leave, enter,
  past_end, hopeless, look, missed, below, atomic_min, KernelRun, begun, stepped, IsReturned,
}

returned-cases : (p : Thread) → (p ≡ returned) ⊎ (p ≢ returned)
returned-cases launched = inr (λ e. cc)
returned-cases (at_key key) = inr (λ e. cc)
returned-cases (scoring key) = inr (λ e. cc)
returned-cases (storing key) = inr (λ e. cc)
returned-cases returned = inl refl

module _ (test : ℕ → Option Bool) (placements stride : ℕ) (earlier : Bool) where
  -- The steps that a thread has left at most.
  abbrev weight : Thread → ℕ
  weight launched = 3 * placements + 2
  weight (at_key key) = 3 * (placements - key) + 1
  weight (scoring key) = 3 * (placements - key)
  weight (storing key) = 3 * (placements - key) - 1
  weight returned = 0

  -- Only keys of the loop's range are looked at.
  abbrev Inside : Thread → Type 0
  Inside launched = Unit
  Inside (at_key key) = Unit
  Inside (scoring key) = key < placements
  Inside (storing key) = key < placements
  Inside returned = Unit

  abbrev AllInside : Kernel → Type 0
  AllInside s = (t : ℕ) → Inside (s.thread t)

  update-Inside :
      (f : ℕ → Thread) (t : ℕ) (place : Thread)
      → ((q : ℕ) → Inside (f q))
      → Inside place
      → (q : ℕ) → Inside (update f t place q)
  update-Inside f t place all here q = elim (ℕ_discrete t q) [
    | yes e ↦ subst Inside (ground (arith, e)) here
    | no ne ↦ subst Inside (ground (arith, ne)) (all q)
  ]

  module _ (some_threads : 0 < stride) where
    Step-AllInside :
        {s u : Kernel} → KernelStep test placements stride earlier s u → AllInside s → AllInside u
    Step-AllInside {s} (leave t lt e _) all = update-Inside s.thread t returned all tt
    Step-AllInside {s} (enter t lt e _) all = update-Inside s.thread t (at_key t) all tt
    Step-AllInside {s} (past_end t key lt e _) all = update-Inside s.thread t returned all tt
    Step-AllInside {s} (hopeless t key lt e _ _) all = update-Inside s.thread t returned all tt
    Step-AllInside {s} (look t key lt e inside _) all =
        update-Inside s.thread t (scoring key) all inside
    Step-AllInside {s} (missed t key lt e _) all =
        update-Inside s.thread t (at_key (key + stride)) all tt
    Step-AllInside {s} (below t key lt e _) all =
        update-Inside s.thread t (storing key) all (subst Inside e (all t))
    Step-AllInside {s} (atomic_min t key lt e) all =
        update-Inside s.thread t (at_key (key + stride)) all tt

    less_work :
        (f : ℕ → Thread) (t : ℕ) (place : Thread)
        → t < stride
        → weight place < weight (f t)
        → suc (work weight stride (update f t place)) ≤ work weight stride f
    less_work f t place lt less =
        let sum = work-update weight stride f t place lt in omega (arith, sum, less)

    Step-work :
        {s u : Kernel}
        → KernelStep test placements stride earlier s u
        → AllInside s
        → suc (work weight stride u.thread) ≤ work weight stride s.thread
    Step-work {s} (leave t lt e _) all = less_work s.thread t returned lt (rw e (omega arith))
    Step-work {s} (enter t lt e _) all = less_work s.thread t (at_key t) lt (rw e (omega arith))
    Step-work {s} (past_end t key lt e _) all =
        less_work s.thread t returned lt (rw e (omega arith))
    Step-work {s} (hopeless t key lt e _ _) all =
        less_work s.thread t returned lt (rw e (omega arith))
    Step-work {s} (look t key lt e inside _) all =
        less_work s.thread t (scoring key) lt (rw e (omega arith))
    Step-work {s} (missed t key lt e _) all =
        let inside = subst Inside e (all t) in
        less_work s.thread t (at_key (key + stride)) lt (rw e (omega (arith, inside, some_threads)))
    Step-work {s} (below t key lt e _) all =
        let inside = subst Inside e (all t) in
        less_work s.thread t (storing key) lt (rw e (omega (arith, inside)))
    Step-work {s} (atomic_min t key lt e) all =
        let inside = subst Inside e (all t) in
        less_work s.thread t (at_key (key + stride)) lt (rw e (omega (arith, inside, some_threads)))

    Run-AllInside :
        {n : ℕ} {s : Kernel} → KernelRun test placements stride earlier n s → AllInside s
    Run-AllInside begun = λ t. tt
    Run-AllInside (stepped r st) = Step-AllInside st (Run-AllInside r)

    Run-work :
        {n : ℕ} {s : Kernel}
        → KernelRun test placements stride earlier n s
        → n + work weight stride s.thread ≤ stride * (3 * placements + 2)
    Run-work begun = omega (arith, work-const weight stride launched)
    Run-work (stepped r st) = omega (arith, Run-work r, Step-work st (Run-AllInside r))

    module _ (hit : ℕ → Bool)
        (total : (key : ℕ) → key < placements → test key ≡ some (hit key)) where
      advance :
          (s : Kernel) (t : ℕ) (place : Thread)
          → t < stride
          → Inside place
          → s.thread t ≡ place
          → place ≢ returned
          → (u : Kernel) × KernelStep test placements stride earlier s u
      advance s t launched lt inside e ne = elim (Bool-cases earlier) [
        | inl yes_earlier ↦ (_, leave t lt e yes_earlier)
        | inr none_earlier ↦ (_, enter t lt e none_earlier)
      ]
      advance s t (at_key key) lt inside e ne = elim (dec_lt key placements) [
        | no over ↦ (_, past_end t key lt e (omega (arith, over)))
        | yes more ↦ elim (Bool-cases (leb_ℤ s.best (pos key))) [
          | inl low ↦ (_, hopeless t key lt e more low)
          | inr high ↦ (_, look t key lt e more high)
        ]
      ]
      advance s t (scoring key) lt inside e ne = elim (Bool-cases (hit key)) [
        | inl h ↦ (_, below t key lt e (total key inside ∙ ap some h))
        | inr h ↦ (_, missed t key lt e (total key inside ∙ ap some h))
      ]
      advance s t (storing key) lt inside e ne = (_, atomic_min t key lt e)
      advance s t returned lt inside e ne = absurd (ne refl)

      -- However its threads interleave, a kernel ends: in a state that it has reached all threads
      -- have returned or some thread can take a step, and it takes no more than
      -- `3 * placements + 2` steps for each thread, where every key in range can be tested.
      pub KernelRun-goes_on :
          {n : ℕ} {s : Kernel}
          → KernelRun test placements stride earlier n s
          → (n ≤ stride * (3 * placements + 2))
            × (IsReturned stride s ⊎ ((u : Kernel) × KernelStep test placements stride earlier s u))
      KernelRun-goes_on {s = s} r = (
        omega (arith, Run-work r),
        elim (unfinished returned returned-cases s.thread stride) [
          | inl over ↦ inl over
          | inr (t, small, ne) ↦ inr (advance s t (s.thread t) small (Run-AllInside r t) refl ne)
        ],
      )

      finish :
          (fuel n : ℕ) (s : Kernel)
          → KernelRun test placements stride earlier n s
          → work weight stride s.thread < fuel
          → (k : ℕ) × (u : Kernel) × KernelRun test placements stride earlier k u
            × IsReturned stride u
      finish zero n s r lt = absurd (omega (arith, lt))
      finish (suc fuel) n s r lt = elim (KernelRun-goes_on r).1 [
        | inl over ↦ (n, s, r, over)
        | inr (u, st) ↦
            finish fuel (n + 1) u (stepped r st) (omega (arith, lt, Step-work st (Run-AllInside r)))
      ]

      -- A kernel can always be run to its end.
      pub KernelRun-ends :
          (k : ℕ) × (u : Kernel) × KernelRun test placements stride earlier k u
          × IsReturned stride u
      KernelRun-ends = finish (suc (work weight stride launch.thread)) 0 launch begun (omega arith)
