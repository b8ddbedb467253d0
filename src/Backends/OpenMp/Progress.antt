-- ===== src/Backends/OpenMp/Progress.antt =====
-- The parallel loop (src/backends/backend_openmp.c) ends: every step brings the end nearer, and
-- until then some thread can take one.
use mpi_local_lab.Base.{
  ℕ, zero, suc, ◌+◌, ◌*◌, ◌≤◌, ◌<◌, ◌≡◌, ◌≢◌, refl, ap, ◌∙◌, arith, Bool, ◌⊎◌, inl, inr, Option,
  some, Bool-cases,
}
use mpi_local_lab.Backends.Work.{work, work-update, work-const, unfinished}
use mpi_local_lab.Base.Int.{pos, leb_ℤ}
use mpi_local_lab.Backends.OpenMp.{
  Phase, pending, snapped, entering, finished, Loop, start, Step, read, skip, miss, matched,
  critical, Run, begin, later, IsFinished,
}

-- The steps that an iteration has left at most.
abbrev weight : Phase → ℕ
weight pending = 3
weight (snapped _) = 2
weight entering = 1
weight finished = 0

finished-cases : (p : Phase) → (p ≡ finished) ⊎ (p ≢ finished)
finished-cases pending = inr (λ e. cc)
finished-cases (snapped x) = inr (λ e. cc)
finished-cases entering = inr (λ e. cc)
finished-cases finished = inl refl

module _ (test : ℕ → Option Bool) (placements : ℕ) where
  -- Only iterations of the loop's range are ever under way.
  InRange : Loop → Type 0
  InRange s = (key : ℕ) → s.phase key ≢ pending → key < placements

  Step-InRange : {s t : Loop} → Step test placements s t → InRange s → InRange t
  unfolding InRange
  Step-InRange (read key lt e) inv = λ j ne. ground (arith, inv j)
  Step-InRange (skip key x e ge) inv = λ j ne. ground (arith, inv j, inv key)
  Step-InRange (miss key x e ge m) inv = λ j ne. ground (arith, inv j, inv key)
  Step-InRange (matched key x e ge m) inv = λ j ne. ground (arith, inv j, inv key)
  Step-InRange (critical key e) inv = λ j ne. ground (arith, inv j, inv key)

  Step-work :
      {s t : Loop}
      → Step test placements s t
      → InRange s
      → suc (work weight placements t.phase) ≤ work weight placements s.phase
  unfolding InRange
  Step-work {s} (read key lt e) inv =
      ground (arith, work-update weight placements s.phase key (snapped s.best) lt)
  Step-work {s} (skip key x e ge) inv =
      ground (arith, work-update weight placements s.phase key finished, inv key)
  Step-work {s} (miss key x e ge m) inv =
      ground (arith, work-update weight placements s.phase key finished, inv key)
  Step-work {s} (matched key x e ge m) inv =
      ground (arith, work-update weight placements s.phase key entering, inv key)
  Step-work {s} (critical key e) inv =
      ground (arith, work-update weight placements s.phase key finished, inv key)

  Run-InRange : {n : ℕ} {s : Loop} → Run test placements n s → InRange s
  unfolding InRange
  Run-InRange begin = λ key ne. absurd (ne refl)
  Run-InRange (later r st) = Step-InRange st (Run-InRange r)

  Run-work :
      {n : ℕ} {s : Loop}
      → Run test placements n s
      → n + work weight placements s.phase ≤ 3 * placements
  Run-work begin = omega (arith, work-const weight placements pending)
  Run-work (later r st) = omega (arith, Run-work r, Step-work st (Run-InRange r))

  -- However its iterations interleave, the loop takes at most three steps for each key.
  pub Run-bound : {n : ℕ} {s : Loop} → Run test placements n s → n ≤ 3 * placements
  Run-bound r = omega (arith, Run-work r)

  module _ (hit : ℕ → Bool) (total : (key : ℕ) → key < placements → test key ≡ some (hit key)) where
    advance :
        (s : Loop) (key : ℕ) (phase : Phase)
        → key < placements
        → s.phase key ≡ phase
        → phase ≢ finished
        → (t : Loop) × Step test placements s t
    advance s key pending lt e ne = (_, read key lt e)
    advance s key (snapped x) lt e ne = elim (Bool-cases (leb_ℤ x (pos key))) [
      | inl over ↦ (_, skip key x e over)
      | inr under ↦ elim (Bool-cases (hit key)) [
        | inl h ↦ (_, matched key x e under (total key lt ∙ ap some h))
        | inr h ↦ (_, miss key x e under (total key lt ∙ ap some h))
      ]
    ]
    advance s key entering lt e ne = (_, critical key e)
    advance s key finished lt e ne = absurd (ne refl)

    -- No thread waits for ever: from every state that is not the end there is a step.
    progress : (s : Loop) → IsFinished placements s ⊎ ((t : Loop) × Step test placements s t)
    progress s = elim (unfinished finished finished-cases s.phase placements) [
      | inl over ↦ inl over
      | inr (key, lt, ne) ↦ inr (advance s key (s.phase key) lt refl ne)
    ]

    finish :
        (fuel n : ℕ) (s : Loop)
        → Run test placements n s
        → work weight placements s.phase < fuel
        → (k : ℕ) × (t : Loop) × Run test placements k t × IsFinished placements t
    finish zero n s r lt = absurd (omega arith)
    finish (suc fuel) n s r lt = elim (progress s) [
      | inl over ↦ (n, s, r, over)
      | inr (t, st) ↦
          finish fuel (n + 1) t (later r st) (omega (arith, Step-work st (Run-InRange r)))
    ]

    -- The loop can always be run to its end.
    pub Run-ends : (k : ℕ) × (t : Loop) × Run test placements k t × IsFinished placements t
    Run-ends = finish (suc (work weight placements start.phase)) 0 start begin (omega arith)
