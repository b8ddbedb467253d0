-- ===== src/Backends/Cuda/Least.antt =====
-- Every interleaving of a kernel's threads (src/backends/backend_cuda.cu) ends with the minimum.
use mathlib.Core.Path.{subst}
use mathlib.Core.Option.{some-injective}
use mpi_local_lab.Base.{
  ℕ, suc, ◌+◌, ◌*◌, ◌/◌, ◌%◌, ◌<◌, ◌≡◌, refl, sym, ◌∙◌, arith, Bool, true, false, inl, Option, none,
  some, update, ℕ_discrete, ◌≢◌, dec_lt, mul_mono,
}
use mpi_local_lab.Base.Int.{ℤ, pos, ◌≤ℤ◌}
use mpi_local_lab.Base.Machine.{int_max}
use mpi_local_lab.Canonical.Placement.{IsLeast}
use mpi_local_lab.Backends.OpenMp.{no_placement}
use mpi_local_lab.Backends.Minimum.{lower, KeyOrNone, lower-le, lower-KeyOrNone, KeyOrNone-IsLeast}
use mpi_local_lab.Backends.Cuda.{
  Thread, launched, at_key, scoring, storing, returned, Kernel, launch, move, KernelStep, leave,
  enter, past_end, hopeless, look, missed, below, atomic_min, KernelRun, begun, stepped, IsReturned,
}

-- A key is of one of the threads.
key_of_thread :
    (key stride : ℕ)
    → 0 < stride
    → (key % stride < stride) × (key / stride * stride + key % stride ≡ key)
key_of_thread key stride some_threads = grind arith

update_self {ℓ} : {A : Type ℓ} (f : ℕ → A) (i : ℕ) (a : A) → update f i a i ≡ a
update_self f i a = ground arith

update_ne {ℓ} : {A : Type ℓ} (f : ℕ → A) (i : ℕ) (a : A) (j : ℕ) → i ≢ j → update f i a j ≡ f j
update_ne f i a j ne = ground (arith, ne)

module _ (test : ℕ → Option Bool) (placements stride : ℕ) (hit : ℕ → Bool) where
  -- Thread `t` has seen to its keys below `bound`.
  Past : (best : ℤ) (t bound : ℕ) → Type 0
  Past best t bound =
      (j : ℕ)
      → j * stride + t < bound
      → j * stride + t < placements
      → hit (j * stride + t) ≡ true
      → best ≤ℤ pos (j * stride + t)

  -- It stands at `key`, its `i`th.
  record Reached (best : ℤ) (t key : ℕ) : Type 0 where
    rounds : ℕ
    key_is : key ≡ rounds * stride + t
    past : Past best t key

  -- What holds of a thread at each place.
  Place : (earlier : Bool) → (best : ℤ) → (t : ℕ) → Thread → Type 0
  Place earlier best t launched = Unit {0}
  Place earlier best t (at_key key) = Reached best t key
  Place earlier best t (scoring key) = Reached best t key × (key < placements)
  Place earlier best t (storing key) = Reached best t key × (key < placements) × (hit key ≡ true)
  Place earlier best t returned = earlier ≡ false → Past best t placements

  record Inv (earlier : Bool) (s : Kernel) : Type 0 where
    key_or_none : KeyOrNone placements hit s.best
    placed : (t : ℕ) → Place earlier s.best t (s.thread t)

  -- A lower `best` keeps what a thread has seen to.
  Past-le : (a b : ℤ) (t bound : ℕ) → b ≤ℤ a → Past a t bound → Past b t bound
  unfolding Past
  Past-le a b t bound le h j lt below_end is_hit =
      let more = h j lt below_end is_hit in omega (arith, le, more)

  Reached-le : (a b : ℤ) (t key : ℕ) → b ≤ℤ a → Reached a t key → Reached b t key
  Reached-le a b t key le r = record {
    rounds = r.rounds;
    key_is = r.key_is;
    past = Past-le a b t key le r.past;
  }

  Place-le :
      (earlier : Bool) (a b : ℤ) (t : ℕ) (place : Thread)
      → b ≤ℤ a
      → Place earlier a t place
      → Place earlier b t place
  unfolding Place
  Place-le earlier a b t launched le h = tt
  Place-le earlier a b t (at_key key) le h = Reached-le a b t key le h
  Place-le earlier a b t (scoring key) le h = (Reached-le a b t key le h.0, h.1)
  Place-le earlier a b t (storing key) le (r, inside, is_hit) =
      (Reached-le a b t key le r, inside, is_hit)
  Place-le earlier a b t returned le h = λ e. Past-le a b t placements le (h e)

  update-Place :
      (earlier : Bool) (a b : ℤ) (f : ℕ → Thread) (t : ℕ) (place : Thread)
      → b ≤ℤ a
      → ((q : ℕ) → Place earlier a q (f q))
      → Place earlier b t place
      → (q : ℕ) → Place earlier b q (update f t place q)
  update-Place earlier a b f t place le all here q = elim (ℕ_discrete t q) [
    | yes e ↦
        subst (λ r. Place earlier b r (update f t place r)) e
          (subst (Place earlier b t) (sym (update_self f t place)) here)
    | no ne ↦
        subst (Place earlier b q) (sym (update_ne f t place q ne))
          (Place-le earlier a b q (f q) le (all q))
  ]

  earlier_round :
      (j i t key : ℕ)
      → j ≢ i
      → key ≡ i * stride + t
      → j * stride + t < key + stride
      → 0 < stride
      → j * stride + t < key
  earlier_round j i t key ne is lt some_threads = elim (dec_lt j i) [
    | yes before ↦ let more = mul_mono (suc j) i stride before in omega (arith, is, more, lt)
    | no later ↦
        let more = mul_mono (suc i) j stride (omega (arith, ne, later)) in
        absurd (omega (arith, is, more, lt))
  ]

  -- Behind the round for `key`, if it left `best` low enough.
  Reached-next :
      (best : ℤ) (t key : ℕ)
      → 0 < stride
      → Reached best t key
      → (hit key ≡ true → best ≤ℤ pos key)
      → Reached best t (key + stride)
  unfolding Past
  Reached-next best t key some_threads r low = record {
    rounds = suc r.rounds;
    key_is = grind (arith, r.key_is);
    past = λ j lt below_end is_hit. elim (ℕ_discrete j r.rounds) [
      | yes e ↦
          let same : j * stride + t ≡ key = cc (e, r.key_is) in rw same (low (rw same at is_hit))
      | no ne ↦
          r.past j (earlier_round j r.rounds t key ne r.key_is lt some_threads) below_end is_hit
    ];
  }

  module _ (total : (key : ℕ) → key < placements → test key ≡ some (hit key))
      (few : placements < int_max) (some_threads : 0 < stride) where
    launch-Inv : (earlier : Bool) → Inv earlier launch
    unfolding Place
    launch-Inv earlier = record { key_or_none = (int_max, refl, inl refl); placed = λ t. tt }

    -- A move that leaves `best` as it is.
    move-Inv :
        {earlier : Bool} {s : Kernel} (t : ℕ) (place : Thread)
        → Inv earlier s
        → Place earlier s.best t place
        → Inv earlier (move s t place)
    move-Inv {earlier} {s} t place inv here = record {
      key_or_none = inv.key_or_none;
      placed = update-Place earlier s.best s.best s.thread t place (omega arith) inv.placed here;
    }

    at :
        {earlier : Bool} {s : Kernel} (t : ℕ) {place : Thread}
        → Inv earlier s
        → s.thread t ≡ place
        → Place earlier s.best t place
    at {earlier} {s} t inv e = subst (Place earlier s.best t) e (inv.placed t)

    Step-Inv :
        {earlier : Bool} {s u : Kernel}
        → KernelStep test placements stride earlier s u
        → Inv earlier s
        → Inv earlier u
    unfolding Place Past lower
    Step-Inv (leave t lt e yes_earlier) inv =
        move-Inv t returned inv (λ none_earlier. absurd (cc (yes_earlier, none_earlier)))
    Step-Inv (enter t lt e none_earlier) inv = move-Inv t (at_key t) inv (record {
      rounds = 0;
      key_is = omega arith;
      past = λ j below_t. absurd (omega (arith, below_t));
    })
    Step-Inv (past_end t key lt e over) inv =
        move-Inv t returned inv
          (λ _ j below_end. (at t inv e).past j (omega (arith, over, below_end)))
    Step-Inv {s = s} (hopeless t key lt e inside low) inv =
        move-Inv t returned inv (λ _ j below_end inside' is_hit.
          elim (dec_lt (j * stride + t) key) [
            | yes before ↦ (at t inv e).past j before inside' is_hit
            | no later ↦ ground (arith, low, later)
          ])
    Step-Inv (look t key lt e inside high) inv = move-Inv t (scoring key) inv (at t inv e, inside)
    Step-Inv {s = s} (missed t key lt e test_is) inv =
        let (reached, inside) = at t inv e in
        move-Inv t (at_key (key + stride)) inv (
          Reached-next s.best t key some_threads reached
            (λ h. absurd (cc (h, test_is, total key inside))))
    Step-Inv (below t key lt e test_is) inv =
        let (reached, inside) = at t inv e in
        move-Inv t (storing key) inv
          (reached, inside, some-injective _ _ (sym (total key inside) ∙ test_is))
    Step-Inv {s = s} (atomic_min t key lt e) inv =
        let (reached, inside, is_hit) = at t inv e in
        let (le_best, le_key) = lower-le placements hit few key s.best inside inv.key_or_none in
        record {
          key_or_none = lower-KeyOrNone placements hit few key s.best inside is_hit inv.key_or_none;
          placed =
              update-Place _ s.best (lower key s.best) s.thread t (at_key (key + stride)) le_best
                inv.placed
                (Reached-next (lower key s.best) t key some_threads
                  (Reached-le s.best (lower key s.best) t key le_best reached) (λ h. le_key));
        }

    Run-Inv :
        {earlier : Bool} {n : ℕ} {s : Kernel}
        → KernelRun test placements stride earlier n s
        → Inv earlier s
    Run-Inv {earlier} begun = launch-Inv earlier
    Run-Inv (stepped r st) = Step-Inv st (Run-Inv r)

    -- However the threads interleave: when they have all returned, `*best` is the lowest key that
    -- matches, or `MSEARCH_NO_PLACEMENT` if none does; where no lower object has matched.
    pub KernelRun-IsLeast :
        {n : ℕ} {s : Kernel}
        → KernelRun test placements stride false n s
        → IsReturned stride s
        → (found : Option ℕ) × IsLeast hit 0 placements found
          × (s.best ≡ elim found [ none ↦ no_placement | some k ↦ pos k ])
    unfolding Place Past
    KernelRun-IsLeast {s} r over =
        let inv = Run-Inv r in
        KeyOrNone-IsLeast placements hit few s.best inv.key_or_none (λ key lt h.
          let (small, whole) = key_of_thread key stride some_threads in
          let past =
            at (key % stride) inv (over (key % stride) small) refl (key / stride) (rw whole lt)
              (rw whole lt) (rw whole h) in
          rw whole at past)
