-- ===== src/Runtime/Claims/Invariant.antt =====
-- What holds of the claims (src/runtime/runner_mpi.c) in every interleaving of the ranks.
use mpi_local_lab.Base.{
  update, ℕ, zero, suc, ◌+◌, ◌≤◌, ◌<◌, ◌≡◌, ◌≢◌, refl, sym, arith, ◌⊎◌, inl, inr, List, [], ◌∷◌,
  ◌++◌, some, length, get_elem?, length-append, get_elem?-concat, get_elem?-append,
  get_elem?-concat-cases, dec_lt, ℕ_discrete,
}
use mathlib.Core.Path.{subst}
use mpi_local_lab.Types.{Status, ok, Picture, Match, done}
use mpi_local_lab.Runtime.{Backend}
use mpi_local_lab.Runtime.Claims.{
  Entry, Phase, claiming, searching, stopped, World, first_phase, open_world, entry_of, Step, claim,
  exhausted, searched, failed, Run, begin, later,
}

-- A picture that is claimed and not yet recorded.
abbrev pub in_hand : Phase → ℕ
in_hand (searching _) = 1
in_hand _ = 0

unfoldable pub sum : ℕ → (ℕ → ℕ) → ℕ
sum zero f = 0
sum (suc n) f = sum n f + f n

sum-same : (n : ℕ) (f g : ℕ → ℕ) → ((j : ℕ) → j < n → f j ≡ g j) → sum n f ≡ sum n g
unfolding sum
sum-same zero f g h = refl
sum-same (suc n) f g h =
    omega (arith, h n (omega arith), sum-same n f g (λ j lt. h j (omega arith)))

-- Two sums that differ at one place.
pub sum-change :
    (n : ℕ) (f g : ℕ → ℕ) (r : ℕ)
    → ((j : ℕ) → j ≢ r → f j ≡ g j)
    → r < n
    → sum n g + f r ≡ sum n f + g r
unfolding sum
sum-change zero f g r h lt = absurd (omega arith)
sum-change (suc n) f g r h lt = elim (ℕ_discrete r n) [
  | yes e ↦
      rw e (omega (arith, sum-same n f g (λ j below. h j (λ (q : j ≡ r). absurd (omega arith)))))
  | no ne ↦ omega (arith, sum-change n f g r h (omega arith), h n (λ q. ne (sym q)))
]

-- Of one rank: the records written and the picture in hand.
abbrev pub load : World → ℕ → ℕ
load w r = length (w.records r) + in_hand (w.phase r)

-- Over the ranks below n.
abbrev pub held : ℕ → World → ℕ
held n w = sum n (load w)

-- A rank's list of records after one more at its end.
appended_self :
    (f : ℕ → List Entry) (r : ℕ) (y : Entry) → update f r (f r ++ y ∷ []) r ≡ f r ++ y ∷ []
appended_self f r y = ground arith

appended-keep :
    (f : ℕ → List Entry) (r q : ℕ) (y : Entry) (j : ℕ) (e : Entry)
    → get_elem? (f q) j ≡ some e
    → get_elem? (update f r (f r ++ y ∷ []) q) j ≡ some e
appended-keep f r q y j e at = elim (ℕ_discrete r q) [
  | yes same ↦ rw (same, appended_self f q y) (get_elem?-append (f q) (y ∷ []) j at)
  | no ne ↦ ground (arith, ne)
]

appended-cases :
    (f : ℕ → List Entry) (r q : ℕ) (y : Entry) (j : ℕ) (e : Entry)
    → get_elem? (update f r (f r ++ y ∷ []) q) j ≡ some e
    → (get_elem? (f q) j ≡ some e) ⊎ (e ≡ y)
appended-cases f r q y j e at = elim (ℕ_discrete r q) [
  | yes same ↦ get_elem?-concat-cases (f q) y j (rw (same, appended_self f q y) at at)
  | no ne ↦ inl (ground (arith, ne))
]

-- A record says what the backend may return for the picture of its index.
abbrev pub IsTrue : Backend → List Picture → Entry → Type 0
IsTrue backend pictures e =
    (picture : Picture) × (match : Match) × (get_elem? pictures e.index ≡ some picture)
    × backend picture (done match)
    × (e ≡ entry_of e.index match)

module _ (backend : Backend) (pictures : List Picture) (ranks : ℕ) (started : ℕ → Status) where
  -- A picture that has been claimed is recorded, in hand, or lost with a rank that failed.
  abbrev pub Accounted : World → ℕ → Type 0
  Accounted w i =
      ((r : ℕ) × (j : ℕ) × (e : Entry) × (r < ranks)
        × (get_elem? (w.records r) j ≡ some e)
        × (e.index ≡ i))
      ⊎ ((r : ℕ) × (r < ranks) × (w.phase r ≡ searching i))
      ⊎ ((r : ℕ) × (status : Status) × (r < ranks) × (w.phase r ≡ stopped status) × (status ≢ ok))

  pub record Inv (w : World) : Type 0 where
    pub accounted : (i : ℕ) → i < w.counter → i < length pictures → Accounted w i
    pub claimed : (r i : ℕ) → w.phase r ≡ searching i → i < length pictures
    pub ended : (r : ℕ) → r < ranks → w.phase r ≡ stopped ok → length pictures ≤ w.counter
    pub true_records :
        (r j : ℕ) (e : Entry) → get_elem? (w.records r) j ≡ some e → IsTrue backend pictures e
    pub held-le-counter : held ranks w ≤ w.counter
    pub held-le-length : held ranks w ≤ length pictures

  first_phase-ne : (s : Status) (i : ℕ) → first_phase s ≢ searching i
  first_phase-ne s i e = ground arith

  first_phase-ended : (s : Status) → first_phase s ≢ stopped ok
  first_phase-ended s e = ground arith

  held-open : (n : ℕ) → held n (open_world started) ≡ 0
  unfolding sum
  held-open zero = refl
  held-open (suc n) = ground (arith, held-open n, started n)

  open-Inv : Inv (open_world started)
  open-Inv = record {
    accounted = λ i lt small. absurd (omega arith);
    claimed = λ r i e. absurd (first_phase-ne (started r) i e);
    ended = λ r lt e. absurd (first_phase-ended (started r) e);
    true_records = λ r j e at. cc;
    held-le-counter = omega (arith, held-open ranks);
    held-le-length = omega (arith, held-open ranks);
  }

  Accounted-keep :
      (v w : World) (i : ℕ)
      → ((r j : ℕ) (e : Entry)
          → get_elem? (v.records r) j ≡ some e
          → get_elem? (w.records r) j ≡ some e)
      → ((r : ℕ) → v.phase r ≡ searching i → w.phase r ≡ searching i)
      → ((r : ℕ) (status : Status) → v.phase r ≡ stopped status → w.phase r ≡ stopped status)
      → Accounted v i
      → Accounted w i
  Accounted-keep v w i grow keep stay (inl (r, j, e, lt, at, is)) =
      inl (r, j, e, lt, grow r j e at, is)
  Accounted-keep v w i grow keep stay (inr (inl (r, lt, e))) = inr (inl (r, lt, keep r e))
  Accounted-keep v w i grow keep stay (inr (inr (r, status, lt, e, bad))) =
      inr (inr (r, status, lt, stay r status e, bad))

  module _ (w : World) (inv : Inv w) where
    open inv use {accounted, claimed, ended, true_records, held-le-counter, held-le-length}

    claim-Inv :
        (r : ℕ)
        → r < ranks
        → w.phase r ≡ claiming
        → w.counter < length pictures
        → Inv (record w { counter = w.counter + 1; phase = update w.phase r (searching w.counter) })
    claim-Inv r lt at small =
        let w' = record w {
          counter = w.counter + 1;
          phase = update w.phase r (searching w.counter);
        } in
        let sums = sum-change ranks (load w) (load w') r (λ j ne. ground (arith, ne)) lt in
        record {
          accounted = λ i below few. elim (dec_lt i w.counter) [
            | yes old ↦
                Accounted-keep w w' i (λ q j e g. g) (λ q e. ground arith) (λ q s e. ground arith)
                  (accounted i old few)
            | no new ↦ inr (inl (r, lt, ground arith))
          ];
          claimed = λ q i e. ground (arith, claimed q i);
          ended = λ q below e. ground (arith, ended q below);
          true_records = true_records;
          held-le-counter = ground (arith, held-le-counter, sums);
          held-le-length = ground (arith, held-le-counter, sums);
        }

    exhausted-Inv :
        (r : ℕ)
        → r < ranks
        → w.phase r ≡ claiming
        → length pictures ≤ w.counter
        → Inv (record w { counter = w.counter + 1; phase = update w.phase r (stopped ok) })
    exhausted-Inv r lt at full =
        let w' = record w { counter = w.counter + 1; phase = update w.phase r (stopped ok) } in
        let sums = sum-change ranks (load w) (load w') r (λ j ne. ground (arith, ne)) lt in
        record {
          accounted = λ i below few.
              Accounted-keep w w' i (λ q j e g. g) (λ q e. ground arith) (λ q s e. ground arith)
                (accounted i (omega arith) few);
          claimed = λ q i e. ground (arith, claimed q i);
          ended = λ q below e. ground (arith, ended q below);
          true_records = true_records;
          held-le-counter = ground (arith, held-le-counter, sums);
          held-le-length = ground (arith, held-le-length, sums);
        }

    searched-Inv :
        (r index : ℕ) (picture : Picture) (match : Match)
        → r < ranks
        → w.phase r ≡ searching index
        → get_elem? pictures index ≡ some picture
        → backend picture (done match)
        → Inv (record w {
          phase = update w.phase r claiming;
          records = update w.records r (w.records r ++ entry_of index match ∷ []);
        })
    searched-Inv r index picture match lt at is_picture found =
        let w' = record w {
          phase = update w.phase r claiming;
          records = update w.records r (w.records r ++ entry_of index match ∷ []);
        } in
        let sums = sum-change ranks (load w) (load w') r (λ j ne. ground (arith, ne)) lt in
        let grown = length-append (w.records r) (entry_of index match ∷ []) in
        record {
          accounted = λ i below few. elim (ℕ_discrete i index) [
            | yes e ↦ inl (
              r,
              length (w.records r),
              entry_of index match,
              lt,
              ground (arith, get_elem?-concat (w.records r) (entry_of index match)),
              sym e,
            )
            | no ne ↦
                Accounted-keep w w' i
                  (λ q j e. appended-keep w.records r q (entry_of index match) j e)
                  (λ q e. ground arith) (λ q s e. ground arith) (accounted i below few)
          ];
          claimed = λ q i e. ground (arith, claimed q i);
          ended = λ q below e. ground (arith, ended q below);
          true_records = λ q j e g.
              elim (appended-cases w.records r q (entry_of index match) j e g) [
                | inl old ↦ true_records q j e old
                | inr new ↦
                    subst (IsTrue backend pictures) (sym new)
                      (picture, match, is_picture, found, refl)
              ];
          held-le-counter = ground (arith, held-le-counter, sums, grown);
          held-le-length = ground (arith, held-le-length, sums, grown);
        }

    failed-Inv :
        (r index : ℕ) (status : Status)
        → r < ranks
        → w.phase r ≡ searching index
        → status ≢ ok
        → Inv (record w { phase = update w.phase r (stopped status) })
    failed-Inv r index status lt at bad =
        let w' = record w { phase = update w.phase r (stopped status) } in
        let sums = sum-change ranks (load w) (load w') r (λ j ne. ground (arith, ne)) lt in
        record {
          accounted = λ i below few. elim (ℕ_discrete i index) [
            | yes e ↦ inr (inr (r, status, lt, ground arith, bad))
            | no ne ↦
                Accounted-keep w w' i (λ q j e g. g) (λ q e. ground arith) (λ q s e. ground arith)
                  (accounted i below few)
          ];
          claimed = λ q i e. ground (arith, claimed q i);
          ended = λ q below e. ground (arith, ended q below);
          true_records = true_records;
          held-le-counter = ground (arith, held-le-counter, sums);
          held-le-length = ground (arith, held-le-length, sums);
        }

  Step-Inv : {v w : World} → Step backend pictures ranks v w → Inv v → Inv w
  Step-Inv {v} (claim r lt at small) inv = claim-Inv v inv r lt at small
  Step-Inv {v} (exhausted r lt at full) inv = exhausted-Inv v inv r lt at full
  Step-Inv {v} (searched r index picture match lt at is found) inv =
      searched-Inv v inv r index picture match lt at is found
  Step-Inv {v} (failed r index picture status message lt at is lost bad) inv =
      failed-Inv v inv r index status lt at bad

  pub Run-Inv : {w : World} → Run backend pictures ranks started w → Inv w
  Run-Inv begin = open-Inv
  Run-Inv (later r st) = Step-Inv st (Run-Inv r)
