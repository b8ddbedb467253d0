-- ===== src/Runtime/Gather/Complete.antt =====
-- `msearch_run_mpi` (src/runtime/runner_mpi.c): what rank 0 has where any rank reports success.
use mpi_local_lab.Base.{
  ℕ, zero, suc, ◌*◌, ◌<◌, ◌≡◌, ◌≢◌, refl, sym, ap, ◌∙◌, arith, inl, inr, true, List, some, map,
  length, get_elem?, get_elem?-lt, take-length, take, length-append, length-map, Bool-cases,
  ℕ_discrete, not, ◌&&◌, ◌==◌, if◌then◌else◌,
}
use mpi_local_lab.Base.Int.{ℤ}
use mpi_local_lab.Types.{
  Status, ok, err_io, err_parse, err_invalid, err_nomem, err_backend, err_unavailable, Picture,
  match_none, done,
}
use mpi_local_lab.Runtime.{Backend}
use mpi_local_lab.Runtime.Collectives.{Collectives, joined, displs_of}
use mpi_local_lab.Runtime.Claims.{Entry, stopped}
use mpi_local_lab.Runtime.Claims.Invariant.{IsTrue, Run-Inv}
use mpi_local_lab.Runtime.Gather.{
  record_ints, encode, place, gather_records, is_ok, status_of, gathered_status, final_status,
  MpiRun, gathered, returned,
}
use mpi_local_lab.Runtime.Gather.Placed.{
  IsAnswered, Listed, Placed, place-Placed, length-encode, joined-encode, Listed-joined, All-joined,
}

displs_of-joined :
    (n : ℕ) (counts : ℕ → ℕ) (sent : ℕ → List ℤ)
    → ((r : ℕ) → r < n → counts r ≡ length (sent r))
    → displs_of counts n ≡ length (joined n sent)
unfolding displs_of joined
displs_of-joined zero counts sent h = refl
displs_of-joined (suc n) counts sent h = omega (
  arith,
  displs_of-joined n counts sent (λ r lt. h r (omega arith)),
  h n (omega arith),
  length-append (joined n sent) (sent n),
)

is_ok-ok : (s : Status) → is_ok s ≡ true → s ≡ ok
is_ok-ok ok e = refl
is_ok-ok err_io e = cc
is_ok-ok err_parse e = cc
is_ok-ok err_invalid e = cc
is_ok-ok err_nomem e = cc
is_ok-ok err_backend e = cc
is_ok-ok err_unavailable e = cc

-- Past MPI_Allreduce a rank returns ok only where no rank reported a failure.
reduced_failed :
    (most : ℕ) (s : Status)
    → most ≢ 0
    → (if not (most == 0) && is_ok s then err_backend else s) ≢ ok
reduced_failed most s ne e = ground arith

pub reduced-ok :
    (most : ℕ) (s : Status)
    → (if not (most == 0) && is_ok s then err_backend else s) ≡ ok
    → most ≡ 0
reduced-ok most s e = elim (ℕ_discrete most 0) [
  | yes zero_most ↦ zero_most
  | no some_failed ↦ absurd (reduced_failed most s some_failed e)
]

module _ (mpi : Collectives ℤ) (ranks : ℕ) where
  -- The ints that rank 0 reads are those of all records, rank by rank.
  received :
      (records : ℕ → List Entry)
      → (let counts = mpi.gather ranks (λ r. length (records r) * record_ints) in
          take
            (displs_of counts ranks)
            (mpi.gatherv ranks (λ r. encode (records r)) counts (displs_of counts)))
        ≡ encode (joined ranks records)
  unfolding displs_of
  received records =
      let counts = mpi.gather ranks (λ r. length (records r) * record_ints) in
      let sent = λ (r : ℕ). encode (records r) in
      let counted : (r : ℕ) → r < ranks → counts r ≡ length (sent r) = λ r lt.
        mpi.gather_lem ranks (λ q. length (records q) * record_ints) r lt
        ∙ sym (length-encode (records r)) in
      rw (mpi.gatherv-packed ranks sent counts (displs_of counts) counted refl (λ r lt. refl)) (
        take-length (joined ranks sent) (displs_of counts ranks)
          (sym (displs_of-joined ranks counts sent counted))
        ∙ joined-encode ranks records)

  gather_records-run :
      (pictures : List Picture) (records : ℕ → List Entry)
      → gather_records mpi ranks true pictures records
        ≡ place pictures
            (encode (joined ranks records))
            (map (λ (p : Picture). match_none p.id) pictures)
  unfolding gather_records
  gather_records-run pictures records = rw (received records)

  -- One failure anywhere is a failure everywhere.
  pub final_status-ok :
      (gather_status : Status) (claimed : ℕ → Status) (r : ℕ)
      → r < ranks
      → final_status mpi ranks gather_status claimed r ≡ ok
      → (q : ℕ) → q < ranks
      → gathered_status gather_status claimed q ≡ ok
  unfolding final_status
  final_status-ok gather_status claimed r lt e q ltq =
      let status = gathered_status gather_status claimed in
      elim (Bool-cases (is_ok (status q))) [
        | inl good ↦ is_ok-ok (status q) good
        | inr bad ↦
            let flag : ℕ → ℕ = λ x. if is_ok (status x) then 0 else 1 in
            let most = reduced-ok (mpi.allreduce_max ranks flag) (status r) e in
            let raised = mpi.allreduce_max-le ranks flag q ltq in
            absurd (ground (arith, bad, most, raised))
      ]

  -- What rank 0 has at the end, whatever the statuses.
  pub placed :
      (backend : Backend) (pictures : List Picture) (m : MpiRun mpi ranks backend pictures)
      → Placed backend pictures
          (joined ranks m.world.records)
          (map (λ (p : Picture). match_none p.id) pictures)
  placed backend pictures m =
      place-Placed backend pictures (joined ranks m.world.records)
        (map (λ (p : Picture). match_none p.id) pictures)
        (All-joined (IsTrue backend pictures) ranks m.world.records
          (Run-Inv backend pictures ranks m.started m.run).true_records)
        (length-map pictures (λ (p : Picture). match_none p.id))

  pub gathered-done :
      (backend : Backend) (pictures : List Picture) (m : MpiRun mpi ranks backend pictures)
      → gathered mpi ranks m ≡ done (placed backend pictures m).out
  gathered-done backend pictures m =
      gather_records-run pictures m.world.records ∙ (placed backend pictures m).runs

  -- A rank that left the loop without a failure found the counter past every picture.
  all_recorded :
      (backend : Backend) (pictures : List Picture) (m : MpiRun mpi ranks backend pictures)
      → 0 < ranks
      → ((r : ℕ) → r < ranks → m.claimed r ≡ ok)
      → (i : ℕ) → i < length pictures
      → Listed (joined ranks m.world.records) i
  all_recorded backend pictures m some_rank good i lt =
      let inv = Run-Inv backend pictures ranks m.started m.run in
      let full = inv.ended 0 some_rank (m.over 0 some_rank ∙ ap stopped (good 0 some_rank)) in
      elim (inv.accounted i (omega (arith, full, lt)) lt) [
        | inl (r, j, e, below, at, is) ↦ Listed-joined ranks m.world.records r j i e below at is
        | inr (inl (r, below, busy)) ↦ absurd (ground (arith, busy, m.over r below))
        | inr (inr (r, status, below, left, bad)) ↦
            absurd (ground (arith, left, bad, m.over r below, good r below))
      ]

  claimed-ok :
      (gather_status : Status) (claimed : ℕ → Status) (r : ℕ)
      → gathered_status gather_status claimed r ≡ ok
      → claimed r ≡ ok
  unfolding gathered_status
  claimed-ok gather_status claimed r e = elim (Bool-cases (is_ok (claimed r))) [
    | inl good ↦ is_ok-ok (claimed r) good
    | inr bad ↦ absurd (ground (arith, bad, e))
  ]

  module _ (backend : Backend) (pictures : List Picture)
      (m : MpiRun mpi ranks backend pictures) where
    pub all_claimed-ok :
        (r : ℕ) → r < ranks → returned mpi ranks m r ≡ ok → (q : ℕ) → q < ranks → m.claimed q ≡ ok
    all_claimed-ok r lt e q below =
        claimed-ok (status_of (gathered mpi ranks m)) m.claimed q
          (final_status-ok (status_of (gathered mpi ranks m)) m.claimed r lt e q below)

    pub all-IsAnswered :
        (r : ℕ)
        → r < ranks
        → returned mpi ranks m r ≡ ok
        → (i : ℕ) (p : Picture) → get_elem? pictures i ≡ some p
        → IsAnswered backend pictures (placed backend pictures m).out i p
    all-IsAnswered r lt e i p at = (placed backend pictures m).answered i p at (
        inr (
          all_recorded backend pictures m (omega arith) (all_claimed-ok r lt e) i
            (get_elem?-lt pictures i at)))
