-- ===== src/Runtime/Gather.antt =====
-- `gather_records` and `msearch_run_mpi` (src/runtime/runner_mpi.c).
pub mod Placed
pub mod Complete
use mpi_local_lab.Base.{
  ℕ, zero, suc, ◌+◌, ◌*◌, ◌<◌, ◌≡◌, ◌==◌, Bool, true, false, not, ◌&&◌, ◌||◌, List, [], ◌∷◌, ◌++◌,
  Option, none, some, map, if◌then◌else◌, length, get_elem?, set, take,
}
use mpi_local_lab.Base.Int.{ℤ, pos, pos_part, ltb_ℤ, leb_ℤ}
use mpi_local_lab.Types.{
  Status, ok, err_nomem, err_backend, Picture, Match, match_none, Message, Result, done, err,
}
use mpi_local_lab.Runtime.{Backend}
use mpi_local_lab.Runtime.Collectives.{Collectives, displs_of}
use mpi_local_lab.Runtime.Claims.{Entry, World, Run, IsOver}

-- `RECORD_INTS`
abbrev pub record_ints : ℕ
record_ints = 4

-- The ints of the records, as they lie in the buffer that is sent.
unfoldable pub encode : List Entry → List ℤ
encode [] = []
encode (e ∷ es) = pos e.index ∷ e.object_id ∷ e.row ∷ e.col ∷ encode es

-- `problem->pictures[index]`, behind the test of the index.
unfoldable pub slot : List Picture → ℤ → Option Picture
slot pictures index =
    if ltb_ℤ index (pos 0) || leb_ℤ (pos (length pictures)) index
    then none
    else get_elem? pictures (pos_part index)

-- The loop over the gathered ints, four at a time.
unfoldable pub place : List Picture → List ℤ → List Match → Result (List Match)
unfolding slot
place pictures (index ∷ object_id ∷ row ∷ col ∷ rest) matches = elim (slot pictures index) [
  | none ↦ err err_backend (Message.index_out_of_range index)
  | some picture ↦ place pictures rest (
      set matches (pos_part index)
        (record { picture_id = picture.id; object_id = object_id; row = row; col = col }))
]
place pictures _ matches = done matches

abbrev pub status_of {ℓ} : {A : Type ℓ} → Result A → Status
status_of (done a) = ok
status_of (err s e) = s

abbrev pub is_ok : Status → Bool
is_ok ok = true
is_ok _ = false

-- The status of a rank behind `gather_records`, which can fail on rank 0 only.
unfoldable pub gathered_status : (gather_status : Status) (claimed : ℕ → Status) → ℕ → Status
gathered_status gather_status claimed r =
    if is_ok (claimed r) then (if r == 0 then gather_status else ok) else claimed r

module _ (mpi : Collectives ℤ) (ranks : ℕ) where
  -- `gather_records` on rank 0. The flag says whether its buffers could be allocated.
  unfoldable pub gather_records :
      (buffers : Bool) → List Picture → (records : ℕ → List Entry) → Result (List Match)
  unfolding place encode
  gather_records buffers pictures records =
      let counts = mpi.gather ranks (λ r. length (records r) * record_ints) in
      let displs = displs_of counts in
      let gathered = mpi.gatherv ranks (λ r. encode (records r)) counts displs in
      let total = displs_of counts ranks in
      if not buffers
      then err err_nomem Message.cannot_allocate_gather
      else place pictures (take total gathered) (map (λ (p : Picture). match_none p.id) pictures)

  -- What `msearch_run_mpi` returns on rank r, behind MPI_Allreduce.
  unfoldable pub final_status : (gather_status : Status) (claimed : ℕ → Status) → ℕ → Status
  unfolding gathered_status
  final_status gather_status claimed r =
      let status = gathered_status gather_status claimed in
      let any_failed = mpi.allreduce_max ranks (λ q. if is_ok (status q) then 0 else 1) in
      if not (any_failed == 0) && is_ok (status r) then err_backend else status r

  -- A run of `msearch_run_mpi` by more than one rank, with what each leaves behind. On rank 0 the
  -- buffers of `gather_records` could be allocated: a rank 0 that leaves in front of MPI_Gather
  -- lets the others wait there.
  pub record MpiRun (backend : Backend) (pictures : List Picture) : Type 0 where
    pub started : ℕ → Status
    pub world : World
    pub run : Run backend pictures ranks started world
    pub claimed : ℕ → Status
    pub over : IsOver ranks world claimed

  -- `matches` on rank 0.
  abbrev pub gathered :
      {backend : Backend} {pictures : List Picture} → MpiRun backend pictures → Result (List Match)
  gathered {pictures = pictures} m = gather_records true pictures m.world.records

  abbrev pub returned :
      {backend : Backend} {pictures : List Picture} → MpiRun backend pictures → ℕ → Status
  returned m = final_status (status_of (gathered m)) m.claimed
