-- ===== src/Runtime/Claims.antt =====
-- src/runtime/runner_mpi.c: the ranks claim pictures from a shared counter, in any interleaving.
pub mod Invariant
pub mod Progress
pub mod Buffers
use mpi_local_lab.Base.{
  update, ℕ, ◌+◌, ◌≤◌, ◌<◌, ◌≡◌, ◌≢◌, List, [], ◌∷◌, ◌++◌, Option, some, if◌then◌else◌, length,
  get_elem?,
}
use mpi_local_lab.Base.Int.{ℤ}
use mpi_local_lab.Types.{Status, ok, Picture, Match, Message, Result, done, err}
use mpi_local_lab.Runtime.{Backend}

-- `record`: the picture's index, and what was found.
pub record Entry : Type 0 where
  pub index : ℕ
  pub object_id : ℤ
  pub row : ℤ
  pub col : ℤ

-- Where a rank stands in `process_claimed_pictures`.
pub data Phase : Type 0 where
  claiming : Phase  -- in front of MPI_Fetch_and_op
  searching : (index : ℕ) → Phase
  stopped : (status : Status) → Phase

-- The counter that rank 0 hosts, and of each rank its place and the records it has written.
pub record World : Type 0 where
  pub counter : ℕ
  pub phase : ℕ → Phase
  pub records : ℕ → List Entry

-- A rank whose `create` or whose buffer failed claims nothing.
abbrev pub first_phase : Status → Phase
first_phase ok = claiming
first_phase s = stopped s

-- `msearch_run_mpi` behind the barrier; `started r` is the status of rank r there.
abbrev pub open_world : (started : ℕ → Status) → World
open_world started = record { counter = 0; phase = λ r. first_phase (started r); records = λ r. [] }

abbrev pub entry_of : ℕ → Match → Entry
entry_of index match = record {
  index = index;
  object_id = match.object_id;
  row = match.row;
  col = match.col;
}

-- One step of one rank. MPI_Fetch_and_op reads the counter and adds 1 in one atomic step.
pub data Step (backend : Backend) (pictures : List Picture) (ranks : ℕ) (w : World)
    : World → Type 0 where
  claim :
      (r : ℕ)
      → r < ranks
      → w.phase r ≡ claiming
      → w.counter < length pictures
      → Step backend pictures ranks w
          (record w { counter = w.counter + 1; phase = update w.phase r (searching w.counter) })
  exhausted :
      (r : ℕ)
      → r < ranks
      → w.phase r ≡ claiming
      → length pictures ≤ w.counter
      → Step backend pictures ranks w
          (record w { counter = w.counter + 1; phase = update w.phase r (stopped ok) })
  searched :
      (r index : ℕ) (picture : Picture) (match : Match)
      → r < ranks
      → w.phase r ≡ searching index
      → get_elem? pictures index ≡ some picture
      → backend picture (done match)
      → Step backend pictures ranks w (record w {
        phase = update w.phase r claiming;
        records = update w.records r (w.records r ++ entry_of index match ∷ []);
      })
  failed :
      (r index : ℕ) (picture : Picture) (status : Status) (message : Message)
      → r < ranks
      → w.phase r ≡ searching index
      → get_elem? pictures index ≡ some picture
      → backend picture (err status message)
      → status ≢ ok
      → Step backend pictures ranks w (record w { phase = update w.phase r (stopped status) })

pub data Run (backend : Backend) (pictures : List Picture) (ranks : ℕ) (started : ℕ → Status)
    : World → Type 0 where
  begin : Run backend pictures ranks started (open_world started)
  later :
      {v w : World}
      → Run backend pictures ranks started v
      → Step backend pictures ranks v w
      → Run backend pictures ranks started w

-- Every rank has left `process_claimed_pictures`, with the status `status r`.
abbrev pub IsOver : (ranks : ℕ) → World → (status : ℕ → Status) → Type 0
IsOver ranks w status = (r : ℕ) → r < ranks → w.phase r ≡ stopped (status r)
