-- ===== src/Verify.antt =====
-- `run_verify` (src/cli/main.c): every available backend against the serial one.
pub mod Verdict
use mpi_local_lab.Base.{
  ℕ, zero, suc, ◌+◌, ◌≡◌, ◌≢◌, ◌==◌, Bool, true, false, ◌&&◌, List, [], ◌∷◌, some, length, ltb,
  if◌then◌else◌,
}
use mpi_local_lab.Base.Int.{eqb_ℤ}
use mpi_local_lab.Config.{Config}
use mpi_local_lab.Floating.{Floating}
use mpi_local_lab.Types.{
  Status, ok, err_nomem, err_backend, Problem, Match, Message, cannot_allocate_buffers,
  backends_disagreed, Result, done, err,
}
use mpi_local_lab.Options.Flags.{same}
use mpi_local_lab.Registry.{MatchBackend, serial_name, backend_find, RunLocal}

-- `memcmp` of two matches, which have no padding, is 0.
unfoldable pub same_match : Match → Match → Bool
same_match a b =
    eqb_ℤ a.picture_id b.picture_id
    && eqb_ℤ a.object_id b.object_id
    && eqb_ℤ a.row b.row
    && eqb_ℤ a.col b.col

-- Behind a successful run both buffers have an entry for each picture; an entry that only one of
-- the lists has counts as a mismatch.
unfoldable pub mismatches : (reference candidate : List Match) → ℕ
unfolding same_match
mismatches [] candidate = length candidate
mismatches (x ∷ xs) [] = suc (length xs)
mismatches (x ∷ xs) (y ∷ ys) =
    let rest = mismatches xs ys in if same_match x y then rest else suc rest

-- The loop over the backends that are left, with the number of failures.
pub data Checks {F : Floating} (problem : Problem F) (config : Config F) (reference : List Match)
    : List (MatchBackend F) → ℕ → Type 1 where
  all_checked : Checks problem config reference [] 0
  is_serial :
      {b : MatchBackend F} {bs : List (MatchBackend F)} {failures : ℕ}
      → same b.name serial_name ≡ true
      → Checks problem config reference bs failures
      → Checks problem config reference (b ∷ bs) failures
  skipped :
      {b : MatchBackend F} {bs : List (MatchBackend F)} {failures : ℕ}
      → same b.name serial_name ≡ false
      → b.available ≡ false
      → Checks problem config reference bs failures
      → Checks problem config reference (b ∷ bs) failures
  run_failed :
      {b : MatchBackend F} {bs : List (MatchBackend F)} {failures : ℕ} {candidate : List Match}
      {s : Status}
      → same b.name serial_name ≡ false
      → b.available ≡ true
      → RunLocal problem b config candidate s
      → s ≢ ok
      → Checks problem config reference bs failures
      → Checks problem config reference (b ∷ bs) (suc failures)
  compared :
      {b : MatchBackend F} {bs : List (MatchBackend F)} {failures : ℕ} {candidate : List Match}
      → same b.name serial_name ≡ false
      → b.available ≡ true
      → RunLocal problem b config candidate ok
      → Checks problem config reference bs failures
      → Checks problem config reference
          (b ∷ bs)
          (if mismatches reference candidate == 0 then failures else suc failures)

-- `run_verify` may return this.
pub data VerifyRun {F : Floating} (bs : List (MatchBackend F)) (problem : Problem F)
    (config : Config F) : Result (Unit {0}) → Type 1 where
  no_buffers : VerifyRun bs problem config (err err_nomem cannot_allocate_buffers)
  reference_failed :
      {b : MatchBackend F} {reference : List Match} {s : Status} (m : Message)
      → backend_find bs serial_name ≡ some b
      → RunLocal problem b config reference s
      → s ≢ ok
      → VerifyRun bs problem config (err s m)
  checked :
      {b : MatchBackend F} {reference : List Match} {failures : ℕ}
      → backend_find bs serial_name ≡ some b
      → RunLocal problem b config reference ok
      → Checks problem config reference bs failures
      → VerifyRun bs problem config
          (if ltb 0 failures then err err_backend (backends_disagreed failures) else done tt)
