-- ===== src/Runtime/Local.antt =====
-- src/runtime/runner_local.c: one process searches every picture in order.
use mpi_local_lab.Base.{List, [], ◌∷◌}
use mpi_local_lab.Types.{Status, ok, Picture, Match, Message, done, err}
use mpi_local_lab.Runtime.{Backend}

-- The loop of `msearch_run_local`, over the pictures that are left: the entries of `matches` that
-- it fills, in order, and the status that it returns.
pub data Loop (backend : Backend) : List Picture → List Match → Status → Type 0 where
  none_left : Loop backend [] [] ok
  searched :
      {picture : Picture} {pictures : List Picture} {match : Match} {matches : List Match}
      {status : Status}
      → backend picture (done match)
      → Loop backend pictures matches status
      → Loop backend (picture ∷ pictures) (match ∷ matches) status
  failed :
      {picture : Picture} {pictures : List Picture} {status : Status} {message : Message}
      → backend picture (err status message)
      → Loop backend (picture ∷ pictures) [] status
