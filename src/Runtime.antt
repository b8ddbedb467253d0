-- ===== src/Runtime.antt =====
-- src/runtime: which process searches which picture.
pub mod Local
pub mod Collectives
pub mod Claims
pub mod Gather
pub mod Agreement
pub mod Broadcast
use mpi_local_lab.Types.{Picture, Match, Result}

-- A backend with its context: what its `search` may return for a picture. A backend that does not
-- depend on a schedule may return one thing only.
abbrev pub Backend : Type 1
Backend = Picture → Result Match → Type 0
