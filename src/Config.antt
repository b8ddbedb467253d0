-- ===== src/Config.antt =====
-- include/msearch/config.h: the configuration of a run.
use mpi_local_lab.Base.{ℕ, Bool, List}
use mpi_local_lab.Base.Int.{ℤ}
use mpi_local_lab.Floating.{Floating}

-- A C string: its bytes, without the terminating 0.
abbrev pub Text : Type 0
Text = List ℕ

pub data LogLevel : Type 0 where
  log_error log_warn log_info log_debug : LogLevel

pub record Config (F : Floating) : Type 0 where
  pub input_path : Text
  pub output_path : Text
  pub backend_name : Text
  pub threads : ℤ
  pub device : ℤ
  pub node_rank : ℤ
  pub node_ranks : ℤ
  pub zero_eps : F.Double
  pub bench_reps : ℤ
  pub verify : Bool
  pub log_level : LogLevel

pub data EarlyAction : Type 0 where
  early_none early_help early_version early_list_backends : EarlyAction
