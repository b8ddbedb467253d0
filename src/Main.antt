-- ===== src/Main.antt =====
-- `main` (src/cli/main.c), in a build without MPI.
pub mod Written
use mpi_local_lab.Base.{
  ℕ, zero, suc, ◌≡◌, ◌≢◌, Bool, true, false, ◌&&◌, List, Option, none, some, if◌then◌else◌,
}
use mpi_local_lab.Base.Int.{ℤ, pos, pos_part, ltb_ℤ}
use mpi_local_lab.Config.{Text, Config, EarlyAction, early_none}
use mpi_local_lab.Floating.{Floating}
use mpi_local_lab.Types.{Status, ok, Problem, Match, Message, Result, done, err}
use mpi_local_lab.Reader.Number.{Converted}
use mpi_local_lab.Reader.Stream.{Allocator, read_problem}
use mpi_local_lab.Options.{Parsed, config_defaults, config_parse, auto_name}
use mpi_local_lab.Options.Flags.{same}
use mpi_local_lab.Registry.{MatchBackend, backend_find, backend_auto, RunLocal}
use mpi_local_lab.Verify.{VerifyRun}
use mpi_local_lab.Writer.{Output, write_results}

-- How the process ends: the exit code, with what has been written to the output, or the code that
-- `abort_all` is given.
pub data Outcome : Type 0 where
  exited : (code : ℤ) → (written : Option Text) → Outcome
  aborted : (code : ℤ) → Outcome

unfoldable pub backend_known : {F : Floating} → List (MatchBackend F) → Text → Bool
unfolding backend_find
backend_known bs name = elim (backend_find bs name) [ none ↦ false | some b ↦ true ]

-- The backend that the configuration names; `none` is NULL.
unfoldable pub selected :
    {F : Floating} → List (MatchBackend F) → (name : Text) → Option (MatchBackend F)
unfolding backend_find backend_auto same
selected bs name = if same name auto_name then some (backend_auto bs) else backend_find bs name

-- `compute_node_topology`
abbrev pub on_node : {F : Floating} → Config F → Config F
on_node config = record config { node_rank = pos 0; node_ranks = pos 1 }

-- The repetitions: every run writes all of `matches` again.
pub data Repeat {F : Floating} (problem : Problem F) (backend : MatchBackend F) (config : Config F)
    : (reps : ℕ) → List Match → Status → Type 0 where
  rep_failed :
      {k : ℕ} {matches : List Match} {s : Status}
      → RunLocal problem backend config matches s
      → s ≢ ok
      → Repeat problem backend config (suc k) matches s
  last_rep :
      {matches : List Match}
      → RunLocal problem backend config matches ok
      → Repeat problem backend config 1 matches ok
  another_rep :
      {k : ℕ} {earlier matches : List Match} {s : Status}
      → RunLocal problem backend config earlier ok
      → Repeat problem backend config (suc k) matches s
      → Repeat problem backend config (suc (suc k)) matches s

abbrev pub reps_of : {F : Floating} → Config F → ℕ
reps_of config = if ltb_ℤ (pos 0) config.bench_reps then pos_part config.bench_reps else 1

-- What the process meets: the value of `MSEARCH_DEFAULT_ZERO_EPS`, `strtod`, the allocator, the
-- files (`none` for one that cannot be opened), the output, and the backends of the build.
pub record Process (F : Floating) : Type 1 where
  pub default_zero_eps : F.Double
  pub strtod : Text → Converted F.Double
  pub alloc : Allocator
  pub files : Text → Option (List ℕ)
  pub output : Output
  pub calloc_matches : Bool
  pub malloc_samples : Bool
  pub built : List (MatchBackend F)

module _ {F : Floating} (process : Process F) (args : List Text) where
  -- What `msearch_config_parse` makes of the command line.
  abbrev pub command_line : Option (Parsed F)
  command_line =
      config_parse process.strtod (backend_known process.built)
        (config_defaults F process.default_zero_eps) args

  -- The options are those of a run, and so is the configuration.
  pub record Configured (config : Config F) : Type 0 where
    pub parsed : Parsed F
    pub parses : command_line ≡ some parsed
    pub success : parsed.result ≡ done tt
    pub no_action : parsed.action ≡ early_none
    pub config_is : config ≡ on_node parsed.config

  -- The input has been read.
  pub record Loaded (config : Config F) (problem : Problem F) : Type 0 where
    pub configured : Configured config
    pub reads :
        read_problem process.strtod process.alloc (process.files config.input_path)
        ≡ some (problem, done tt)

  -- A backend has been chosen for a search.
  pub record Chosen (config : Config F) (problem : Problem F) (backend : MatchBackend F)
      : Type 1 where
    pub loaded : Loaded config problem
    pub searching : config.verify ≡ false
    pub selects : selected process.built config.backend_name ≡ some backend

  -- And its search has succeeded.
  pub record Searched (config : Config F) (problem : Problem F) (backend : MatchBackend F)
      (matches : List Match) : Type 1 where
    pub chosen : Chosen config problem backend
    pub usable : backend.available ≡ true
    pub repeats : Repeat problem backend config (reps_of config) matches ok

  -- `main` may end like this.
  pub data MainRun : Outcome → Type 1 where
    bad_command_line :
        {parsed : Parsed F} {s : Status} {m : Message}
        → command_line ≡ some parsed
        → parsed.result ≡ err s m
        → MainRun (exited (pos 2) none)
    early :
        {parsed : Parsed F}
        → command_line ≡ some parsed
        → parsed.result ≡ done tt
        → parsed.action ≢ early_none
        → MainRun (exited (pos 0) none)
    unreadable :
        {config : Config F} {problem : Problem F} {s : Status} {m : Message}
        → Configured config
        → read_problem process.strtod process.alloc (process.files config.input_path)
          ≡ some (problem, err s m)
        → MainRun (aborted (pos 2))
    verified :
        {config : Config F} {problem : Problem F}
        → Loaded config problem
        → config.verify ≡ true
        → VerifyRun process.built problem config (done tt)
        → MainRun (exited (pos 0) none)
    disagreed :
        {config : Config F} {problem : Problem F} {s : Status} {m : Message}
        → Loaded config problem
        → config.verify ≡ true
        → VerifyRun process.built problem config (err s m)
        → MainRun (exited (pos 1) none)
    unusable :
        {config : Config F} {problem : Problem F} {backend : MatchBackend F}
        → Chosen config problem backend
        → backend.available ≡ false
        → MainRun (aborted (pos 4))
    no_memory :
        {config : Config F} {problem : Problem F} {backend : MatchBackend F}
        → Chosen config problem backend
        → backend.available ≡ true
        → (process.calloc_matches && process.malloc_samples) ≡ false
        → MainRun (aborted (pos 5))
    search_failed :
        {config : Config F} {problem : Problem F} {backend : MatchBackend F} {matches : List Match}
        {s : Status}
        → Chosen config problem backend
        → backend.available ≡ true
        → (process.calloc_matches && process.malloc_samples) ≡ true
        → Repeat problem backend config (reps_of config) matches s
        → s ≢ ok
        → MainRun (aborted (pos 6))
    wrote :
        {config : Config F} {problem : Problem F} {backend : MatchBackend F} {matches : List Match}
        {text : Text}
        → Searched config problem backend matches
        → (process.calloc_matches && process.malloc_samples) ≡ true
        → write_results process.output config.output_path matches ≡ (text, done tt)
        → MainRun (exited (pos 0) (some text))
    not_written :
        {config : Config F} {problem : Problem F} {backend : MatchBackend F} {matches : List Match}
        {text : Text} {s : Status} {m : Message}
        → Searched config problem backend matches
        → (process.calloc_matches && process.malloc_samples) ≡ true
        → write_results process.output config.output_path matches ≡ (text, err s m)
        → MainRun (exited (pos 1) (some text))
