-- ===== src/Tests/Whole.antt =====
-- The program from its command line to its output, with the backends of two builds.
use mathlib.Core.Path.{subst}
use mathlib.Core.Option.{some-injective}
use mpi_local_lab.Base.{
  ◌*◌, ◌≤◌, ◌<◌, ◌^◌, ◌≡◌, refl, sym, ap, ◌∙◌, arith, true, false, ◌⊎◌, List, [], ◌∷◌, some, none,
  All,
}
use mpi_local_lab.Base.Int.{pos, pos_part, ◌≤ℤ◌, ltb_ℤ, ◌+ℤ◌, ◌-ℤ◌, ◌*ℤ◌}
use mpi_local_lab.Base.Machine.{size_t, to_int}
use mpi_local_lab.Config.{Text, Config, early_none}
use mpi_local_lab.Floating.{fzero}
use mpi_local_lab.Types.{ok, Problem, Match, Result, done}
use mpi_local_lab.Metric.{row_offset, term, add_row, score_rows, score_at}
use mpi_local_lab.Problem.{placement_count}
use mpi_local_lab.Problem.Validate.Valid.{IsValid}
use mpi_local_lab.Backends.{placement_score}
use mpi_local_lab.Backends.Serial.{search, create}
use mpi_local_lab.Backends.Serial
use mpi_local_lab.Backends.OpenMp.{resolve_thread_count}
use mpi_local_lab.Backends.OpenMp.Threads.{resolve_thread_count-shares}
use mpi_local_lab.Backends.Cuda.Packed.{sum_elems}
use mpi_local_lab.Runtime.Local.{none_left, searched}
use mpi_local_lab.Reader.Number.{strtol}
use mpi_local_lab.Options.{config_defaults, config_parse, parse_from, round, finish}
use mpi_local_lab.Options.Flags.{same, flag_of}
use mpi_local_lab.Writer.{codes}
use mpi_local_lab.Writer.Lines.{lines_of}
use mpi_local_lab.Registry.{
  MatchBackend, serial, serial_name, backends, backend_find, backend_auto, RunLocal, ran,
}
use mpi_local_lab.Registry.Choice.{
  IsFirstAvailable, backend_auto-IsFirstAvailable, backend_find-serial,
}
use mpi_local_lab.Verify.{VerifyRun, all_checked, is_serial, checked}
use mpi_local_lab.Verify.Verdict.{Agrees, HasFailed, VerifyRun-Agrees, VerifyRun-HasFailed}
use mpi_local_lab.Main.{
  exited, selected, backend_known, on_node, last_rep, Process, command_line, Configured, Loaded,
  MainRun, wrote,
}
use mpi_local_lab.Main.Written.{AllCanonical, MainRun-AllCanonical, Loaded-IsValid}
use mpi_local_lab.Tests.Fixed.{fixed, fixed-Ieee, scale, absolute, fixed_div}
use mpi_local_lab.Tests.Search.{eps_pos}
use mpi_local_lab.Tests.Program.{
  allocator, allocator-IsSizing, file, problem, found, output, line, read_runs, write_runs,
}

-- A build with the serial backend only.
abbrev built : List (MatchBackend fixed)
built = backends false false none

abbrev process : Process fixed
process = record {
  default_zero_eps = pos 1;
  strtod = strtol;
  alloc = allocator;
  files = λ path. some file;
  output = output;
  calloc_matches = true;
  malloc_samples = true;
  built = built;
}

abbrev arguments : List Text
arguments = codes "input" ∷ []

abbrev config : Config fixed
config = record (config_defaults fixed (pos 1)) { input_path = codes "input" }

parses :
    command_line process arguments
    ≡ some (record { config = config; action = early_none; result = done tt })
unfolding config_parse parse_from round finish flag_of same config_defaults backend_known
    backend_find
parses = refl

serial_runs :
    search
      (record { problem = problem; zero_eps = pos 1 })
      (record { id = pos 7; n = pos 1; elems = some (pos 3 ∷ []) })
    ≡ some found
unfolding search score_at score_rows add_row row_offset term placement_count placement_score to_int
    size_t scale absolute fixed_div ◌+ℤ◌ ◌-ℤ◌ ◌*ℤ◌
serial_runs = refl

serial_run : RunLocal problem serial (on_node config) (found ∷ []) ok
unfolding Serial.create config_defaults
serial_run = ran (true, refl) (searched serial_runs none_left)

configured : Configured process arguments (on_node config)
configured = record {
  parsed = record { config = config; action = early_none; result = done tt };
  parses = parses;
  success = refl;
  no_action = refl;
  config_is = refl;
}

loaded : Loaded process arguments (on_node config) problem
loaded = record { configured = configured; reads = read_runs }

selects : selected built (codes "auto") ≡ some serial
unfolding selected backends backend_auto same Serial.available
selects = refl

whole_run : MainRun process arguments (exited (pos 0) (some line))
unfolding config_defaults Serial.available
whole_run =
    wrote
      (record {
        chosen = record { loaded = loaded; searching = refl; selects = selects };
        usable = available_serial;
        repeats = last_rep serial_run;
      })
      refl write_runs
  where
    available_serial : Serial.available ≡ true
    available_serial = refl

problem_elems : sum_elems problem.objects < 2 ^ 62
unfolding sum_elems size_t
problem_elems = omega arith

few_elems :
    (c : Config fixed) (p : Problem fixed)
    → Loaded process arguments c p
    → sum_elems p.objects < 2 ^ 62
few_elems c p is_loaded =
    let same_end = some-injective _ _ (sym read_runs ∙ is_loaded.reads) in
    subst (λ (q : Problem fixed). sum_elems q.objects < 2 ^ 62) (ap (λ x. x.0) same_end)
      problem_elems

MainRun-AllCanonical_example :
    (c : Config fixed) × (p : Problem fixed) × (matches : List Match) × Loaded process arguments c p
    × IsValid p
    × AllCanonical p c.zero_eps p.pictures matches
    × (line ≡ lines_of matches)
MainRun-AllCanonical_example =
    MainRun-AllCanonical process arguments eps_pos allocator-IsSizing allocator-IsSizing fixed-Ieee
      false false none refl few_elems line whole_run

verify_run : VerifyRun built problem (on_node config) (done tt)
unfolding backends same
verify_run = checked (backend_find-serial false false none) serial_run (is_serial refl all_checked)

VerifyRun-Agrees_example :
    (b : MatchBackend fixed) × (matches : List Match) × (backend_find built serial_name ≡ some b)
    × RunLocal problem b (on_node config) matches ok
    × All (Agrees problem (on_node config) matches) built
VerifyRun-Agrees_example = VerifyRun-Agrees problem (on_node config) built (done tt) verify_run refl

problem-IsValid : IsValid problem
problem-IsValid =
    Loaded-IsValid process arguments eps_pos allocator-IsSizing allocator-IsSizing (on_node config)
      problem loaded

config_eps : fixed.lt (fzero fixed) (on_node config).zero_eps ≡ true
unfolding config_defaults scale
config_eps = refl

config_rank : pos 0 ≤ℤ (on_node config).node_rank
config_rank = omega arith

abbrev agreed : Result (Unit {0})
agreed = done tt

VerifyRun-HasFailed_example : (agreed ≡ done tt) ⊎ HasFailed problem (on_node config) verify_run
VerifyRun-HasFailed_example =
    VerifyRun-HasFailed problem (on_node config) fixed-Ieee config_eps problem-IsValid problem_elems
      config_rank false false none agreed verify_run

-- A machine without a visible device.
backend_auto-IsFirstAvailable_example :
    IsFirstAvailable
      (backends {F = fixed} true true (some (pos 0)))
      (backend_auto (backends true true (some (pos 0))))
backend_auto-IsFirstAvailable_example = backend_auto-IsFirstAvailable true true (some (pos 0))

-- Four ranks on sixteen cores.
resolve_thread_count-shares_example :
    (pos 1 ≤ℤ resolve_thread_count false (pos 16) (record config { node_ranks = pos 4 }))
    × (ltb_ℤ (pos 0) (record config { node_ranks = pos 4 }).threads ≡ false
        → false ≡ false
        → (pos_part (resolve_thread_count false (pos 16) (record config { node_ranks = pos 4 })) * 4
            ≤ 16)
          ⊎ (resolve_thread_count false (pos 16) (record config { node_ranks = pos 4 }) ≡ pos 1))
resolve_thread_count-shares_example =
    resolve_thread_count-shares false 16 (record config { node_ranks = pos 4 }) (omega arith)
