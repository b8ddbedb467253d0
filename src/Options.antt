-- ===== src/Options.antt =====
-- src/cli/options.c: the command line.
pub mod Flags
pub mod Accepted
use mpi_local_lab.Base.{
  ℕ, zero, suc, ◌<◌, Bool, true, false, not, ◌&&◌, ◌||◌, List, [], ◌∷◌, Option, none, some,
  if◌then◌else◌, length,
}
use mpi_local_lab.Base.Int.{ℤ, pos, negsuc, ltb_ℤ, leb_ℤ}
use mpi_local_lab.Floating.{Floating, fzero}
use mpi_local_lab.Types.{
  Status, err_invalid, Message, requires_value, unknown_backend, unknown_option, integer_expected,
  positive_expected, Result, done, err,
}
use mpi_local_lab.Config.{
  Text, Config, LogLevel, log_error, log_info, log_debug, EarlyAction, early_none, early_help,
  early_version, early_list_backends,
}
use mpi_local_lab.Reader.{is_space}
use mpi_local_lab.Reader.Number.{Converted, strtol, is_empty}
use mpi_local_lab.Options.Flags.{
  same, Flag, flag_of, help_flag, version_flag, list_backends_flag, input_flag, output_flag,
  backend_flag, threads_flag, device_flag, bench_flag, zero_eps_flag, verify_flag, quiet_flag,
  verbose_flag, unknown, positional,
}

abbrev pub auto_name : Text
auto_name = 97 ∷ 117 ∷ 116 ∷ 111 ∷ []

-- `msearch_config_defaults`; `MSEARCH_DEFAULT_ZERO_EPS` is a double, and so a parameter.
unfoldable pub config_defaults : (F : Floating) → (default_zero_eps : F.Double) → Config F
config_defaults F default_zero_eps = record {
  input_path = 105 ∷ 110 ∷ 112 ∷ 117 ∷ 116 ∷ 46 ∷ 116 ∷ 120 ∷ 116 ∷ [];
  output_path = 111 ∷ 117 ∷ 116 ∷ 112 ∷ 117 ∷ 116 ∷ 46 ∷ 116 ∷ 120 ∷ 116 ∷ [];
  backend_name = auto_name;
  threads = pos 0;
  device = negsuc 0;
  node_rank = pos 0;
  node_ranks = pos 1;
  zero_eps = default_zero_eps;
  bench_reps = pos 0;
  verify = false;
  log_level = log_info;
}

-- `strtol` passes over blanks in front.
unfoldable pub skip_blanks : Text → Text
unfolding is_space
skip_blanks [] = []
skip_blanks (c ∷ cs) = let rest = skip_blanks cs in if is_space c then rest else c ∷ cs

unfoldable pub parse_int_arg : (text flag : Text) → (min_value : ℤ) → Result ℤ
unfolding skip_blanks strtol
parse_int_arg text flag min_value =
    let number = strtol (skip_blanks text) in
    if not number.converted
      || not (is_empty number.rest)
      || number.out_of_range
      || ltb_ℤ number.value min_value
      || ltb_ℤ (pos 1000000) number.value
    then err err_invalid (integer_expected flag min_value text)
    else done number.value

-- What `msearch_config_parse` leaves: the configuration, `*action`, and what it returns.
pub record Parsed (F : Floating) : Type 0 where
  pub config : Config F
  pub action : EarlyAction
  pub result : Result (Unit {0})

-- How a round of the loop ends: with a return, or with the arguments that are left.
pub data Round (F : Floating) : Type 0 where
  stop : Parsed F → Round F
  next : (left : List Text) → Config F → (verbosity : ℤ) → Round F

-- Behind the loop.
unfoldable pub finish : {F : Floating} → Config F → (verbosity : ℤ) → Parsed F
finish config verbosity =
    let level =
      if ltb_ℤ verbosity (pos 0)
      then log_error
      else if leb_ℤ verbosity (pos 1) && leb_ℤ (pos 1) verbosity
      then log_info
      else if leb_ℤ (pos 2) verbosity
      then log_debug
      else config.log_level in
    record { config = record config { log_level = level }; action = early_none; result = done tt }

-- `backend_known` is whether `msearch_backend_find` finds a backend of that name.
module _ {F : Floating} (strtod : Text → Converted F.Double) (backend_known : Text → Bool) where
  unfoldable pub fail : Config F → Message → Round F
  fail config message =
      stop (record { config = config; action = early_none; result = err err_invalid message })

  abbrev pub early : Config F → EarlyAction → Round F
  early config action = stop (record { config = config; action = action; result = done tt })

  -- `take_value`, with what is done with the value.
  unfoldable pub with_value :
      (flag : Text) → List Text → Config F → (Text → List Text → Round F) → Round F
  unfolding fail
  with_value flag [] config use_value = fail config (requires_value flag)
  with_value flag (value ∷ left) config use_value = use_value value left

  -- An integer option: `set_value` assigns to its field.
  unfoldable pub int_option :
      (flag : Text) → List Text → Config F → (verbosity min_value : ℤ) → (ℤ → Config F) → Round F
  unfolding fail parse_int_arg with_value
  int_option flag left config verbosity min_value set_value =
      with_value flag left config (λ value left'. elim (parse_int_arg value flag min_value) [
        | err s e ↦ fail config e
        | done number ↦ next left' (set_value number) verbosity
      ])

  unfoldable pub backend_option : (flag : Text) → List Text → Config F → (verbosity : ℤ) → Round F
  unfolding fail with_value same
  backend_option flag left config verbosity = with_value flag left config (λ value left'.
      if not (same value auto_name) && not (backend_known value)
      then fail config (unknown_backend value)
      else next left' (record config { backend_name = value }) verbosity)

  unfoldable pub zero_eps_option : (flag : Text) → List Text → Config F → (verbosity : ℤ) → Round F
  unfolding fail with_value
  zero_eps_option flag left config verbosity = with_value flag left config (λ value left'.
      let number = strtod value in
      let config' = record config { zero_eps = number.value } in
      if not number.converted || not (is_empty number.rest) || not (F.lt (fzero F) number.value)
      then fail config' (positive_expected value)
      else next left' config' verbosity)

  -- One round of the loop, at an argument that is a `flag`.
  unfoldable pub round_of : Flag → (arg : Text) → List Text → Config F → (verbosity : ℤ) → Round F
  unfolding fail with_value int_option backend_option zero_eps_option
  round_of flag arg left config verbosity = elim flag [
    | help_flag ↦ early config early_help
    | version_flag ↦ early config early_version
    | list_backends_flag ↦ early config early_list_backends
    | input_flag ↦
        with_value arg left config
          (λ value left'. next left' (record config { input_path = value }) verbosity)
    | output_flag ↦
        with_value arg left config
          (λ value left'. next left' (record config { output_path = value }) verbosity)
    | backend_flag ↦ backend_option arg left config verbosity
    | threads_flag ↦
        int_option arg left config verbosity (pos 1) (λ v. record config { threads = v })
    | device_flag ↦ int_option arg left config verbosity (pos 0) (λ v. record config { device = v })
    | bench_flag ↦
        int_option arg left config verbosity (pos 1) (λ v. record config { bench_reps = v })
    | zero_eps_flag ↦ zero_eps_option arg left config verbosity
    | verify_flag ↦ next left (record config { verify = true }) verbosity
    | quiet_flag ↦ next left config (negsuc 0)
    | verbose_flag ↦ next left config (if ltb_ℤ verbosity (pos 1) then pos 1 else pos 2)
    | unknown ↦ fail config (unknown_option arg)
    | positional ↦ next left (record config { input_path = arg }) verbosity
  ]

  unfoldable pub round : (arg : Text) → List Text → Config F → (verbosity : ℤ) → Round F
  unfolding round_of flag_of
  round arg left config verbosity = round_of (flag_of arg) arg left config verbosity

  -- The loop, on fuel: a round takes at least one argument.
  unfoldable pub parse_from :
      (fuel : ℕ) → List Text → Config F → (verbosity : ℤ) → Option (Parsed F)
  unfolding round finish
  parse_from fuel [] config verbosity = some (finish config verbosity)
  parse_from zero (arg ∷ left) config verbosity = none
  parse_from (suc k) (arg ∷ left) config verbosity = elim (round arg left config verbosity) [
    | stop parsed ↦ some parsed
    | next left' config' verbosity' ↦ parse_from k left' config' verbosity'
  ]

  -- `args` are those behind the name of the program.
  unfoldable pub config_parse : Config F → (args : List Text) → Option (Parsed F)
  unfolding parse_from
  config_parse config args = parse_from (length args) args config (pos 0)
