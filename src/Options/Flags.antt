-- ===== src/Options/Flags.antt =====
-- src/cli/options.c: the names of the options.
use mpi_local_lab.Base.{◌==◌, Bool, true, false, ◌||◌, [], ◌∷◌, if◌then◌else◌}
use mpi_local_lab.Config.{Text}

-- `strcmp(a, b) == 0`
unfoldable pub same : Text → Text → Bool
same [] [] = true
same [] (y ∷ ys) = false
same (x ∷ xs) [] = false
same (x ∷ xs) (y ∷ ys) = let rest = same xs ys in if x == y then rest else false

-- What an argument is. An option that `msearch_config_parse` does not know is `unknown`, and what
-- is no option is the path of the input.
pub data Flag : Type 0 where
  help_flag : Flag
  version_flag : Flag
  list_backends_flag : Flag
  input_flag : Flag
  output_flag : Flag
  backend_flag : Flag
  threads_flag : Flag
  device_flag : Flag
  bench_flag : Flag
  zero_eps_flag : Flag
  verify_flag : Flag
  quiet_flag : Flag
  verbose_flag : Flag
  unknown : Flag
  positional : Flag

-- `arg[0] == '-' && arg[1] != '\0'`
abbrev pub is_dashed : Text → Bool
is_dashed [] = false
is_dashed (c ∷ []) = false
is_dashed (c ∷ d ∷ rest) = c == 45

unfoldable pub flag_of : Text → Flag
unfolding same
flag_of arg =
    if same arg (45 ∷ 104 ∷ []) || same arg (45 ∷ 45 ∷ 104 ∷ 101 ∷ 108 ∷ 112 ∷ [])  -- -h, --help
    then help_flag
    else if same arg (45 ∷ 86 ∷ [])
        || same arg (45 ∷ 45 ∷ 118 ∷ 101 ∷ 114 ∷ 115 ∷ 105 ∷ 111 ∷ 110 ∷ [])  -- -V, --version
    then version_flag
    else if same arg
        (45 ∷ 45 ∷ 108 ∷ 105 ∷ 115 ∷ 116 ∷ 45 ∷ 98 ∷ 97 ∷ 99 ∷ 107 ∷ 101 ∷ 110 ∷ 100 ∷ 115 ∷ [])  -- --list-backends
    then list_backends_flag
    else if same arg (45 ∷ 105 ∷ []) || same arg (45 ∷ 45 ∷ 105 ∷ 110 ∷ 112 ∷ 117 ∷ 116 ∷ [])  -- -i, --input
    then input_flag
    else if same arg (45 ∷ 111 ∷ []) || same arg (45 ∷ 45 ∷ 111 ∷ 117 ∷ 116 ∷ 112 ∷ 117 ∷ 116 ∷ [])  -- -o, --output
    then output_flag
    else if same arg (45 ∷ 98 ∷ [])
        || same arg (45 ∷ 45 ∷ 98 ∷ 97 ∷ 99 ∷ 107 ∷ 101 ∷ 110 ∷ 100 ∷ [])  -- -b, --backend
    then backend_flag
    else if same arg (45 ∷ 116 ∷ [])
        || same arg (45 ∷ 45 ∷ 116 ∷ 104 ∷ 114 ∷ 101 ∷ 97 ∷ 100 ∷ 115 ∷ [])  -- -t, --threads
    then threads_flag
    else if same arg (45 ∷ 100 ∷ []) || same arg (45 ∷ 45 ∷ 100 ∷ 101 ∷ 118 ∷ 105 ∷ 99 ∷ 101 ∷ [])  -- -d, --device
    then device_flag
    else if same arg (45 ∷ 45 ∷ 98 ∷ 101 ∷ 110 ∷ 99 ∷ 104 ∷ [])  -- --bench
    then bench_flag
    else if same arg (45 ∷ 45 ∷ 122 ∷ 101 ∷ 114 ∷ 111 ∷ 45 ∷ 101 ∷ 112 ∷ 115 ∷ [])  -- --zero-eps
    then zero_eps_flag
    else if same arg (45 ∷ 45 ∷ 118 ∷ 101 ∷ 114 ∷ 105 ∷ 102 ∷ 121 ∷ [])  -- --verify
    then verify_flag
    else if same arg (45 ∷ 113 ∷ []) || same arg (45 ∷ 45 ∷ 113 ∷ 117 ∷ 105 ∷ 101 ∷ 116 ∷ [])  -- -q, --quiet
    then quiet_flag
    else if same arg (45 ∷ 118 ∷ [])
        || same arg (45 ∷ 45 ∷ 118 ∷ 101 ∷ 114 ∷ 98 ∷ 111 ∷ 115 ∷ 101 ∷ [])  -- -v, --verbose
    then verbose_flag
    else if is_dashed arg
    then unknown
    else positional
