-- ===== src/Tests/CommandLine.antt =====
-- A command line that is read.
use mpi_local_lab.Base.{◌≡◌, refl, inl, Bool, List, [], ◌∷◌, some}
use mpi_local_lab.Base.Int.{pos}
use mpi_local_lab.Config.{Text, Config}
use mpi_local_lab.Reader.Number.{strtol}
use mpi_local_lab.Options.{config_defaults, Parsed, config_parse}
use mpi_local_lab.Options.Flags.{same}
use mpi_local_lab.Options.Accepted.{IsAccepted, Judged, config_parse-Judged}
use mpi_local_lab.Tests.Fixed.{fixed}
use mpi_local_lab.Tests.Search.{eps_pos}

abbrev defaults : Config fixed
defaults = config_defaults fixed (pos 1)

serial_only : Text → Bool
unfolding same
serial_only name = same name (115 ∷ 101 ∷ 114 ∷ 105 ∷ 97 ∷ 108 ∷ [])

defaults-IsAccepted : IsAccepted serial_only defaults
unfolding config_defaults same
defaults-IsAccepted = record {
  threads_bounded = (refl, refl);
  device_bounded = (refl, refl);
  bench_bounded = (refl, refl);
  eps_pos = eps_pos;
  backend_found = inl refl;
}

-- "-t", "4", "-q"
abbrev arguments : List Text
arguments = (45 ∷ 116 ∷ []) ∷ (52 ∷ []) ∷ (45 ∷ 113 ∷ []) ∷ []

config_parse-Judged_example :
    (parsed : Parsed fixed) × (config_parse strtol serial_only defaults arguments ≡ some parsed)
    × Judged serial_only parsed
config_parse-Judged_example =
    config_parse-Judged strtol serial_only defaults arguments defaults-IsAccepted
