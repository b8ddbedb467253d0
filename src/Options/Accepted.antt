-- ===== src/Options/Accepted.antt =====
-- src/cli/options.c: an accepted command line leaves a configuration in its bounds.
use mpi_local_lab.Base.{
  ℕ, zero, suc, ◌≤◌, ◌≡◌, refl, arith, ◌⊎◌, inl, inr, Bool, true, false, not, ◌||◌, List, [], ◌∷◌,
  Option, some, length, Bool-cases,
}
use mpi_local_lab.Base.Int.{ℤ, pos, negsuc, ltb_ℤ}
use mpi_local_lab.Floating.{Floating, fzero}
use mpi_local_lab.Types.{Result-cases, Message, err_invalid, done, err}
use mpi_local_lab.Config.{Text, Config}
use mpi_local_lab.Reader.Number.{Converted, is_empty}
use mpi_local_lab.Options.Flags.{same, flag_of, Flag}
use mpi_local_lab.Options.{
  auto_name, parse_int_arg, Parsed, Round, stop, next, finish, fail, with_value, int_option,
  backend_option, zero_eps_option, round_of, round, parse_from, config_parse,
}

-- No less than `low`, and at most a million.
abbrev pub Bounded : (low x : ℤ) → Type 0
Bounded low x = (ltb_ℤ x low ≡ false) × (ltb_ℤ (pos 1000000) x ≡ false)

module _ {F : Floating} (backend_known : Text → Bool) where
  pub record IsAccepted (config : Config F) : Type 0 where
    pub threads_bounded : Bounded (pos 0) config.threads
    pub device_bounded : Bounded (negsuc 0) config.device
    pub bench_bounded : Bounded (pos 0) config.bench_reps
    pub eps_pos : F.lt (fzero F) config.zero_eps ≡ true
    pub backend_found :
        (same config.backend_name auto_name ≡ true) ⊎ (backend_known config.backend_name ≡ true)

  -- What is returned is MSEARCH_OK with a configuration in its bounds, or MSEARCH_ERR_INVALID.
  abbrev pub Judged : Parsed F → Type 0
  Judged parsed =
      ((parsed.result ≡ done tt) × IsAccepted parsed.config)
      ⊎ ((message : Message) × (parsed.result ≡ err err_invalid message))

  abbrev RoundOk : List Text → Round F → Type 0
  RoundOk left (stop parsed) = Judged parsed
  RoundOk left (next left' config verbosity) = (length left' ≤ length left) × IsAccepted config

last_true : (a b c : Bool) → (not a || not b || not c) ≡ false → c ≡ true
last_true a b true e = refl
last_true true true false e = cc
last_true true false false e = cc
last_true false b false e = cc

from_one : (x : ℤ) → Bounded (pos 1) x → Bounded (pos 0) x
from_one x bounded = ground (arith, bounded.0, bounded.1)

from_zero : (x : ℤ) → Bounded (pos 0) x → Bounded (negsuc 0) x
from_zero x bounded = ground (arith, bounded.0, bounded.1)

RoundOk-wider :
    {F : Floating} (backend_known : Text → Bool) (value : Text) (left : List Text) (r : Round F)
    → RoundOk backend_known left r
    → RoundOk backend_known (value ∷ left) r
RoundOk-wider backend_known value left (stop parsed) h = h
RoundOk-wider backend_known value left (next left' config verbosity) h = (omega (arith, h.0), h.1)

parse_int_arg-Bounded :
    (text flag : Text) (min_value : ℤ) {v : ℤ}
    → parse_int_arg text flag min_value ≡ done v
    → Bounded min_value v
unfolding parse_int_arg
parse_int_arg-Bounded text flag min_value e = ground arith

module _ {F : Floating} (strtod : Text → Converted F.Double) (backend_known : Text → Bool) where
  with_value-RoundOk :
      (flag : Text) (left : List Text) (config : Config F) (use_value : Text → List Text → Round F)
      → ((value : Text) (left' : List Text) → RoundOk backend_known left' (use_value value left'))
      → RoundOk backend_known left (with_value strtod backend_known flag left config use_value)
  unfolding with_value fail
  with_value-RoundOk flag [] config use_value h = inr (_, refl)
  with_value-RoundOk flag (value ∷ left) config use_value h =
      RoundOk-wider backend_known value left (use_value value left) (h value left)

  int_option-RoundOk :
      (flag : Text) (left : List Text) (config : Config F) (verbosity min_value : ℤ)
      (set_value : ℤ → Config F)
      → ((v : ℤ) → Bounded min_value v → IsAccepted backend_known (set_value v))
      → RoundOk backend_known left
          (int_option strtod backend_known flag left config verbosity min_value set_value)
  unfolding int_option fail
  int_option-RoundOk flag left config verbosity min_value set_value h =
      with_value-RoundOk flag left config _ (λ value left'.
        elim (Result-cases (parse_int_arg value flag min_value)) [
          | inl (s, m, failed) ↦ rw failed (inr (m, refl))
          | inr (v, read) ↦
              rw read (omega arith, h v (parse_int_arg-Bounded value flag min_value read))
        ])

  backend_option-RoundOk :
      (flag : Text) (left : List Text) (config : Config F) (verbosity : ℤ)
      → IsAccepted backend_known config
      → RoundOk backend_known left (backend_option strtod backend_known flag left config verbosity)
  unfolding backend_option fail
  backend_option-RoundOk flag left config verbosity ok =
      with_value-RoundOk flag left config _ (λ value left'.
        elim (Bool-cases (same value auto_name)) [
          | inl auto ↦ rw auto (
            omega arith,
            record {
              threads_bounded = ok.threads_bounded;
              device_bounded = ok.device_bounded;
              bench_bounded = ok.bench_bounded;
              eps_pos = ok.eps_pos;
              backend_found = inl auto;
            },
          )
          | inr other ↦ elim (Bool-cases (backend_known value)) [
            | inl known ↦
                rw (other, known)
                  (
                    omega arith,
                    record {
                      threads_bounded = ok.threads_bounded;
                      device_bounded = ok.device_bounded;
                      bench_bounded = ok.bench_bounded;
                      eps_pos = ok.eps_pos;
                      backend_found = inr known;
                    },
                  )
            | inr absent ↦ rw (other, absent) (inr (_, refl))
          ]
        ])

  zero_eps_option-RoundOk :
      (flag : Text) (left : List Text) (config : Config F) (verbosity : ℤ)
      → IsAccepted backend_known config
      → RoundOk backend_known left (zero_eps_option strtod backend_known flag left config verbosity)
  unfolding zero_eps_option fail
  zero_eps_option-RoundOk flag left config verbosity ok =
      with_value-RoundOk flag left config _ (λ value left'.
        let number = strtod value in
        elim (Bool-cases (
          not number.converted
          || not (is_empty number.rest)
          || not (F.lt (fzero F) number.value))) [
            | inl bad ↦ rw bad (inr (_, refl))
            | inr good ↦ rw good (
              omega arith,
              record {
                threads_bounded = ok.threads_bounded;
                device_bounded = ok.device_bounded;
                bench_bounded = ok.bench_bounded;
                eps_pos = last_true _ _ _ good;
                backend_found = ok.backend_found;
              },
            )
          ])

  round-RoundOk :
      (arg : Text) (left : List Text) (config : Config F) (verbosity : ℤ)
      → IsAccepted backend_known config
      → RoundOk backend_known left (round strtod backend_known arg left config verbosity)
  unfolding round fail
  round-RoundOk arg left config verbosity ok =
      elim (flag_of arg)
        as (λ flag.
          RoundOk backend_known left
            (round_of strtod backend_known flag arg left config verbosity)) [
              | Flag.help_flag ↦ inl (refl, ok)
              | Flag.version_flag ↦ inl (refl, ok)
              | Flag.list_backends_flag ↦ inl (refl, ok)
              | Flag.input_flag ↦ with_value-RoundOk arg left config _ (λ value left'. (
                omega arith,
                record {
                  threads_bounded = ok.threads_bounded;
                  device_bounded = ok.device_bounded;
                  bench_bounded = ok.bench_bounded;
                  eps_pos = ok.eps_pos;
                  backend_found = ok.backend_found;
                },
              ))
              | Flag.output_flag ↦ with_value-RoundOk arg left config _ (λ value left'. (
                omega arith,
                record {
                  threads_bounded = ok.threads_bounded;
                  device_bounded = ok.device_bounded;
                  bench_bounded = ok.bench_bounded;
                  eps_pos = ok.eps_pos;
                  backend_found = ok.backend_found;
                },
              ))
              | Flag.backend_flag ↦ backend_option-RoundOk arg left config verbosity ok
              | Flag.threads_flag ↦
                  int_option-RoundOk arg left config verbosity (pos 1) _ (λ v bounded. record {
                    threads_bounded = from_one v bounded;
                    device_bounded = ok.device_bounded;
                    bench_bounded = ok.bench_bounded;
                    eps_pos = ok.eps_pos;
                    backend_found = ok.backend_found;
                  })
              | Flag.device_flag ↦
                  int_option-RoundOk arg left config verbosity (pos 0) _ (λ v bounded. record {
                    threads_bounded = ok.threads_bounded;
                    device_bounded = from_zero v bounded;
                    bench_bounded = ok.bench_bounded;
                    eps_pos = ok.eps_pos;
                    backend_found = ok.backend_found;
                  })
              | Flag.bench_flag ↦
                  int_option-RoundOk arg left config verbosity (pos 1) _ (λ v bounded. record {
                    threads_bounded = ok.threads_bounded;
                    device_bounded = ok.device_bounded;
                    bench_bounded = from_one v bounded;
                    eps_pos = ok.eps_pos;
                    backend_found = ok.backend_found;
                  })
              | Flag.zero_eps_flag ↦ zero_eps_option-RoundOk arg left config verbosity ok
              | Flag.verify_flag ↦ (
                omega arith,
                record {
                  threads_bounded = ok.threads_bounded;
                  device_bounded = ok.device_bounded;
                  bench_bounded = ok.bench_bounded;
                  eps_pos = ok.eps_pos;
                  backend_found = ok.backend_found;
                },
              )
              | Flag.quiet_flag ↦ (omega arith, ok)
              | Flag.verbose_flag ↦ (omega arith, ok)
              | Flag.unknown ↦ inr (_, refl)
              | Flag.positional ↦ (
                omega arith,
                record {
                  threads_bounded = ok.threads_bounded;
                  device_bounded = ok.device_bounded;
                  bench_bounded = ok.bench_bounded;
                  eps_pos = ok.eps_pos;
                  backend_found = ok.backend_found;
                },
              )
            ]

  parse_from-Judged :
      (fuel : ℕ) (args : List Text) (config : Config F) (verbosity : ℤ)
      → length args ≤ fuel
      → IsAccepted backend_known config
      → (parsed : Parsed F) × (parse_from strtod backend_known fuel args config verbosity
          ≡ some parsed)
        × Judged backend_known parsed
  unfolding parse_from finish
  parse_from-Judged fuel [] config verbosity enough ok = (
    _,
    refl,
    inl (
      refl,
      record {
        threads_bounded = ok.threads_bounded;
        device_bounded = ok.device_bounded;
        bench_bounded = ok.bench_bounded;
        eps_pos = ok.eps_pos;
        backend_found = ok.backend_found;
      },
    ),
  )
  parse_from-Judged zero (arg ∷ left) config verbosity enough ok = absurd (omega (arith, enough))
  parse_from-Judged (suc k) (arg ∷ left) config verbosity enough ok =
      elim (round strtod backend_known arg left config verbosity)
          as (λ r.
            RoundOk backend_known left r
            → (parsed : Parsed F) × (elim r as (λ x. Option (Parsed F)) [
              | stop p ↦ some p
              | next left' config' verbosity' ↦
                  parse_from strtod backend_known k left' config' verbosity'
            ]
                ≡ some parsed)
              × Judged backend_known parsed) [
                | stop p ↦ λ judged. (p, refl, judged)
                | next left' config' verbosity' ↦ λ h.
                    parse_from-Judged k left' config' verbosity' (omega (arith, enough, h.0)) h.1
              ]
        (round-RoundOk arg left config verbosity ok)

-- Reading a command line ends within a round for each argument: with MSEARCH_OK and a configuration
-- in its bounds (thread and repetition counts, device, a positive epsilon, a known backend), or
-- with MSEARCH_ERR_INVALID; the configuration before must be in these bounds.
pub config_parse-Judged :
    {F : Floating} (strtod : Text → Converted F.Double) (backend_known : Text → Bool)
    (config : Config F) (args : List Text)
    → IsAccepted backend_known config
    → (parsed : Parsed F) × (config_parse strtod backend_known config args ≡ some parsed)
      × Judged backend_known parsed
unfolding config_parse
config_parse-Judged strtod backend_known config args ok =
    parse_from-Judged strtod backend_known (length args) args config (pos 0) (omega arith) ok
