-- ===== src/Tests/Exchanges.antt =====
-- A ping of examples/ping-pong/main.c, and the property of the exchange there.
use mpi_local_lab.Base.{◌*◌, ◌≤◌, ◌≡◌, refl, arith, true, false, ◌⊎◌, some}
use mpi_local_lab.Base.Int.{pos, ◌-ℤ◌, ◌≤ℤ◌}
use mpi_local_lab.Base.Machine.{to_int}
use mpi_local_lab.Reader.{is_space}
use mpi_local_lab.Reader.Number.{strtol, digits}
use mpi_local_lab.Options.{skip_blanks}
use mpi_local_lab.Writer.{codes}
use mpi_local_lab.Examples.PingPong.{
  count_of, sent, received, Exchange, begin, Step, ping_met, begun, next, parse_positive,
}
use mpi_local_lab.Examples.PingPong.Progress.{IsOver, Run-goes_on}

parse_positive_runs :
    (parse_positive (some (codes "12")) (pos 1000) ≡ pos 12)
    × (parse_positive (some (codes "12x")) (pos 1000) ≡ pos 1000)
    × (parse_positive (some (codes "-5")) (pos 1000) ≡ pos 1000)
unfolding parse_positive skip_blanks is_space strtol digits ◌-ℤ◌
parse_positive_runs = (refl, refl, refl)

-- Two rounds of three bytes.
abbrev pinged : Exchange
pinged = record (begin 2 3) {
  has_sent = true;
  has_received = true;
  buffer1 = received (sent 3 (begin 2 3).buffer0) (begin 2 3).buffer1;
}

three_fits : pos 0 ≤ℤ count_of 3
unfolding count_of to_int
three_fits = omega arith

Run-goes_on_example : (1 ≤ 4 * 2) × (IsOver 3 pinged ⊎ ((t : Exchange) × Step false 3 pinged t))
unfolding pinged
Run-goes_on_example =
    Run-goes_on false 2 3 1 pinged three_fits
      (next begun (ping_met three_fits 1 1 refl refl refl refl refl))
