-- ===== src/Writer.antt =====
-- src/core/writer.c: the lines of the results.
pub mod Numbers
pub mod Lines
use Prim.Native.Char.{code}
use Prim.Native.String.{String}
use mpi_local_lab.Base.{
  ℕ, zero, suc, ◌+◌, ◌/◌, ◌%◌, Bool, true, false, not, ◌&&◌, List, [], ◌∷◌, ◌++◌, Option, none,
  some, ltb, if◌then◌else◌,
}
use mpi_local_lab.Base.Int.{ℤ, pos, negsuc}
use mpi_local_lab.Config.{Text}
use mpi_local_lab.Types.{
  Match, match_found, Status, err_io, Message, cannot_open_output, write_failed, close_failed,
  Result, done, err,
}
use mpi_local_lab.Options.Flags.{same}

abbrev pub codes : String → Text
codes String.[] = []
codes (String.◌∷◌ c s) = code c ∷ codes s

-- The decimal digits of a number, on fuel that is greater than it.
unfoldable pub print_nat : (fuel n : ℕ) → Text
print_nat zero n = []
print_nat (suc fuel) n =
    let rest = print_nat fuel (n / 10) in
    if ltb n 10 then (48 + n) ∷ [] else rest ++ ((48 + n % 10) ∷ [])

-- `%d`
unfoldable pub print_int : ℤ → Text
unfolding print_nat
print_int (pos n) = print_nat (suc n) n
print_int (negsuc n) = 45 ∷ print_nat (suc (suc n)) (suc n)

-- `msearch_format_match`.
unfoldable pub format_match : Match → Text
unfolding print_int match_found
format_match match =
    if match_found match
    then codes "Picture "
      ++ print_int match.picture_id
      ++ codes " found Object "
      ++ print_int match.object_id
      ++ codes " in Position("
      ++ print_int match.row
      ++ codes ","
      ++ print_int match.col
      ++ codes ")"
    else codes "Picture " ++ print_int match.picture_id ++ codes " No Objects were found"

-- Whether each of the `fprintf` succeeds.
unfoldable pub write_lines : (fprintf : ℕ → Bool) → (i : ℕ) → List Match → Text × Bool
unfolding format_match
write_lines fprintf i [] = ([], true)
write_lines fprintf i (match ∷ matches) =
    let (text, success) = write_lines fprintf (suc i) matches in
    if fprintf i then (format_match match ++ (10 ∷ text), success) else ([], false)

-- The answers of the C library to `msearch_write_results`. On stdout, which is neither flushed nor
-- closed here, what `fprintf` accepts counts as written.
pub record Output : Type 0 where
  pub fopen : Bool
  pub fprintf : ℕ → Bool
  pub fclose : Bool

-- `msearch_write_results`: what has been written, and what is returned.
unfoldable pub write_results : Output → (path : Text) → List Match → Text × Result (Unit {0})
unfolding same write_lines
write_results output path matches =
    let to_stdout = same path (codes "-") in
    let (text, success) = write_lines output.fprintf 0 matches in
    if not to_stdout && not output.fopen
    then ([], err err_io cannot_open_output)
    else if not success
    then (text, err err_io write_failed)
    else if not to_stdout && not output.fclose
    then (text, err err_io close_failed)
    else (text, done tt)
