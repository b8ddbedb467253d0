-- ===== src/Writer/Lines.antt =====
-- src/core/writer.c: a line fits its buffer, and the lines are in the order of the matches.
use mpi_local_lab.Base.{
  ℕ, suc, ◌+◌, ◌≤◌, ◌<◌, ◌≡◌, refl, arith, Bool, true, not, ◌&&◌, inl, inr, List, [], ◌∷◌, ◌++◌,
  length, length-append, Bool-cases,
}
use mpi_local_lab.Base.Int.{ℤ, pos, negsuc}
use mpi_local_lab.Config.{Text}
use mpi_local_lab.Types.{Match, match_found, done}
use mpi_local_lab.Options.Flags.{same}
use mpi_local_lab.Writer.{codes, print_int, format_match, write_lines, write_results, Output}
use mpi_local_lab.Writer.Numbers.{IsInt, length-print_nat}

length-print_int : (x : ℤ) → IsInt x → length (print_int x) ≤ 11
unfolding print_int
length-print_int (pos n) small =
    let le = length-print_nat (suc n) n 9 (omega arith) (omega (arith, small)) in omega (arith, le)
length-print_int (negsuc k) small =
    let le = length-print_nat (suc (suc k)) (suc k) 9 (omega arith) (omega (arith, small)) in
    omega (arith, le)

le_refl : (n : ℕ) → n ≤ n
le_refl n = omega arith

append-le : (xs ys : Text) {m n : ℕ} → length xs ≤ m → length ys ≤ n → length (xs ++ ys) ≤ m + n
append-le xs ys lx ly = let len = length-append xs ys in omega (arith, len, lx, ly)

-- The fields of a match are ints.
pub record IsPrintable (match : Match) : Type 0 where
  pub picture_int : IsInt match.picture_id
  pub object_int : IsInt match.object_id
  pub row_int : IsInt match.row
  pub col_int : IsInt match.col

-- A line and its terminating 0 fit the buffer of 128 bytes, so that `snprintf` cuts nothing off.
pub format_match-fits : (match : Match) → IsPrintable match → length (format_match match) < 128
unfolding format_match
format_match-fits match h =
    let a = print_int match.picture_id in
    let b = print_int match.object_id in
    let c = print_int match.row in
    let d = print_int match.col in
    let t0 = codes "Picture " ++ a in
    let t1 = t0 ++ codes " found Object " in
    let t2 = t1 ++ b in
    let t3 = t2 ++ codes " in Position(" in
    let t4 = t3 ++ c in
    let t5 = t4 ++ codes "," in
    let picture =
      append-le (codes "Picture ") a (le_refl 8)
        (length-print_int match.picture_id h.picture_int) in
    elim (Bool-cases (match_found match)) [
      | inl found ↦
          let object =
            append-le t1 b (append-le t0 (codes " found Object ") picture (le_refl 14))
              (length-print_int match.object_id h.object_int) in
          let row =
            append-le t3 c (append-le t2 (codes " in Position(") object (le_refl 13))
              (length-print_int match.row h.row_int) in
          let col =
            append-le t5 d (append-le t4 (codes ",") row (le_refl 1))
              (length-print_int match.col h.col_int) in
          let line = append-le (t5 ++ d) (codes ")") col (le_refl 1) in
          rw found (omega (arith, line))
      | inr none_found ↦
          let line = append-le t0 (codes " No Objects were found") picture (le_refl 22) in
          rw none_found (omega (arith, line))
    ]

-- Every match on a line of its own.
pub lines_of : List Match → Text
lines_of [] = []
lines_of (match ∷ matches) = format_match match ++ (10 ∷ lines_of matches)

write_lines-all :
    (fprintf : ℕ → Bool) (i : ℕ) (matches : List Match)
    → (write_lines fprintf i matches).1 ≡ true
    → (write_lines fprintf i matches).0 ≡ lines_of matches
unfolding write_lines lines_of
write_lines-all fprintf i [] success = refl
write_lines-all fprintf i (match ∷ matches) success = elim (Bool-cases (fprintf i)) [
  | inl wrote ↦
      let rest = write_lines-all fprintf (suc i) matches (rw wrote at success) in
      rw (wrote, rest) refl
  | inr failed ↦ absurd (cc (rw failed at success))
]

-- Where `msearch_write_results` returns MSEARCH_OK, it has written a line for each match, in order.
pub write_results-lines :
    (output : Output) (path : Text) (matches : List Match)
    → (write_results output path matches).1 ≡ done tt
    → (write_results output path matches).0 ≡ lines_of matches
unfolding write_results
write_results-lines output path matches success =
    elim (Bool-cases (not (same path (codes "-")) && not output.fopen)) [
      | inl unopened ↦ absurd (cc (rw unopened at success))
      | inr opened ↦ elim (Bool-cases (write_lines output.fprintf 0 matches).1) [
        | inr lost ↦ absurd (cc (rw (opened, lost) at success))
        | inl wrote ↦ elim (Bool-cases (not (same path (codes "-")) && not output.fclose)) [
          | inl unclosed ↦ absurd (cc (rw (opened, wrote, unclosed) at success))
          | inr closed ↦ rw (opened, wrote, closed) (write_lines-all output.fprintf 0 matches wrote)
        ]
      ]
    ]
