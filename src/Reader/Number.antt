-- ===== src/Reader/Number.antt =====
-- src/core/parser.c: the numbers of a problem file.
use mpi_local_lab.Base.{
  ℕ, ◌+◌, ◌-◌, ◌*◌, ◌^◌, ◌==◌, Bool, true, false, not, ◌&&◌, ◌||◌, List, [], ◌∷◌, Option, none,
  some, ltb, leb, if◌then◌else◌,
}
use mpi_local_lab.Base.Int.{ℤ, pos, negsuc, ◌-ℤ◌, ltb_ℤ}
use mpi_local_lab.Base.Machine.{int_max}
use mpi_local_lab.Types.{
  err_parse, err_invalid, Label, token_too_long, unexpected_end, expected, count_out_of_range,
  Result, done, err,
}
use mpi_local_lab.Reader.{Lexer, word, ended, too_long, lexer_next}

-- What `strtol` and `strtod` return: the value, the bytes behind it, whether there was a number, and
-- whether errno is ERANGE.
pub record Converted {ℓ} (A : Type ℓ) : Type ℓ where
  pub value : A
  pub rest : List ℕ
  pub converted : Bool
  pub out_of_range : Bool

abbrev pub digit : ℕ → Option ℕ
digit c = if leb 48 c && leb c 57 then some (c - 48) else none

-- The digits in front: their value behind that of those before, and what follows.
unfoldable pub digits : (any : Bool) (value : ℕ) → List ℕ → Bool × ℕ × List ℕ
digits any value [] = (any, value, [])
digits any value (c ∷ cs) = elim (digit c) [
  | none ↦ (any, value, c ∷ cs)
  | some d ↦ digits true (value * 10 + d) cs
]

-- Whether there is a minus, and what is behind the sign.
abbrev pub sign : List ℕ → Bool × List ℕ
sign [] = (false, [])
sign (c ∷ cs) = if c == 45 then (true, cs) else if c == 43 then (false, cs) else (false, c ∷ cs)

-- `strtol` to base 10 of a string without blanks, for a `long` of 64 bits.
unfoldable pub strtol : List ℕ → Converted ℤ
unfolding digits
strtol text =
    let (negative, unsigned) = sign text in
    let (any, value, rest) = digits false 0 unsigned in
    let most = if negative then 2 ^ 63 else 2 ^ 63 - 1 in
    let bounded = if ltb most value then most else value in
    record {
      value = if negative then pos 0 -ℤ pos bounded else pos bounded;
      rest = if any then rest else text;
      converted = any;
      out_of_range = ltb most value;
    }

-- A token as a C string, which ends at its first 0.
unfoldable pub c_string : List ℕ → List ℕ
c_string [] = []
c_string (c ∷ cs) = let rest = c_string cs in if c == 0 then [] else c ∷ rest

abbrev pub is_empty {ℓ} : {A : Type ℓ} → List A → Bool
is_empty [] = true
is_empty (x ∷ xs) = false

unfoldable pub expect_int : Lexer → Label → Result (ℤ × Lexer)
unfolding lexer_next strtol c_string
expect_int lexer what = elim (lexer_next lexer) [
  | too_long line ↦ err err_parse (token_too_long line)
  | ended at ↦ err err_parse (unexpected_end at.line what)
  | word token at ↦
      let number = strtol (c_string token) in
      if not number.converted
        || not (is_empty number.rest)
        || number.out_of_range
        || ltb_ℤ number.value (negsuc int_max)
        || ltb_ℤ (pos int_max) number.value
      then err err_parse (expected at.line what token)
      else done (number.value, at)
]

-- `strtod` is a parameter, as `double` is.
unfoldable pub expect_double {ℓ} :
    {A : Type ℓ} → (strtod : List ℕ → Converted A) → Lexer → Label → Result (A × Lexer)
unfolding lexer_next c_string
expect_double strtod lexer what = elim (lexer_next lexer) [
  | too_long line ↦ err err_parse (token_too_long line)
  | ended at ↦ err err_parse (unexpected_end at.line what)
  | word token at ↦
      let number = strtod (c_string token) in
      if not number.converted || not (is_empty number.rest) || number.out_of_range
      then err err_parse (expected at.line what token)
      else done (number.value, at)
]

-- `MSEARCH_MAX_COUNT`
abbrev pub max_count : ℤ
max_count = pos 1000000

unfoldable pub read_count : Lexer → Label → Result (ℤ × Lexer)
unfolding expect_int
read_count lexer what = elim (expect_int lexer what) [
  | err s e ↦ err s e
  | done (count, at) ↦
      if ltb_ℤ count (pos 0) || ltb_ℤ max_count count
      then err err_invalid (count_out_of_range at.line what count)
      else done (count, at)
]
