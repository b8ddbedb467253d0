-- ===== src/Writer/Numbers.antt =====
-- A number that src/core/writer.c prints is the number that src/core/parser.c reads.
use mathlib.Core.Path.{subst}
use mpi_local_lab.Base.{
  ℕ, zero, suc, ◌+◌, ◌*◌, ◌/◌, ◌%◌, ◌^◌, ◌≤◌, ◌<◌, ◌≡◌, ◌==◌, refl, sym, ap, ◌∙◌, arith, Bool, true,
  false, ◌&&◌, ◌||◌, not, if◌then◌else◌, ◌-◌, inl, inr, List, [], ◌∷◌, ◌++◌, ltb, leb, length,
  length-append, All, Bool-cases,
}
use mpi_local_lab.Base.Int.{ℤ, pos, negsuc, ◌-ℤ◌, ltb_ℤ}
use mpi_local_lab.Base.Machine.{int_max}
use mpi_local_lab.Types.{Label, err_parse, expected, Result, done, err}
use mpi_local_lab.Reader.{Lexer, is_space, hash, newline, word, lexer_next}
use mpi_local_lab.Reader.Number.{sign, digits, strtol, Converted, c_string, is_empty, expect_int}
use mpi_local_lab.Reader.Lines.{lexer_next-line_end}
use mpi_local_lab.Writer.{print_nat, print_int}

-- The byte of a digit.
abbrev IsDigit : ℕ → Type 0
IsDigit c = (48 ≤ c) × (c ≤ 57)

digits_step :
    (any : Bool) (value d : ℕ) (rest : List ℕ)
    → d < 10
    → digits any value ((48 + d) ∷ rest) ≡ digits true (value * 10 + d) rest
unfolding digits
digits_step any value d rest lt =
    let is_digit : leb 48 (48 + d) && leb (48 + d) 57 ≡ true = ground (arith, lt) in
    let same : 48 + d - 48 ≡ d = omega arith in rw (digits, is_digit, same) refl

append_assoc {ℓ} : {A : Type ℓ} (xs ys zs : List A) → (xs ++ ys) ++ zs ≡ xs ++ (ys ++ zs)
append_assoc [] ys zs = refl
append_assoc (x ∷ xs) ys zs = ap (λ l. x ∷ l) (append_assoc xs ys zs)

All-append {ℓ κ} :
    {A : Type ℓ} (P : A → Type κ) (xs ys : List A) → All P xs → All P ys → All P (xs ++ ys)
All-append P [] ys h k = k
All-append P (x ∷ xs) ys h k = (h.0, All-append P xs ys h.1 k)

digits-print_nat :
    (fuel n : ℕ) (rest : List ℕ)
    → n < fuel
    → digits false 0 (print_nat fuel n ++ rest) ≡ digits true n rest
unfolding digits print_nat
digits-print_nat zero n rest lt = absurd (omega (arith, lt))
digits-print_nat (suc fuel) n rest lt = elim (Bool-cases (ltb n 10)) [
  | inl one ↦
      let small : n < 10 = ground (arith, one) in
      let same : 0 * 10 + n ≡ n = omega arith in
      rw one (digits_step false 0 n rest small ∙ rw same refl)
  | inr more ↦
      let large : 10 ≤ n = ground (arith, more) in
      let last = digits_step true (n / 10) (n % 10) rest (omega arith) in
      let before =
        digits-print_nat fuel (n / 10) ((48 + n % 10) ∷ rest) (omega (arith, lt, large)) in
      let whole : n / 10 * 10 + n % 10 ≡ n = omega arith in
      rw (more, append_assoc (print_nat fuel (n / 10)) ((48 + n % 10) ∷ []) rest)
        (before ∙ last ∙ rw whole refl)
]

print_nat-digits : (fuel n : ℕ) → n < fuel → All IsDigit (print_nat fuel n)
unfolding print_nat
print_nat-digits zero n lt = tt
print_nat-digits (suc fuel) n lt = elim (Bool-cases (ltb n 10)) [
  | inl one ↦ rw one ((omega arith, ground (arith, one)), tt)
  | inr more ↦
      let large : 10 ≤ n = ground (arith, more) in
      rw more (
        All-append IsDigit (print_nat fuel (n / 10)) ((48 + n % 10) ∷ [])
          (print_nat-digits fuel (n / 10) (omega (arith, lt, large)))
          ((omega arith, omega arith), tt))
]

-- A number below a power of ten has no more digits than the power.
pub length-print_nat :
    (fuel n k : ℕ) → n < fuel → n < 10 ^ suc k → length (print_nat fuel n) ≤ suc k
unfolding print_nat
length-print_nat zero n k lt small = omega arith
length-print_nat (suc fuel) n zero lt small = elim (Bool-cases (ltb n 10)) [
  | inl one ↦ rw one (omega arith)
  | inr more ↦ absurd (ground (arith, more, small))
]
length-print_nat (suc fuel) n (suc k) lt small = elim (Bool-cases (ltb n 10)) [
  | inl one ↦ rw one (omega arith)
  | inr more ↦
      let large : 10 ≤ n = ground (arith, more) in
      let one_less : n / 10 < 10 ^ suc k = omega (arith, small) in
      let rest = length-print_nat fuel (n / 10) k (omega (arith, lt, large)) one_less in
      rw more (omega (arith, rest, length-append (print_nat fuel (n / 10)) ((48 + n % 10) ∷ [])))
]

-- The first byte of a printed number, and the others.
print_nat-first : (fuel n : ℕ) → (c : ℕ) × (cs : List ℕ) × (print_nat (suc fuel) n ≡ c ∷ cs)
unfolding print_nat
print_nat-first fuel n = elim (Bool-cases (ltb n 10)) [
  | inl one ↦ (48 + n, [], rw one refl)
  | inr more ↦ rw more (append-first (print_nat fuel (n / 10)) (48 + n % 10))
]
  where
    append-first : (xs : List ℕ) (y : ℕ) → (c : ℕ) × (cs : List ℕ) × (xs ++ (y ∷ []) ≡ c ∷ cs)
    append-first [] y = (y, [], refl)
    append-first (x ∷ xs) y = (x, xs ++ (y ∷ []), refl)

append_nil {ℓ} : {A : Type ℓ} (xs : List A) → xs ++ [] ≡ xs
append_nil [] = refl
append_nil (x ∷ xs) = ap (λ l. x ∷ l) (append_nil xs)

sign-digits : (text : List ℕ) → All IsDigit text → sign text ≡ (false, text)
sign-digits [] h = refl
sign-digits (c ∷ cs) ((low, high), h) =
    let no_minus : (c == 45) ≡ false = ground (arith, low) in
    let no_plus : (c == 43) ≡ false = ground (arith, low) in rw (no_minus, no_plus) refl

digits-whole : (n : ℕ) → digits false 0 (print_nat (suc n) n) ≡ (true, n, [])
unfolding digits
digits-whole n =
    ap (digits false 0) (sym (append_nil (print_nat (suc n) n)))
    ∙ digits-print_nat (suc n) n [] (omega arith)

abbrev Read : ℤ → Converted ℤ
Read x = record { value = x; rest = []; converted = true; out_of_range = false }

strtol-print_nat : (n : ℕ) → n ≤ int_max → strtol (print_nat (suc n) n) ≡ Read (pos n)
unfolding strtol
strtol-print_nat n small =
    let unsigned = sign-digits (print_nat (suc n) n) (print_nat-digits (suc n) n (omega arith)) in
    let fits : ltb (2 ^ 63 - 1) n ≡ false = ground (arith, small) in
    rw (unsigned, digits-whole n, fits) refl

strtol-minus :
    (k : ℕ) → k ≤ int_max → strtol (45 ∷ print_nat (suc (suc k)) (suc k)) ≡ Read (negsuc k)
unfolding strtol ◌-ℤ◌
strtol-minus k small =
    let fits : ltb (2 ^ 63) (suc k) ≡ false = ground (arith, small) in
    let negative : pos 0 -ℤ pos (suc k) ≡ negsuc k = ground arith in
    rw (digits-whole (suc k), fits, negative) refl

-- An int, by its sign.
abbrev pub IsInt : ℤ → Type 0
IsInt (pos n) = n ≤ int_max
IsInt (negsuc k) = k ≤ int_max

strtol-print_int : (x : ℤ) → IsInt x → strtol (print_int x) ≡ Read x
unfolding print_int
strtol-print_int (pos n) small = strtol-print_nat n small
strtol-print_int (negsuc k) small = strtol-minus k small

c_string-digits : (text : List ℕ) → All IsDigit text → c_string text ≡ text
unfolding c_string
c_string-digits [] h = refl
c_string-digits (c ∷ cs) ((low, high), h) =
    let no_end : (c == 0) ≡ false = ground (arith, low) in rw (no_end, c_string-digits cs h) refl

digits-no_space : (text : List ℕ) → All IsDigit text → All (λ d. is_space d ≡ false) text
unfolding is_space
digits-no_space [] h = tt
digits-no_space (c ∷ cs) ((low, high), h) = (ground (arith, low, high), digits-no_space cs h)

-- What the lexer needs of a token.
record IsToken (text : List ℕ) : Type 0 where
  first : ℕ
  others : List ℕ
  text_is : text ≡ first ∷ others
  no_space : is_space first ≡ false
  no_comment : (first == hash) ≡ false
  no_spaces : All (λ d. is_space d ≡ false) others
  short : length others < 63
  whole : c_string text ≡ text

print_nat-IsToken : (n : ℕ) → n ≤ 2147483648 → IsToken (print_nat (suc n) n)
print_nat-IsToken n small =
    let all = print_nat-digits (suc n) n (omega arith) in
    let (c, cs, is) = print_nat-first n n in
    let split : All IsDigit (c ∷ cs) = rw is at all in
    let len = length-print_nat (suc n) n 9 (omega arith) (omega (arith, small)) in
    record {
      first = c;
      others = cs;
      text_is = is;
      no_space = (digits-no_space (c ∷ cs) split).0;
      no_comment = ground (arith, split.0);
      no_spaces = (digits-no_space (c ∷ cs) split).1;
      short = omega (arith, len, ap length is);
      whole = c_string-digits (print_nat (suc n) n) all;
    }

print_int-IsToken : (x : ℤ) → IsInt x → IsToken (print_int x)
unfolding print_int is_space c_string
print_int-IsToken (pos n) small = print_nat-IsToken n (omega (arith, small))
print_int-IsToken (negsuc k) small = minus_token
  where
    minus_token : IsToken (45 ∷ print_nat (suc (suc k)) (suc k))
    minus_token =
        let all = print_nat-digits (suc (suc k)) (suc k) (omega arith) in
        let len = length-print_nat (suc (suc k)) (suc k) 9 (omega arith) (omega (arith, small)) in
        record {
          first = 45;
          others = print_nat (suc (suc k)) (suc k);
          text_is = refl;
          no_space = refl;
          no_comment = refl;
          no_spaces = digits-no_space (print_nat (suc (suc k)) (suc k)) all;
          short = omega (arith, len);
          whole = ap (λ l. 45 ∷ l) (c_string-digits (print_nat (suc (suc k)) (suc k)) all);
        }

IsInt-bounds :
    (x : ℤ) → IsInt x → (ltb_ℤ x (negsuc int_max) ≡ false) × (ltb_ℤ (pos int_max) x ≡ false)
IsInt-bounds (pos n) small = (ground arith, ground (arith, small))
IsInt-bounds (negsuc k) small = (ground (arith, small), ground arith)

-- The tests of `expect_int`.
accepted :
    (number : Converted ℤ) (x : ℤ) (failed : Result (ℤ × Lexer)) (at : Lexer)
    → number ≡ Read x
    → ltb_ℤ x (negsuc int_max) ≡ false
    → ltb_ℤ (pos int_max) x ≡ false
    → (if not number.converted
          || not (is_empty number.rest)
          || number.out_of_range
          || ltb_ℤ number.value (negsuc int_max)
          || ltb_ℤ (pos int_max) number.value
        then failed
        else done (number.value, at))
      ≡ done (x, at)
accepted number x failed at is low high =
    subst
      (λ (n : Converted ℤ).
        (if not n.converted
            || not (is_empty n.rest)
            || n.out_of_range
            || ltb_ℤ n.value (negsuc int_max)
            || ltb_ℤ (pos int_max) n.value
          then failed
          else done (n.value, at))
        ≡ done (x, at))
      (sym is) (rw (low, high) refl)

-- An int that is printed with `%d` on a line of its own is read back as that int, with the rest of
-- the input left to read.
pub expect_int-print_int :
    (x : ℤ) (rest : List ℕ) (line : ℤ) (what : Label)
    → IsInt x
    → expect_int (record { input = print_int x ++ newline ∷ rest; line = line }) what
      ≡ done (x, record { input = rest; line = line })
unfolding expect_int
expect_int-print_int x rest line what small =
    let token = print_int-IsToken x small in
    let next =
      lexer_next-line_end line token.first token.others rest token.no_space token.no_comment
        token.no_spaces token.short in
    let from_text : lexer_next (record { input = print_int x ++ newline ∷ rest; line = line })
        ≡ word (print_int x) (record { input = rest; line = line }) =
      rw token.text_is next in
    let read : strtol (c_string (print_int x)) ≡ Read x =
      ap strtol token.whole ∙ strtol-print_int x small in
    let (low, high) = IsInt-bounds x small in
    rw (expect_int, from_text)
      (accepted (strtol (c_string (print_int x))) x
        (err err_parse (expected line what (print_int x))) (record { input = rest; line = line })
        read low high)
