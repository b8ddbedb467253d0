-- ===== src/Floating.antt =====
-- C's `double`, as examples/hybrid-object-matching uses it. The arithmetic belongs to the
-- compiler and the processor, so the type and its operations are a parameter of the model.
use mpi_local_lab.Base.{◌≡◌, ◌≢◌, Bool, true, false, ◌||◌}
use mpi_local_lab.Base.Int.{ℤ, pos}

pub record Floating : Type 1 where
  pub Double : Type 0
  pub of_int : ℤ → Double  -- `(double)i`, of an int
  pub add : Double → Double → Double
  pub sub : Double → Double → Double
  pub div : Double → Double → Double
  pub fabs : Double → Double
  pub lt : Double → Double → Bool  -- `a < b`; `a > b` is `lt b a`
  pub ge : Double → Double → Bool  -- `a >= b`; false, like `lt`, where an operand is NaN

-- `0.0`
abbrev pub fzero : (F : Floating) → F.Double
fzero F = F.of_int (pos 0)

-- `x` is neither 0 nor NaN.
abbrev pub nonzero : (F : Floating) → F.Double → Bool
nonzero F x = F.lt (fzero F) x || F.lt x (fzero F)

-- What IEEE 754 arithmetic guarantees in round-to-nearest, each law for the operands that occur.
pub record Ieee (F : Floating) : Type 0 where
  -- The conversion of an int is exact, so only 0 becomes 0.
  pub of_int-nonzero : (p : ℤ) → p ≢ pos 0 → nonzero F (F.of_int p) ≡ true
  -- A difference of two ints is finite; over a divisor that is not 0 it gives no NaN.
  pub fabs-quotient :
      (p o : ℤ) (d : F.Double)
      → nonzero F d ≡ true
      → F.ge (F.fabs (F.div (F.sub (F.of_int p) (F.of_int o)) d)) (fzero F) ≡ true
  pub zero-ge : F.ge (fzero F) (fzero F) ≡ true
  -- Rounding is monotone: with operands that are at least 0, so neither NaN nor negative, infinity
  -- included, a sum does not fall below what its first operand was at least.
  pub add-ge :
      (s t b : F.Double)
      → F.ge s (fzero F) ≡ true
      → F.ge t (fzero F) ≡ true
      → F.ge s b ≡ true
      → F.ge (F.add s t) b ≡ true
  -- `a >= b` and `a < b` exclude one another.
  pub ge-not_lt : (a b : F.Double) → F.ge a b ≡ true → F.lt a b ≡ false
