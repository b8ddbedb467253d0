-- ===== src/Tests/Fixed.antt =====
-- A `Floating` that runs: fixed-point numbers with three decimals. It meets the laws of `Ieee`.
use mpi_local_lab.Base.{ℕ, ◌+◌, ◌*◌, ◌/◌, ◌≡◌, ◌≢◌, refl, arith, Bool, true}
use mpi_local_lab.Base.Int.{ℤ, pos, negsuc, pos_part, neg_part, ◌+ℤ◌, ◌-ℤ◌, ltb_ℤ, leb_ℤ}
use mpi_local_lab.Floating.{Floating, Ieee, nonzero}

magnitude : ℤ → ℕ
magnitude a = pos_part a + neg_part a

-- a / b to three decimals, with the sign of a quotient.
quotient : ℤ → ℤ → ℤ
unfolding magnitude ◌-ℤ◌
quotient (pos a) (pos b) = pos (a * 1000 / b)
quotient (pos a) b = pos 0 -ℤ pos (a * 1000 / magnitude b)
quotient a (pos b) = pos 0 -ℤ pos (magnitude a * 1000 / b)
quotient a b = pos (magnitude a * 1000 / magnitude b)

unfoldable pub scale : ℤ → ℤ
scale (pos k) = pos (k * 1000)
scale (negsuc k) = negsuc (k * 1000 + 999)

unfoldable pub absolute : ℤ → ℤ
unfolding magnitude
absolute a = pos (magnitude a)

unfoldable pub fixed_div : ℤ → ℤ → ℤ
unfolding quotient
fixed_div a b = quotient a b

abbrev pub fixed : Floating
fixed = record {
  Double = ℤ;
  of_int = scale;
  add = ◌+ℤ◌;
  sub = ◌-ℤ◌;
  div = fixed_div;
  fabs = absolute;
  lt = ltb_ℤ;
  ge = λ a b. leb_ℤ b a;
}

scale-nonzero : (p : ℤ) → p ≢ pos 0 → nonzero fixed (scale p) ≡ true
unfolding scale
scale-nonzero (pos k) ne = ground (arith, ne)
scale-nonzero (negsuc k) ne = ground arith

absolute-ge : (a : ℤ) → leb_ℤ (scale (pos 0)) (absolute a) ≡ true
unfolding absolute scale
absolute-ge a = ground arith

add_keeps :
    (s t b : ℤ)
    → leb_ℤ (scale (pos 0)) s ≡ true
    → leb_ℤ (scale (pos 0)) t ≡ true
    → leb_ℤ b s ≡ true
    → leb_ℤ b (s +ℤ t) ≡ true
unfolding ◌+ℤ◌ scale
add_keeps s t b h0 ht hs = ground arith

not_below : (a b : ℤ) → leb_ℤ b a ≡ true → ltb_ℤ a b ≡ Bool.false
not_below a b h = ground arith

zero_keeps : leb_ℤ (scale (pos 0)) (scale (pos 0)) ≡ true
unfolding scale
zero_keeps = refl

pub fixed-Ieee : Ieee fixed
fixed-Ieee = record {
  of_int-nonzero = scale-nonzero;
  fabs-quotient = λ p o d h. absolute-ge _;
  zero-ge = zero_keeps;
  add-ge = add_keeps;
  ge-not_lt = not_below;
}
