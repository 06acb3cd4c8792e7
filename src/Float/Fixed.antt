-- ===== src/Float/Fixed.antt =====
-- A fixed-point arithmetic in millionths, rounding toward zero, that meets the laws of `Float`.
use native.Mathlib.Nat.{le_trans, le-div_iff_mul-le, div-mul-le_self, mul-div_right, zero-div}
use ink_foot.Float.{Float}
use ink_foot.Prelude.{ℕ, zero, suc, ◌*◌, ◌/◌, ◌≤◌, ◌<◌, ◌≡◌, ◌⊎◌, true, arith, le→leb, leb→le}
use ink_foot.Prelude.Int.{ℤ, pos, negsuc, sub_ℕ, ◌+ℤ◌, ◌-ℤ◌, ◌*ℤ◌, ◌≤ℤ◌, leb_ℤ}

abbrev pub scale : ℕ
scale = 1000000

-- Division of an int, toward zero.
unfoldable pub quotient : ℤ → ℕ → ℤ
quotient (pos n) d = pos (n / d)
quotient (negsuc n) d = sub_ℕ 0 (suc n / d)

unfoldable pub fixed_div : ℤ → ℕ → ℤ
unfolding quotient
fixed_div a d = quotient (a *ℤ scale) d

unfoldable pub fixed_mul : ℤ → ℤ → ℤ
unfolding quotient
fixed_mul x (pos m) = quotient (x *ℤ m) scale
fixed_mul x (negsuc m) = pos 0 -ℤ quotient (x *ℤ suc m) scale

-- Rounding half up.
unfoldable pub fixed_round : ℤ → ℤ
unfolding quotient
fixed_round x = quotient (x +ℤ pos 500000) scale

mul_le : (a b k : ℕ) → a ≤ b → a * k ≤ b * k
mul_le a b k h = grind arith

div_le : (a b d : ℕ) → a ≤ b → a / d ≤ b / d
div_le a b zero h = omega arith
div_le a b (suc d) h = (le-div_iff_mul-le (omega arith)).1 (le_trans (div-mul-le_self a (suc d)) h)

quotient_mono : (a b : ℤ) (d : ℕ) → a ≤ℤ b → quotient a d ≤ℤ quotient b d
unfolding quotient
quotient_mono (pos a) (pos b) d h = omega (arith, div_le a b d (omega arith))
quotient_mono (pos a) (negsuc b) d h = absurd (omega arith)
quotient_mono (negsuc a) (pos b) d h = ground arith
quotient_mono (negsuc a) (negsuc b) d h = ground (arith, div_le (suc b) (suc a) d)

scale_mono : (a b : ℤ) (k : ℕ) → a ≤ℤ b → a *ℤ k ≤ℤ b *ℤ k
unfolding ◌*ℤ◌
scale_mono (pos a) (pos b) k h = ground (arith, mul_le a b k)
scale_mono (pos a) (negsuc b) k h = absurd (omega arith)
scale_mono (negsuc a) (pos b) k h = ground arith
scale_mono (negsuc a) (negsuc b) k h = ground (arith, mul_le (suc b) (suc a) k)

pub fixed_div_mono :
    (a b : ℤ) (d : ℕ) → 0 < d → a ≤ℤ b → leb_ℤ (fixed_div a d) (fixed_div b d) ≡ true
unfolding fixed_div
fixed_div_mono a b d p h =
    le→leb _ _ (quotient_mono (a *ℤ scale) (b *ℤ scale) d (scale_mono a b scale h))

pub fixed_div_self : (d : ℕ) → 0 < d → fixed_div (pos d) d ≡ pos 1 *ℤ scale
unfolding fixed_div ◌*ℤ◌
fixed_div_self d h = ground (arith, mul-div_right scale h)

pub fixed_div_zero : (d : ℕ) → 0 < d → fixed_div (pos 0) d ≡ pos 0 *ℤ scale
unfolding fixed_div ◌*ℤ◌
fixed_div_zero d h = ground (arith, zero-div d)

neg_not_ge : (m : ℕ) → leb_ℤ (pos 0 *ℤ scale) (negsuc m) ≡ true → ⊥
unfolding ◌*ℤ◌
neg_not_ge m h = ground arith

pub fixed_mul_mono :
    (x y z : ℤ)
    → leb_ℤ (pos 0 *ℤ scale) z ≡ true
    → leb_ℤ x y ≡ true
    → leb_ℤ (fixed_mul x z) (fixed_mul y z) ≡ true
unfolding fixed_mul
fixed_mul_mono x y (pos m) h k =
    le→leb _ _ (quotient_mono (x *ℤ m) (y *ℤ m) scale (scale_mono x y m (leb→le _ _ k)))
fixed_mul_mono x y (negsuc m) h k = absurd (neg_not_ge m h)

pub fixed_mul_one : (x : ℤ) → fixed_mul (pos 1 *ℤ scale) x ≡ x
unfolding fixed_mul ◌*ℤ◌ ◌-ℤ◌
fixed_mul_one (pos m) = ground (arith, mul-div_right m {m = scale} (omega arith))
fixed_mul_one (negsuc m) = ground (arith, mul-div_right (suc m) {m = scale} (omega arith))

pub of_int_mono : (a b : ℤ) → a ≤ℤ b → leb_ℤ (a *ℤ scale) (b *ℤ scale) ≡ true
of_int_mono a b h = le→leb _ _ (scale_mono a b scale h)

pub leb_refl : (x : ℤ) → leb_ℤ x x ≡ true
leb_refl x = le→leb _ _ (omega arith)

pub leb_trans : (x y z : ℤ) → leb_ℤ x y ≡ true → leb_ℤ y z ≡ true → leb_ℤ x z ≡ true
leb_trans x y z h k = ground arith

pub leb_total : (x y : ℤ) → (leb_ℤ x y ≡ true) ⊎ (leb_ℤ y x ≡ true)
leb_total x y = ground arith

abbrev pub millionths : Float
millionths = record {
  F = ℤ;
  leb = leb_ℤ;
  of_int = λ n. n *ℤ scale;
  div_int = fixed_div;
  add = ◌+ℤ◌;
  sub = ◌-ℤ◌;
  mul = fixed_mul;
  round = fixed_round;
  leb_refl = leb_refl;
  leb_trans = leb_trans;
  leb_total = leb_total;
  of_int_mono = of_int_mono;
  div_mono = fixed_div_mono;
  div_self = λ d h. fixed_div_self d h;
  div_zero = fixed_div_zero;
  mul_mono = fixed_mul_mono;
  mul_one = fixed_mul_one;
}
