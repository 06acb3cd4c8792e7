-- ===== src/Float.antt =====
-- Python's `float`, which the ledger validation, the contract enforcer and the diff compute with.
-- The language's doubles are not among the native types, so they are a parameter: the type of the
-- doubles other than NaN, the operations that the program uses, and the laws of IEEE arithmetic
-- that the proofs need. `millionths` is a rounding arithmetic that meets the laws.
pub mod Fixed
use ink_foot.Prelude.{ℕ, ◌<◌, ◌≡◌, ◌⊎◌, Bool, true, false, not, arith, Bool-cases, inl, inr}
use ink_foot.Prelude.Int.{ℤ, pos, ◌≤ℤ◌}

pub record Float : Type 1 where
  pub F : Type 0
  -- `x <= y`
  pub leb : F → F → Bool
  -- an int as the operand of a comparison or of float arithmetic
  pub of_int : ℤ → F
  -- `n / d`, for a positive int `d`
  pub div_int : ℤ → ℕ → F
  pub add : F → F → F
  pub sub : F → F → F
  pub mul : F → F → F
  -- `int(round(x))`
  pub round : F → ℤ
  -- comparison is a total order
  pub leb_refl : (x : F) → leb x x ≡ true
  pub leb_trans : (x y z : F) → leb x y ≡ true → leb y z ≡ true → leb x z ≡ true
  pub leb_total : (x y : F) → (leb x y ≡ true) ⊎ (leb y x ≡ true)
  -- rounding is monotone, and exact where the quotient is 0 or 1
  pub of_int_mono : (a b : ℤ) → a ≤ℤ b → leb (of_int a) (of_int b) ≡ true
  pub div_mono : (a b : ℤ) (d : ℕ) → 0 < d → a ≤ℤ b → leb (div_int a d) (div_int b d) ≡ true
  pub div_self : (d : ℕ) → 0 < d → div_int (pos d) d ≡ of_int (pos 1)
  pub div_zero : (d : ℕ) → 0 < d → div_int (pos 0) d ≡ of_int (pos 0)
  pub mul_mono :
      (x y z : F) → leb (of_int (pos 0)) z ≡ true → leb x y ≡ true → leb (mul x z) (mul y z) ≡ true
  pub mul_one : (x : F) → mul (of_int (pos 1)) x ≡ x

module _ (f : Float) where
  open f use {F, leb, leb_trans, leb_total}

  -- `x < y`
  abbrev pub ltf : F → F → Bool
  ltf x y = not (leb y x)

  -- What lies below `x` lies below whatever `x` lies below.
  pub leb-false_up : (x y z : F) → leb x y ≡ true → leb x z ≡ false → leb y z ≡ false
  leb-false_up x y z h k = elim (Bool-cases (leb y z)) [
    | inl e ↦ ground (arith, leb_trans x y z h e)
    | inr e ↦ e
  ]

  pub leb_of_not : (x y : F) → leb x y ≡ false → leb y x ≡ true
  leb_of_not x y h = elim (leb_total x y) [ inl e ↦ ground arith | inr e ↦ e ]
