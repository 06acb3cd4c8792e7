-- ===== src/Prelude/Int.antt =====
-- Python's unbounded integers over the native numbers.
use Prim.Native.Nat.{ℕ, suc, ◌+◌, ◌-◌, ◌*◌, ◌≤◌}
use mathlib.Core.Path.{◌≡◌, ap, sym, ◌∙◌}
use mathlib.Core.Bool.{Bool}
use mathlib.Core.List.{List, [], ◌∷◌, ◌++◌, map}
use native.Mathlib.Omega.{arith}
use ink_foot.Prelude.Lists.{All}
use ink_foot.Prelude.Tests.{leb, ltb, if◌then◌else◌}

-- `negsuc n` is -(n + 1).
pub data ℤ : Type 0 where
  pos : ℕ → ℤ
  negsuc : ℕ → ℤ

abbrev pub pos_part : ℤ → ℕ
pos_part (pos n) = n
pos_part (negsuc n) = 0

abbrev pub neg_part : ℤ → ℕ
neg_part (pos n) = 0
neg_part (negsuc n) = suc n

-- a - b, as an integer.
abbrev pub sub_ℕ : ℕ → ℕ → ℤ
sub_ℕ a b = if leb b a then pos (a - b) else negsuc (b - a - 1)

infixl 65 ◌+ℤ◌ ◌-ℤ◌
infixl 70 ◌*ℤ◌
infix 50 ◌≤ℤ◌
unfoldable pub ◌+ℤ◌ : ℤ → ℤ → ℤ
a +ℤ b = sub_ℕ (pos_part a + pos_part b) (neg_part a + neg_part b)

unfoldable pub ◌-ℤ◌ : ℤ → ℤ → ℤ
a -ℤ b = sub_ℕ (pos_part a + neg_part b) (neg_part a + pos_part b)

-- An integer times a rate, which is never negative in the program.
unfoldable pub ◌*ℤ◌ : ℤ → ℕ → ℤ
a *ℤ k = sub_ℕ (pos_part a * k) (neg_part a * k)

abbrev pub ◌≤ℤ◌ : ℤ → ℤ → Type 0
a ≤ℤ b = pos_part a + neg_part b ≤ pos_part b + neg_part a

abbrev pub ltb_ℤ : ℤ → ℤ → Bool
ltb_ℤ a b = ltb (pos_part a + neg_part b) (pos_part b + neg_part a)

abbrev pub leb_ℤ : ℤ → ℤ → Bool
leb_ℤ a b = leb (pos_part a + neg_part b) (pos_part b + neg_part a)

-- `max(0, a)`
abbrev pub clamp : ℤ → ℤ
clamp (pos n) = pos n
clamp (negsuc n) = pos 0

pub +ℤ_parts :
    (a b : ℤ)
    → pos_part (a +ℤ b) + neg_part a + neg_part b ≡ neg_part (a +ℤ b) + pos_part a + pos_part b
unfolding ◌+ℤ◌
+ℤ_parts a b = ground arith

pub -ℤ_parts :
    (a b : ℤ)
    → pos_part (a -ℤ b) + neg_part a + pos_part b ≡ neg_part (a -ℤ b) + pos_part a + neg_part b
unfolding ◌-ℤ◌
-ℤ_parts a b = ground arith

pub *ℤ_parts :
    (a : ℤ) (k : ℕ) → pos_part (a *ℤ k) + neg_part a * k ≡ neg_part (a *ℤ k) + pos_part a * k
unfolding ◌*ℤ◌
*ℤ_parts a k = ground arith

pub eq_of_parts : (a b : ℤ) → pos_part a + neg_part b ≡ pos_part b + neg_part a → a ≡ b
eq_of_parts a b h = ground arith

pub ruleset int_laws = (arith, +ℤ_parts, -ℤ_parts, *ℤ_parts, eq_of_parts)

pub *ℤ_add : (a b : ℤ) (k : ℕ) → (a +ℤ b) *ℤ k ≡ a *ℤ k +ℤ b *ℤ k
*ℤ_add a b k = omega (int_laws, ap (λ (t : ℕ). t * k) (+ℤ_parts a b))

pub *ℤ_sub : (a b : ℤ) (k : ℕ) → (a -ℤ b) *ℤ k ≡ a *ℤ k -ℤ b *ℤ k
*ℤ_sub a b k = omega (int_laws, ap (λ (t : ℕ). t * k) (-ℤ_parts a b))

pub *ℤ_nonneg : (a : ℤ) (k : ℕ) → pos 0 ≤ℤ a → pos 0 ≤ℤ a *ℤ k
unfolding ◌*ℤ◌
*ℤ_nonneg (pos n) k h = ground arith
*ℤ_nonneg (negsuc n) k h = absurd (omega arith)

-- Python's `sum`, from the left.
unfoldable pub sum_from : ℤ → List ℤ → ℤ
sum_from acc [] = acc
sum_from acc (x ∷ xs) = sum_from (acc +ℤ x) xs

-- The same, as a plain recursion.
unfoldable pub sum : List ℤ → ℤ
sum [] = pos 0
sum (x ∷ xs) = x +ℤ sum xs

pub sum_from-eq-sum : (acc : ℤ) (xs : List ℤ) → sum_from acc xs ≡ acc +ℤ sum xs
unfolding sum sum_from
sum_from-eq-sum acc [] = omega int_laws
sum_from-eq-sum acc (x ∷ xs) = rw (sum_from-eq-sum (acc +ℤ x) xs) (omega int_laws)

pub sum-append : (xs ys : List ℤ) → sum (xs ++ ys) ≡ sum xs +ℤ sum ys
unfolding sum
sum-append [] ys = omega int_laws
sum-append (x ∷ xs) ys = rw (sum-append xs ys) (omega int_laws)

pub zero_+ℤ : (a : ℤ) → pos 0 +ℤ a ≡ a
zero_+ℤ a = omega int_laws

pub +ℤ_zero : (a : ℤ) → a +ℤ pos 0 ≡ a
+ℤ_zero a = omega int_laws

pub +ℤ_assoc : (a b c : ℤ) → a +ℤ b +ℤ c ≡ a +ℤ (b +ℤ c)
+ℤ_assoc a b c = omega int_laws

pub +ℤ_comm : (a b : ℤ) → a +ℤ b ≡ b +ℤ a
+ℤ_comm a b = omega int_laws

pub zero_*ℤ : (k : ℕ) → pos 0 *ℤ k ≡ pos 0
unfolding ◌*ℤ◌
zero_*ℤ k = ground arith

pub *ℤ_zero : (a : ℤ) → a *ℤ 0 ≡ pos 0
unfolding ◌*ℤ◌
*ℤ_zero a = ground arith

-- A common rate comes out of a sum.
pub sum-scale {ℓ} :
    {A : Type ℓ} (g : A → ℤ) (k : ℕ) (xs : List A)
    → sum (map (λ x. g x *ℤ k) xs) ≡ sum (map g xs) *ℤ k
unfolding sum
sum-scale g k [] = sym (zero_*ℤ k)
sum-scale g k (x ∷ xs) =
    ap (λ t. g x *ℤ k +ℤ t) (sum-scale g k xs) ∙ sym (*ℤ_add (g x) (sum (map g xs)) k)

pub +ℤ_nonneg : (a b : ℤ) → pos 0 ≤ℤ a → pos 0 ≤ℤ b → pos 0 ≤ℤ a +ℤ b
+ℤ_nonneg a b h k = omega int_laws

pub clamp_nonneg : (a : ℤ) → pos 0 ≤ℤ clamp a
clamp_nonneg a = ground arith

pub clamp_of_nonneg : (a : ℤ) → pos 0 ≤ℤ a → clamp a ≡ a
clamp_of_nonneg a h = ground arith

pub sum_nonneg : (xs : List ℤ) → All (λ x. pos 0 ≤ℤ x) xs → pos 0 ≤ℤ sum xs
unfolding sum
sum_nonneg [] h = omega arith
sum_nonneg (x ∷ xs) h = +ℤ_nonneg x (sum xs) h.0 (sum_nonneg xs h.1)
