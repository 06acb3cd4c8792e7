-- ===== src/Prelude/Lists.antt =====
-- Lists measured by native numbers, and quantified by recursion.
use Prim.Native.Nat.{ℕ, zero, suc, ◌+◌}
use mathlib.Core.Path.{◌≡◌, refl}
use mathlib.Core.Bool.{Bool, true, false}
use mathlib.Core.List.{List, [], ◌∷◌, ◌++◌}
use mathlib.Core.Option.{Option, none, some}
use native.Mathlib.Omega.{arith}
use ink_foot.Prelude.Tests.{str_eq, if◌then◌else◌}
use Prim.Native.String.{String}

module _ {ℓ} {A : Type ℓ} where
  abbrev pub length : List A → ℕ
  length [] = 0
  length (x ∷ xs) = suc (length xs)

  abbrev pub get_elem? : List A → ℕ → Option A
  get_elem? [] i = none
  get_elem? (x ∷ xs) zero = some x
  get_elem? (x ∷ xs) (suc i) = get_elem? xs i

  abbrev pub take : ℕ → List A → List A
  take zero xs = []
  take (suc n) [] = []
  take (suc n) (x ∷ xs) = x ∷ take n xs

  -- The elements that pass a test, in their order.
  abbrev pub select : (A → Bool) → List A → List A
  select test [] = []
  select test (x ∷ xs) = let rest = select test xs in if test x then x ∷ rest else rest

  pub select_cong :
      {p q : A → Bool} → ((x : A) → p x ≡ q x) → (xs : List A) → select p xs ≡ select q xs
  select_cong h [] = refl
  select_cong h (x ∷ xs) = ground (arith, h x, select_cong h xs)

  pub length-append : (xs ys : List A) → length (xs ++ ys) ≡ length xs + length ys
  length-append [] ys = omega arith
  length-append (x ∷ xs) ys = omega (arith, length-append xs ys)

-- Every element satisfies the predicate.
abbrev pub All {ℓ κ} : {A : Type ℓ} → (A → Type κ) → List A → Type κ
All P [] = Unit
All P (x ∷ xs) = P x × All P xs

-- `name in names` for a list or a set of strings.
abbrev pub elem : String → List String → Bool
elem k [] = false
elem k (j ∷ js) = if str_eq j k then true else elem k js

-- How often a name occurs.
abbrev pub count : String → List String → ℕ
count k [] = 0
count k (j ∷ js) = (if str_eq j k then 1 else 0) + count k js

pub count-append : (k : String) (js ks : List String) → count k (js ++ ks) ≡ count k js + count k ks
count-append k [] ks = omega arith
count-append k (j ∷ js) ks = omega (arith, count-append k js ks)
