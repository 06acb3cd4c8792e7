-- ===== src/Prelude/Sort.antt =====
-- A stable sort by an integer key: Python's `sorted(..., key=...)` and SQL's `ORDER BY`.
use mathlib.Core.List.{List, [], ◌∷◌}
use ink_foot.Prelude.Int.{ℤ, leb_ℤ}
use ink_foot.Prelude.Tests.{if◌then◌else◌}

module _ {ℓ} {A : Type ℓ} (key : A → ℤ) where
  unfoldable pub insert_by : A → List A → List A
  insert_by x [] = x ∷ []
  insert_by x (y ∷ ys) =
      let rest = insert_by x ys in if leb_ℤ (key x) (key y) then x ∷ y ∷ ys else y ∷ rest

  unfoldable pub sort_by : List A → List A
  unfolding insert_by
  sort_by [] = []
  sort_by (x ∷ xs) = insert_by x (sort_by xs)
