-- ===== src/Storage/Projection/Silent.antt =====
-- An event that adds nothing to a projection, wherever the order of inkfoot/storage/sqlite.py puts it.
use ink_foot.Prelude.Int.{ℤ, leb_ℤ}
use ink_foot.Prelude.{
  String, ◌≡◌, refl, sym, ap, ◌∙◌, true, false, Option, some, List, [], ◌∷◌, ◌++◌, arith, inl, inr,
  Bool-cases,
}
use ink_foot.Prelude.Sort.{insert_by, sort_by}
use ink_foot.Value.{Value}
use ink_foot.Storage.{Event, no_totals}
use ink_foot.Storage.Projection.{added_by_event, project_run_totals}
use ink_foot.Storage.Projection.Sums.{
  log_sum, combined, combined-no_totals, project_run_totals-eq-log_sum,
}

leb_trans : (a b c : ℤ) → leb_ℤ a b ≡ true → leb_ℤ b c ≡ true → leb_ℤ a c ≡ true
leb_trans a b c h i = ground (arith, h, i)

leb_total : (a b : ℤ) → leb_ℤ a b ≡ false → leb_ℤ b a ≡ true
leb_total a b h = ground (arith, h)

module _ {A : Type 0} (key : A → ℤ) where
  abbrev Ordered : List A → Type 0
  Ordered [] = Unit
  Ordered (x ∷ []) = Unit
  Ordered (x ∷ y ∷ ys) = (leb_ℤ (key x) (key y) ≡ true) × Ordered (y ∷ ys)

  behind :
      (x y : A) (ys : List A)
      → Ordered (y ∷ ys)
      → leb_ℤ (key y) (key x) ≡ true
      → Ordered (y ∷ insert_by key x ys)
  unfolding insert_by
  behind x y [] h le = (le, tt)
  behind x y (z ∷ zs) (yz, h) le = elim (Bool-cases (leb_ℤ (key x) (key z))) [
    | inl c ↦ rw c (le, (c, h))
    | inr d ↦ rw d (yz, behind x z zs h (leb_total (key x) (key z) d))
  ]

  insert_by-Ordered : (x : A) (ys : List A) → Ordered ys → Ordered (insert_by key x ys)
  unfolding insert_by
  insert_by-Ordered x [] h = tt
  insert_by-Ordered x (y ∷ ys) h = elim (Bool-cases (leb_ℤ (key x) (key y))) [
    | inl c ↦ rw c (c, h)
    | inr d ↦ rw d (behind x y ys h (leb_total (key x) (key y) d))
  ]

  sort_by-Ordered : (xs : List A) → Ordered (sort_by key xs)
  unfolding sort_by
  sort_by-Ordered [] = tt
  sort_by-Ordered (x ∷ xs) = insert_by-Ordered x (sort_by key xs) (sort_by-Ordered xs)

  -- A list, and the same with one more element somewhere.
  data OneMore (e : A) : List A → List A → Type 0 where
    here : (xs : List A) → OneMore e xs (e ∷ xs)
    there : (x : A) (xs ys : List A) → OneMore e xs ys → OneMore e (x ∷ xs) (x ∷ ys)

  -- In front of an ordered list of later elements.
  insert_by-first :
      (x e : A) (ys : List A)
      → Ordered (e ∷ ys)
      → leb_ℤ (key x) (key e) ≡ true
      → insert_by key x ys ≡ x ∷ ys
  unfolding insert_by
  insert_by-first x e [] h le = refl
  insert_by-first x e (y ∷ ys) (ey, h) le = rw (leb_trans (key x) (key e) (key y) le ey) refl

  tail-Ordered : (x : A) (ys : List A) → Ordered (x ∷ ys) → Ordered ys
  tail-Ordered x [] h = tt
  tail-Ordered x (y ∷ ys) (xy, h) = h

  insert_by-OneMore :
      (x e : A) (ys zs : List A)
      → Ordered zs
      → OneMore e ys zs
      → OneMore e (insert_by key x ys) (insert_by key x zs)
  unfolding insert_by
  insert_by-OneMore x e _ _ h (here ys) = elim (Bool-cases (leb_ℤ (key x) (key e))) [
    | inl c ↦ rw (c, insert_by-first x e ys h c) (there x ys (e ∷ ys) (here ys))
    | inr d ↦ rw d (here (insert_by key x ys))
  ]
  insert_by-OneMore x e _ _ h (there y ys zs more) = elim (Bool-cases (leb_ℤ (key x) (key y))) [
    | inl c ↦ rw c (there x _ _ (there y ys zs more))
    | inr d ↦ rw d (there y _ _ (insert_by-OneMore x e ys zs (tail-Ordered y zs h) more))
  ]

  sort_by-OneMore : (e : A) (xs : List A) → OneMore e (sort_by key xs) (sort_by key (xs ++ e ∷ []))
  unfolding sort_by insert_by
  sort_by-OneMore e [] = here []
  sort_by-OneMore e (x ∷ xs) =
      insert_by-OneMore x e _ _ (sort_by-Ordered (xs ++ e ∷ [])) (sort_by-OneMore e xs)

module _ {F : Type 0} (loads : String → Option (Value F)) where
  log_sum-OneMore :
      (e : Event) (es fs : List Event)
      → added_by_event loads e ≡ some no_totals
      → OneMore (λ x. x.sequence) e es fs
      → log_sum loads fs ≡ log_sum loads es
  unfolding log_sum
  log_sum-OneMore e _ _ silent (here es) = rw silent (combined-no_totals (log_sum loads es))
  log_sum-OneMore e _ _ silent (there d es fs more) =
      ap (combined (added_by_event loads d)) (log_sum-OneMore e es fs silent more)

  -- An event that adds nothing changes no projection.
  pub project_run_totals-silent :
      (e : Event) (es : List Event)
      → added_by_event loads e ≡ some no_totals
      → project_run_totals loads (sort_by (λ x. x.sequence) (es ++ e ∷ []))
        ≡ project_run_totals loads (sort_by (λ x. x.sequence) es)
  project_run_totals-silent e es silent =
      project_run_totals-eq-log_sum loads _
      ∙ log_sum-OneMore e _ _ silent (sort_by-OneMore (λ x. x.sequence) e es)
      ∙ sym (project_run_totals-eq-log_sum loads _)
