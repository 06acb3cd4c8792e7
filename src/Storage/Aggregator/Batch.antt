-- ===== src/Storage/Aggregator/Batch.antt =====
-- The batches that `read_dirty` of inkfoot/storage/sqlite.py hands out: they shorten the queue, and
-- a short one holds all of it.
use ink_foot.Prelude.Int.{ℤ, leb_ℤ}
use ink_foot.Prelude.{
  ℕ, zero, suc, ◌≤◌, ◌<◌, String, ◌≡◌, refl, ap, ◌∙◌, inl, inr, true, List, [], ◌∷◌, arith, eq_iff,
  eq_refl, str_eq, if◌then◌else◌, Bool-cases,
}
use ink_foot.Prelude.Lists.{All, elem, take, length}
use ink_foot.Prelude.Sort.{insert_by, sort_by}
use ink_foot.Storage.{Run}
use ink_foot.Storage.Aggregator.Queue.{ids, drop_key, drop_all}

-- Every key of the second list stands in the first.
abbrev pub Covers : List String → List String → Type 0
Covers ks js = All (λ (j : String). elem j ks ≡ true) js

length-drop_key : (k : String) (js : List String) → length (drop_key k js) ≤ length js
length-drop_key k [] = ground arith
length-drop_key k (j ∷ js) = ground (arith, length-drop_key k js)

pub drop_key_shortens :
    (k : String) (js : List String) → elem k js ≡ true → length (drop_key k js) < length js
drop_key_shortens k [] h = ground arith
drop_key_shortens k (j ∷ js) h = elim (Bool-cases (str_eq j k)) [
  | inl e ↦ rw e (ground (arith, length-drop_key k js))
  | inr e ↦ rw e (ground (arith, e, drop_key_shortens k js))
]

pub length-drop_all : (ks js : List String) → length (drop_all ks js) ≤ length js
length-drop_all [] js = ground arith
length-drop_all (k ∷ ks) js =
    omega (arith, length-drop_all ks (drop_key k js), length-drop_key k js)

drop_key-Covers :
    (k : String) (ks js : List String) → Covers (k ∷ ks) js → Covers ks (drop_key k js)
drop_key-Covers k ks [] h = tt
drop_key-Covers k ks (j ∷ js) h = elim (Bool-cases (str_eq j k)) [
  | inl e ↦ rw e (drop_key-Covers k ks js h.1)
  | inr e ↦ rw e (ground (arith, e, h.0, eq_iff j k, eq_iff k j), drop_key-Covers k ks js h.1)
]

pub drop_all_covered : (ks js : List String) → Covers ks js → drop_all ks js ≡ []
drop_all_covered [] [] h = refl
drop_all_covered [] (j ∷ js) h = ground (arith, h.0)
drop_all_covered (k ∷ ks) js h = drop_all_covered ks (drop_key k js) (drop_key-Covers k ks js h)

wider-Covers : (k : String) (ks js : List String) → Covers ks js → Covers (k ∷ ks) js
wider-Covers k ks [] h = tt
wider-Covers k ks (j ∷ js) h = (ground (arith, h.0), wider-Covers k ks js h.1)

self-Covers : (ks : List String) → Covers ks ks
self-Covers [] = tt
self-Covers (k ∷ ks) = (rw (eq_refl k) refl, wider-Covers k ks ks (self-Covers ks))

same_keys-Covers :
    (ks ls js : List String) → ((j : String) → elem j ks ≡ elem j ls) → Covers ls js → Covers ks js
same_keys-Covers ks ls [] same h = tt
same_keys-Covers ks ls (j ∷ js) same h = (same j ∙ h.0, same_keys-Covers ks ls js same h.1)

module _ (key : Run → ℤ) where
  elem-insert_by :
      (j : String) (r : Run) (rs : List Run)
      → elem j (ids (insert_by key r rs)) ≡ elem j (ids (r ∷ rs))
  unfolding insert_by
  elem-insert_by j r [] = refl
  elem-insert_by j r (x ∷ rs) = elim (Bool-cases (leb_ℤ (key r) (key x))) [
    | inl e ↦ rw e refl
    | inr e ↦ rw e (ground (arith, elem-insert_by j r rs))
  ]

  pub elem-sort_by : (j : String) (rs : List Run) → elem j (ids (sort_by key rs)) ≡ elem j (ids rs)
  unfolding sort_by
  elem-sort_by j [] = refl
  elem-sort_by j (r ∷ rs) =
      elem-insert_by j r (sort_by key rs)
      ∙ ap (λ b. if str_eq r.id j then true else b) (elem-sort_by j rs)

  pub sort_by-Covers : (rs : List Run) → Covers (ids (sort_by key rs)) (ids rs)
  sort_by-Covers rs =
      same_keys-Covers (ids (sort_by key rs)) (ids rs) (ids rs) (λ j. elem-sort_by j rs)
        (self-Covers (ids rs))

pub take-short : (n : ℕ) (rs : List Run) → length (ids (take n rs)) < n → take n rs ≡ rs
take-short zero rs h = ground arith
take-short (suc n) [] h = refl
take-short (suc n) (r ∷ rs) h = ap (◌∷◌ r) (take-short n rs (omega arith))

pub first_of_batch :
    (n : ℕ) (rs : List Run) (k : String) (ks : List String)
    → ids (take (suc n) rs) ≡ k ∷ ks
    → elem k (ids rs) ≡ true
first_of_batch n [] k ks h = ground arith
first_of_batch n (r ∷ rs) k ks h = ground (arith, h, eq_iff r.id k)
