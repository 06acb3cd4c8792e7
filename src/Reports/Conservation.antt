-- ===== src/Reports/Conservation.antt =====
-- The rollup of inkfoot/reports/cost_per_success.py loses no run, no spend and no outcome.
use ink_foot.Prelude.Int.{
  ℤ, pos, sum, sum-append, sum_from, sum_from-eq-sum, int_laws, +ℤ_zero, zero_+ℤ, ◌+ℤ◌,
}
use ink_foot.Prelude.{
  ℕ, ◌+◌, String, ◌≡◌, refl, sym, ◌∙◌, inl, inr, Bool, true, false, List, [], ◌∷◌, ◌++◌, map,
  eq_iff, if◌then◌else◌, Bool-cases,
}
use ink_foot.Value.{Value, dict, Fields, get}
use ink_foot.Value.Truth.{is_text}
use ink_foot.Reports.{
  BucketRow, Group, GroupKey, Groups, empty_group, eq_group, upsert, group_runs, key_of, add_run,
  total_of, row_of, insert_row, sort_rows, rollup_cost_per_success, row_leb, length, text,
}
use ink_foot.Prelude.Lists.{length-append}

-- A sum over the runs, of which only the mappings count.
abbrev pub of_run : {F : Type 0} → (Fields F → ℤ) → Value F → ℤ
of_run h (dict run) = h run
of_run h _ = pos 0

-- A quantity that each run adds to its group, and that the group's row shows.
module _ {F : Type 0} (μ : Group → ℤ) (h : Fields F → ℤ) (shown : BucketRow → ℤ)
    (start : μ empty_group ≡ pos 0)
    (step : (run : Fields F) (g : Group) → μ (add_run run g) ≡ μ g +ℤ h run)
    (shows : (k : GroupKey) (g : Group) → shown (row_of (k, g)) ≡ μ g) where
  abbrev of_group : GroupKey × Group → ℤ
  of_group (k, g) = μ g

  sum-upsert :
      (k : GroupKey) (run : Fields F) (gs : Groups)
      → sum (map of_group (upsert k (add_run run) gs)) ≡ sum (map of_group gs) +ℤ h run
  unfolding upsert sum
  sum-upsert k run [] = rw (step run empty_group, start) (omega int_laws)
  sum-upsert k run ((j, g) ∷ gs) = elim (Bool-cases (eq_group j k)) [
    | inl e ↦ rw (e, step run g) (omega int_laws)
    | inr e ↦ rw e (rw (sum-upsert k run gs) (omega int_laws))
  ]

  sum-group_runs :
      (bucket_of : Fields F → String) (runs : List (Value F)) (gs : Groups)
      → sum (map of_group (group_runs bucket_of runs gs))
        ≡ sum (map of_group gs) +ℤ sum (map (of_run h) runs)
  unfolding group_runs sum
  sum-group_runs bucket_of [] gs = omega int_laws
  sum-group_runs bucket_of (dict run ∷ runs) gs =
      rw
        (
          sum-group_runs bucket_of runs (upsert (key_of bucket_of run) (add_run run) gs),
          sum-upsert (key_of bucket_of run) run gs,
        )
        (omega int_laws)
  sum-group_runs bucket_of (_ ∷ runs) gs = rw (sum-group_runs bucket_of runs gs) (omega int_laws)

  sum-insert_row :
      (r : BucketRow) (rs : List BucketRow)
      → sum (map shown (insert_row r rs)) ≡ shown r +ℤ sum (map shown rs)
  unfolding insert_row sum
  sum-insert_row r [] = refl
  sum-insert_row r (s ∷ ss) = elim (Bool-cases (row_leb r s)) [
    | inl e ↦ rw e refl
    | inr e ↦ rw e (rw (sum-insert_row r ss) (omega int_laws))
  ]

  sum-sort_rows :
      (gs : Groups) → sum (map shown (sort_rows (map row_of gs))) ≡ sum (map of_group gs)
  unfolding sort_rows sum
  sum-sort_rows [] = refl
  sum-sort_rows ((k, g) ∷ gs) =
      rw (sum-insert_row (row_of (k, g)) (sort_rows (map row_of gs)), shows k g, sum-sort_rows gs)
        refl

  sum-rollup :
      (bucket_of : Fields F → String) (runs : List (Value F))
      → sum (map shown (rollup_cost_per_success bucket_of runs)) ≡ sum (map (of_run h) runs)
  unfolding rollup_cost_per_success sum
  sum-rollup bucket_of runs =
      sum-sort_rows (group_runs bucket_of runs [])
      ∙ sum-group_runs bucket_of runs []
      ∙ zero_+ℤ (sum (map (of_run h) runs))

-- Whether a run is counted, as a number.
abbrev pub one_if : Bool → ℤ
one_if b = if b then pos 1 else pos 0

abbrev pub is_success : {F : Type 0} → Fields F → Bool
is_success run = is_text "success" (get "outcome" run)

abbrev pub is_accepted : {F : Type 0} → Fields F → Bool
is_accepted run = is_text "accepted_answer" (get "outcome" run)

sum-snoc : (xs : List ℤ) (x : ℤ) → sum_from (pos 0) (xs ++ x ∷ []) ≡ sum_from (pos 0) xs +ℤ x
unfolding sum
sum-snoc xs x =
    rw (sum_from-eq-sum (pos 0) (xs ++ x ∷ []), sum_from-eq-sum (pos 0) xs, sum-append xs (x ∷ []))
      (omega int_laws)

pos_suc : (n : ℕ) → pos (n + 1) ≡ pos n +ℤ pos 1
pos_suc n = omega int_laws

not_both :
    {F : Type 0} (v : Value F) → is_text "success" v ≡ true → is_text "accepted_answer" v ≡ false
not_both (text s) h = rw ((eq_iff s "success").0 h) refl
not_both v h = refl

counted : (b : Bool) (n : ℕ) → pos (if b then n + 1 else n) ≡ pos n +ℤ one_if b
counted true n = pos_suc n
counted false n = sym (+ℤ_zero (pos n))

counted_else :
    (a b : Bool) (n : ℕ)
    → (a ≡ true → b ≡ false)
    → pos (if a then n else if b then n + 1 else n) ≡ pos n +ℤ one_if b
counted_else true b n h = rw (h refl) (sym (+ℤ_zero (pos n)))
counted_else false b n h = counted b n

-- The rows of the table account for every run: their spend is that of all runs together, and their
-- numbers of runs, of successes and of accepted answers are those of all runs, however they are grouped.
pub rollup_conserves :
    {F : Type 0} (bucket_of : Fields F → String) (runs : List (Value F))
    → (sum (map (λ r. r.total_nanodollars) (rollup_cost_per_success bucket_of runs))
        ≡ sum (map (of_run total_of) runs))
      × (sum (map (λ r. pos r.n_runs) (rollup_cost_per_success bucket_of runs))
          ≡ sum (map (of_run (λ _. pos 1)) runs))
      × (sum (map (λ r. pos r.n_success) (rollup_cost_per_success bucket_of runs))
          ≡ sum (map (of_run (λ run. one_if (is_success run))) runs))
      × (sum (map (λ r. pos r.n_accepted_answer) (rollup_cost_per_success bucket_of runs))
          ≡ sum (map (of_run (λ run. one_if (is_accepted run))) runs))
unfolding add_run row_of sum_from
rollup_conserves bucket_of runs = (
  sum-rollup (λ g. sum_from (pos 0) g.totals) total_of (λ r. r.total_nanodollars) refl
      (λ run g. sum-snoc g.totals (total_of run)) (λ k g. refl) bucket_of runs,
  sum-rollup (λ g. pos (length g.totals)) (λ _. pos 1) (λ r. pos r.n_runs) refl
      (λ run g. rw (length-append g.totals (total_of run ∷ [])) (pos_suc (length g.totals)))
      (λ k g. refl) bucket_of runs,
  sum-rollup (λ g. pos g.n_success) (λ run. one_if (is_success run)) (λ r. pos r.n_success) refl
      (λ run g. counted (is_success run) g.n_success) (λ k g. refl) bucket_of runs,
  sum-rollup (λ g. pos g.n_accepted) (λ run. one_if (is_accepted run))
      (λ r. pos r.n_accepted_answer) refl
      (λ run g.
        counted_else (is_success run) (is_accepted run) g.n_accepted (not_both (get "outcome" run)))
      (λ k g. refl) bucket_of runs,
)
