-- ===== src/Reports/Tests.antt =====
-- A table of inkfoot/reports/cost_per_success.py from a few runs, and its theorem there.
use ink_foot.Prelude.Int.{ℤ, pos, negsuc, sum, ◌+ℤ◌, sum_from}
use ink_foot.Prelude.{ℕ, String, ◌≡◌, refl, Bool, true, false, List, [], ◌∷◌, map}
use ink_foot.Value.{Value, text, int, null, dict, Fields, end, field, Key, get, find}
use ink_foot.Reports.{BucketRow, rollup_cost_per_success, floor_div, total_of}
use ink_foot.Reports.Conservation.{rollup_conserves, of_run, one_if, is_success, is_accepted}
use ink_foot.Value.Truth.{text_or_empty}

abbrev run : String → Value ℤ → ℕ → Value ℤ
run task outcome nd = dict (
    field (Key.name "task") (text task) (
      field (Key.name "outcome") outcome (field (Key.name "total_nanodollars") (int (pos nd)) end)))

abbrev runs : List (Value ℤ)
runs =
    run "triage" (text "success") 40
    ∷ run "triage" (text "failure") 20
    ∷ run "triage" null 900
    ∷ null
    ∷ run "review" (text "accepted_answer") 70
    ∷ []

abbrev by_task : Fields ℤ → String
by_task fs = text_or_empty (get "task" fs)

abbrev row : String → ℕ → ℕ → ℕ → ℕ → ℕ → ℕ → Bool → BucketRow
row bucket n total avg p s a u = record {
  bucket = bucket;
  n_runs = n;
  total_nanodollars = pos total;
  avg_nanodollars = pos avg;
  p95_nanodollars = pos p;
  n_success = s;
  n_accepted_answer = a;
  uninstrumented = u;
}

-- The most expensive bucket comes first, and the runs without an outcome last.
table :
    rollup_cost_per_success by_task runs
    ≡ row "review" 1 70 70 70 0 1 false
      ∷ row "triage" 2 60 30 40 1 0 false
      ∷ row "uninstrumented" 1 900 900 900 0 0 true
      ∷ []
unfolding rollup_cost_per_success find sum_from ◌+ℤ◌
table = refl

refund : floor_div (negsuc 0) 2 ≡ negsuc 0
refund = refl

rollup_conserves_example :
    (sum (map (λ r. r.total_nanodollars) (rollup_cost_per_success by_task runs))
      ≡ sum (map (of_run total_of) runs))
    × (sum (map (λ r. pos r.n_runs) (rollup_cost_per_success by_task runs))
        ≡ sum (map (of_run (λ _. pos 1)) runs))
    × (sum (map (λ r. pos r.n_success) (rollup_cost_per_success by_task runs))
        ≡ sum (map (of_run (λ fs. one_if (is_success fs))) runs))
    × (sum (map (λ r. pos r.n_accepted_answer) (rollup_cost_per_success by_task runs))
        ≡ sum (map (of_run (λ fs. one_if (is_accepted fs))) runs))
rollup_conserves_example = rollup_conserves by_task runs
