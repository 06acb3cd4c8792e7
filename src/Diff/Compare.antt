-- ===== src/Diff/Compare.antt =====
-- `compare_artifacts` of inkfoot/diff/compare.py, with the artefacts of inkfoot/benchmark/schema.py.
use ink_foot.Prelude.Int.{ℤ, pos, ◌-ℤ◌, ltb_ℤ, leb_ℤ}
use ink_foot.Prelude.{
  ℕ, zero, suc, Bool, false, ◌&&◌, Option, none, List, [], ◌∷◌, ◌++◌, map, ltb, str_eq,
  if◌then◌else◌,
}
use Prim.Native.Nat.{Ordering}
use Prim.Native.String.{compare, String}
use ink_foot.Diff.Artifacts.{
  SmellCount, ScenarioResult, BenchmarkArtifact, ScenarioDiff, DiffReport,
}
use ink_foot.Float.{Float}
use ink_foot.Prelude.Dict.{Dict, lookup, insert}
use ink_foot.Diff.{
  Verdict, ok, warn, worst, Status, appeared, disappeared, increased, decreased, unchanged,
  SmellDelta, Thresholds, Reason, within_thresholds, new_scenario, missing_scenario, Findings,
  verdict, some,
}

-- `sorted(set(...))`: an element is put in its place, once.
abbrev pub insert_key : String → List String → List String
insert_key k [] = k ∷ []
insert_key k (j ∷ js) = elim (compare k j) [
  | Ordering.lt ↦ k ∷ j ∷ js
  | Ordering.eq ↦ j ∷ js
  | Ordering.gt ↦ j ∷ insert_key k js
]

abbrev pub sorted_set : List String → List String
sorted_set [] = []
sorted_set (k ∷ ks) = insert_key k (sorted_set ks)

abbrev pub keys {ℓ} : {A : Type ℓ} → Dict A → List String
keys = map (λ e. e.0)

-- `{s.id: s.count for s in counts}`: the last of equal keys wins.
abbrev pub counts_by_id : List SmellCount → Dict ℕ → Dict ℕ
counts_by_id [] d = d
counts_by_id (s ∷ ss) d = counts_by_id ss (insert s.id s.count d)

abbrev pub or_zero : Option ℕ → ℕ
or_zero none = 0
or_zero (some n) = n

abbrev pub status_of : ℕ → ℕ → Status
status_of zero zero = unchanged
status_of zero (suc c) = appeared
status_of (suc b) zero = disappeared
status_of (suc b) (suc c) = if ltb b c then increased else if ltb c b then decreased else unchanged

abbrev pub smell_delta : String → ℕ → ℕ → List SmellDelta
smell_delta k zero zero = []
smell_delta k b c =
    record { id = k; baseline_count = b; current_count = c; status = status_of b c } ∷ []

abbrev pub smell_loop : Dict ℕ → Dict ℕ → List String → List SmellDelta
smell_loop base cur [] = []
smell_loop base cur (k ∷ ks) =
    smell_delta k (or_zero (lookup k base)) (or_zero (lookup k cur)) ++ smell_loop base cur ks

-- `_smell_deltas`
unfoldable pub smell_deltas_of : List SmellCount → List SmellCount → List SmellDelta
unfolding insert lookup
smell_deltas_of baseline current =
    let base : Dict ℕ = counts_by_id baseline [] in
    let cur : Dict ℕ = counts_by_id current [] in
    smell_loop base cur (sorted_set (keys base ++ keys cur))

-- The smells of a new scenario, in its order.
abbrev pub new_smells : List SmellCount → List SmellDelta
new_smells [] = []
new_smells (s ∷ ss) =
    (if ltb 0 s.count
      then record { id = s.id; baseline_count = 0; current_count = s.count; status = appeared } ∷ []
      else [])
    ++ new_smells ss

-- `_cost_appeared`
abbrev pub cost_has_appeared : ℤ → ℤ → Bool
cost_has_appeared baseline current = leb_ℤ baseline (pos 0) && ltb_ℤ (pos 0) current

module _ {F : Type 0} where
  abbrev pub by_task : List (ScenarioResult F) → Dict (ScenarioResult F) → Dict (ScenarioResult F)
  by_task [] d = d
  by_task (s ∷ ss) d = by_task ss (insert s.task s d)

  -- `tuple(r for r in reasons if r != "within thresholds")`
  abbrev pub without_within : List (Reason F) → List (Reason F)
  without_within [] = []
  without_within (within_thresholds ∷ rs) = without_within rs
  without_within (r ∷ rs) = r ∷ without_within rs

  abbrev pub no_deltas :
      String
      → Option (ScenarioResult F)
      → Option (ScenarioResult F)
      → List SmellDelta
      → Verdict
      → List (Reason F)
      → ScenarioDiff F
  no_deltas task baseline current smells v reasons = record {
    task = task;
    baseline = baseline;
    current = current;
    p50_delta_fraction = none;
    p95_delta_fraction = none;
    cache_hit_delta = none;
    llm_calls_delta = none;
    success_rate_delta = none;
    smell_deltas = smells;
    verdict = v;
    reasons = reasons;
  }

  -- The reasons of a scenario that is not OK, under its name.
  abbrev pub summarised : String → List (Reason F) → Verdict → List (String × Reason F)
  summarised task reasons ok = []
  summarised task reasons _ = map (λ r. (task, r)) reasons

module _ (f : Float) where
  open f use {F, of_int, sub, div_int}

  -- `_fraction_change`
  abbrev pub fraction_change : ℤ → ℤ → Option F
  fraction_change (pos (suc b)) current = some (div_int (current -ℤ pos (suc b)) (suc b))
  fraction_change _ current = none

  -- `successes / runs if runs else 0.0`
  abbrev pub success_rate : ℕ → ℕ → F
  success_rate successes zero = of_int (pos 0)
  success_rate successes (suc runs) = div_int (pos successes) (suc runs)

  -- `_diff_scenario`; the `none` of both is a RuntimeError that its caller excludes.
  unfoldable pub diff_scenario :
      String
      → Option (ScenarioResult F)
      → Option (ScenarioResult F)
      → Thresholds F
      → Option (ScenarioDiff F)
  unfolding smell_deltas_of
  diff_scenario task none none th = none
  diff_scenario task (some b) none th =
      some (no_deltas task (some b) none [] warn (missing_scenario ∷ []))
  diff_scenario task none (some c) th =
      let smells : List SmellDelta = new_smells c.smells_seen in
      let v : Findings F = verdict f th none none none none smells false false in
      some (no_deltas task none (some c) smells v.0 (new_scenario ∷ without_within v.1))
  diff_scenario task (some b) (some c) th =
      let p50 : Option F = fraction_change b.p50_nanodollars c.p50_nanodollars in
      let p95 : Option F = fraction_change b.p95_nanodollars c.p95_nanodollars in
      let cache : F = sub c.mean_cache_hit_rate b.mean_cache_hit_rate in
      let success : F = sub (success_rate c.successes c.runs) (success_rate b.successes b.runs) in
      let smells : List SmellDelta = smell_deltas_of b.smells_seen c.smells_seen in
      let v : Findings F =
        verdict f th p50 p95 (some cache) (some success) smells
          (cost_has_appeared b.p50_nanodollars c.p50_nanodollars)
          (cost_has_appeared b.p95_nanodollars c.p95_nanodollars) in
      some (record {
        task = task;
        baseline = some b;
        current = some c;
        p50_delta_fraction = p50;
        p95_delta_fraction = p95;
        cache_hit_delta = some cache;
        llm_calls_delta = some (sub c.mean_llm_calls b.mean_llm_calls);
        success_rate_delta = some success;
        smell_deltas = smells;
        verdict = v.0;
        reasons = v.1;
      })

  abbrev pub record_diff : ScenarioDiff F → DiffReport F → DiffReport F
  record_diff d r = record r {
    scenario_diffs = r.scenario_diffs ++ d ∷ [];
    verdict = worst r.verdict d.verdict;
    summary_reasons = r.summary_reasons ++ summarised d.task d.reasons d.verdict;
  }

  -- The loop over the tasks, with the report so far.
  unfoldable pub compare_loop :
      Thresholds F
      → Dict (ScenarioResult F)
      → Dict (ScenarioResult F)
      → List String
      → DiffReport F
      → Option (DiffReport F)
  unfolding diff_scenario lookup
  compare_loop th base cur [] r = some r
  compare_loop th base cur (k ∷ ks) r = elim (diff_scenario k (lookup k base) (lookup k cur) th) [
    | none ↦ none
    | some d ↦ compare_loop th base cur ks (record_diff d r)
  ]

  abbrev pub empty_report : BenchmarkArtifact F → BenchmarkArtifact F → Thresholds F → DiffReport F
  empty_report baseline current th = record {
    baseline_version = baseline.inkfoot_version;
    current_version = current.inkfoot_version;
    baseline_captured_at = baseline.captured_at;
    current_captured_at = current.captured_at;
    thresholds = th;
    scenario_diffs = [];
    verdict = ok;
    summary_reasons = [];
  }

  -- `compare_artifacts` with given thresholds; `none` is its ValueError.
  unfoldable pub compare_artifacts :
      BenchmarkArtifact F → BenchmarkArtifact F → Thresholds F → Option (DiffReport F)
  unfolding compare_loop insert
  compare_artifacts baseline current th =
      let base : Dict (ScenarioResult F) = by_task baseline.scenarios [] in
      let cur : Dict (ScenarioResult F) = by_task current.scenarios [] in
      if str_eq baseline.schema_version current.schema_version
      then compare_loop th base cur (sorted_set (keys base ++ keys cur))
          (empty_report baseline current th)
      else none
