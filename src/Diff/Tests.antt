-- ===== src/Diff/Tests.antt =====
-- Runs of inkfoot/diff/compare.py on small artefacts, and its theorems there, in millionths.
use ink_foot.Prelude.Int.{ℤ, pos, ◌-ℤ◌, ◌*ℤ◌}
use ink_foot.Prelude.{ℕ, ◌≤◌, ◌≡◌, refl, false, none, some, List, [], ◌∷◌, map}
use ink_foot.Float.Fixed.{millionths, fixed_div}
use ink_foot.Prelude.Dict.{lookup, insert}
use ink_foot.Diff.{
  ok, warn, fail, rank, worst, Thresholds, bump, verdict, judge_smells, judge_success, judge_cache,
  judge_cost, judge_delta,
}
use ink_foot.Diff.WorstOf.{worst_of}
use ink_foot.Diff.Severity.{severity, smells_severity}
use ink_foot.Diff.Relaxed.{Relaxes, verdict_relaxed, verdict-IsExplained, severity_of}
use ink_foot.Diff.Compare.{compare_artifacts, compare_loop, diff_scenario, smell_deltas_of}
use ink_foot.Diff.Artifacts.{ScenarioResult, BenchmarkArtifact, DiffReport}
use ink_foot.Diff.Report.{verdicts, compare_artifacts-IsWorst}

-- The preset "default", and "loose".
abbrev standard : Thresholds ℤ
standard = record {
  name = "default";
  cost_warn = pos 200000;
  cost_fail = pos 500000;
  cache_warn = pos 100000;
  cache_fail = pos 250000;
  outcome_warn = pos 0;
  outcome_fail = pos 100000;
  critical_smells = "runaway-retry-loop" ∷ "expensive-model-low-entropy" ∷ [];
}

abbrev loose : Thresholds ℤ
loose = record standard {
  name = "loose";
  cost_warn = pos 500000;
  cost_fail = pos 1000000;
  cache_warn = pos 200000;
  cache_fail = pos 500000;
  outcome_warn = pos 50000;
  outcome_fail = pos 200000;
}

loose-Relaxes : Relaxes millionths standard loose
loose-Relaxes = record {
  cost_warn = refl;
  cost_fail = refl;
  cache_warn = refl;
  cache_fail = refl;
  outcome_warn = refl;
  outcome_fail = refl;
  critical_smells = refl;
}

-- Costs up by 60% fail by the preset "default", and warn by "loose".
verdict_relaxed_example :
    rank (verdict millionths loose (some (pos 600000)) none none none [] false false).0
    ≤ rank (verdict millionths standard (some (pos 600000)) none none none [] false false).0
verdict_relaxed_example =
    verdict_relaxed millionths standard loose loose-Relaxes (some (pos 600000)) none none none []
      false false

verdict-IsExplained_example :
    let v = verdict millionths standard (some (pos 600000)) none none none [] false false in
    (v.0 ≡ fail) × (v.0 ≡ worst_of (map severity v.1))
unfolding severity_of worst smells_severity
verdict-IsExplained_example =
    verdict-IsExplained millionths standard (some (pos 600000)) none none none [] false false

abbrev scenario : ℕ → ScenarioResult ℤ
scenario cost = record {
  task = "triage";
  runs = 4;
  successes = 4;
  p50_nanodollars = pos cost;
  p95_nanodollars = pos cost;
  mean_llm_calls = pos 3000000;
  mean_cache_hit_rate = pos 500000;
  smells_seen = [];
}

abbrev artifact : List (ScenarioResult ℤ) → BenchmarkArtifact ℤ
artifact scenarios = record {
  inkfoot_version = "1.0";
  schema_version = "1";
  captured_at = "2026-01-15T00:00:00Z";
  scenarios = scenarios;
}

abbrev report : DiffReport ℤ
report =
    elim (compare_artifacts millionths (artifact (scenario 100 ∷ [])) (artifact (scenario 130 ∷ []))
      standard) [
        | none ↦ record {
          baseline_version = "";
          current_version = "";
          baseline_captured_at = "";
          current_captured_at = "";
          thresholds = standard;
          scenario_diffs = [];
          verdict = ok;
          summary_reasons = [];
        }
        | some r ↦ r
      ]

-- A cost that grows by 30% is a warning.
compare_artifacts-IsWorst_example : report.verdict ≡ worst_of (verdicts report.scenario_diffs)
unfolding compare_artifacts compare_loop diff_scenario smell_deltas_of verdict insert lookup
    fixed_div ◌-ℤ◌ ◌*ℤ◌ bump worst judge_smells judge_success judge_cache judge_cost judge_delta
compare_artifacts-IsWorst_example =
    compare_artifacts-IsWorst millionths (artifact (scenario 100 ∷ []))
      (artifact (scenario 130 ∷ [])) standard report refl

grows_by_30_percent : report.verdict ≡ warn
unfolding compare_artifacts compare_loop diff_scenario smell_deltas_of verdict insert lookup
    fixed_div ◌-ℤ◌ ◌*ℤ◌ bump worst judge_smells judge_success judge_cache judge_cost judge_delta
grows_by_30_percent = refl
