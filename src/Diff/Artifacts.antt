-- ===== src/Diff/Artifacts.antt =====
-- The artefacts of inkfoot/benchmark/schema.py and the report of inkfoot/diff/compare.py.
use ink_foot.Prelude.Int.{ℤ}
use ink_foot.Prelude.{ℕ, Option, List}
use Prim.Native.String.{String}
use ink_foot.Diff.{Verdict, SmellDelta, Thresholds, Reason}

pub record SmellCount : Type 0 where
  pub id : String
  pub count : ℕ

pub record ScenarioResult (F : Type 0) : Type 0 where
  pub task : String
  pub runs : ℕ
  pub successes : ℕ
  pub p50_nanodollars : ℤ
  pub p95_nanodollars : ℤ
  pub mean_llm_calls : F
  pub mean_cache_hit_rate : F
  pub smells_seen : List SmellCount

pub record BenchmarkArtifact (F : Type 0) : Type 0 where
  pub inkfoot_version : String
  pub schema_version : String
  pub captured_at : String
  pub scenarios : List (ScenarioResult F)

pub record ScenarioDiff (F : Type 0) : Type 0 where
  pub task : String
  pub baseline : Option (ScenarioResult F)
  pub current : Option (ScenarioResult F)
  pub p50_delta_fraction : Option F
  pub p95_delta_fraction : Option F
  pub cache_hit_delta : Option F
  pub llm_calls_delta : Option F
  pub success_rate_delta : Option F
  pub smell_deltas : List SmellDelta
  pub verdict : Verdict
  pub reasons : List (Reason F)

pub record DiffReport (F : Type 0) : Type 0 where
  pub baseline_version : String
  pub current_version : String
  pub baseline_captured_at : String
  pub current_captured_at : String
  pub thresholds : Thresholds F
  pub scenario_diffs : List (ScenarioDiff F)
  pub verdict : Verdict
  pub summary_reasons : List (String × Reason F)
