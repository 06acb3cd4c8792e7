-- ===== src/Diff.antt =====
-- The verdict ladder of `inkfoot diff`: the thresholds of inkfoot/diff/thresholds.py and `_verdict`
-- of inkfoot/diff/compare.py. A reason is data instead of a sentence.
pub mod WorstOf
pub mod Severity
pub mod Relaxed
pub mod Artifacts
pub mod Compare
pub mod Report
pub mod Tests
use ink_foot.Prelude.Int.{ℤ, pos, negsuc, ◌+ℤ◌, ◌-ℤ◌, ◌≤ℤ◌, ltb_ℤ, leb_ℤ}
use ink_foot.Prelude.{
  ℕ, zero, suc, ◌+◌, ◌-◌, ◌*◌, ◌/◌, ◌%◌, ◌≤◌, ◌<◌, String, ◌≡◌, refl, sym, ap, ◌∙◌, ◌≢◌, ◌⊎◌, inl,
  inr, Bool, true, false, not, ◌&&◌, ◌||◌, Option, none, some, List, [], ◌∷◌, ◌++◌, map, arith,
  eq_iff, eq_refl, ltb, leb, ◌==◌, str_eq, if◌then◌else◌, Bool-cases, Option-cases,
}
use ink_foot.Float.{Float, ltf}
use ink_foot.Prelude.Lists.{elem}

pub data Verdict : Type 0 where
  ok : Verdict
  warn : Verdict
  fail : Verdict

-- `_VERDICT_RANK`, which is also `_VERDICT_EXIT_CODES`
abbrev pub rank : Verdict → ℕ
rank ok = 0
rank warn = 1
rank fail = 2

-- `_worst`
unfoldable pub worst : Verdict → Verdict → Verdict
worst a b = if leb (rank b) (rank a) then a else b

pub data Axis : Type 0 where
  p50 : Axis
  p95 : Axis

-- `SmellDelta`, whose status is one of five texts.
pub data Status : Type 0 where
  appeared : Status
  disappeared : Status
  increased : Status
  decreased : Status
  unchanged : Status

pub record SmellDelta : Type 0 where
  pub id : String
  pub baseline_count : ℕ
  pub current_count : ℕ
  pub status : Status

pub record Thresholds (F : Type 0) : Type 0 where
  pub name : String
  pub cost_warn : F
  pub cost_fail : F
  pub cache_warn : F
  pub cache_fail : F
  pub outcome_warn : F
  pub outcome_fail : F
  pub critical_smells : List String

-- The sentences of `_verdict` and `_diff_scenario`; a regression carries the verdict it calls for.
pub data Reason (F : Type 0) : Type 0 where
  cost_appeared : Axis → Reason F
  cost_regressed : Axis → F → Verdict → Reason F
  cache_dropped : F → Verdict → Reason F
  success_dropped : F → Verdict → Reason F
  smell_appeared : SmellDelta → Verdict → Reason F
  within_thresholds : Reason F
  new_scenario : Reason F
  missing_scenario : Reason F

-- The verdict and the reasons so far.
abbrev pub Findings : Type 0 → Type 0
Findings F = Verdict × List (Reason F)

module _ {F : Type 0} where
  -- `_bump`
  unfoldable pub bump : Verdict → Reason F → Findings F → Findings F
  bump target reason (v, reasons) = (worst v target, reasons ++ reason ∷ [])

module _ (f : Float) where
  open f use {F, of_int, sub}

  -- `x <= y`
  abbrev pub le : F → F → Bool
  le x y = f.leb x y

  abbrev pub zero_point : F
  zero_point = of_int (pos 0)

  -- `Thresholds.__post_init__`
  unfoldable pub are_valid : Thresholds F → Bool
  are_valid th =
      le zero_point th.cost_warn
      && le zero_point th.cost_fail
      && le zero_point th.cache_warn
      && le zero_point th.cache_fail
      && le zero_point th.outcome_warn
      && le zero_point th.outcome_fail
      && le th.cost_warn th.cost_fail
      && le th.cache_warn th.cache_fail
      && le th.outcome_warn th.outcome_fail

  unfoldable pub judge_delta : Thresholds F → Axis → Option F → Findings F → Findings F
  unfolding bump
  judge_delta th axis none st = st
  judge_delta th axis (some d) st =
      if le th.cost_fail d
      then bump fail (cost_regressed axis d fail) st
      else if le th.cost_warn d
      then bump warn (cost_regressed axis d warn) st
      else st

  -- The loop body over the cost axes.
  unfoldable pub judge_cost : Thresholds F → Axis → Option F → Bool → Findings F → Findings F
  unfolding judge_delta
  judge_cost th axis delta has_appeared st =
      if has_appeared then bump fail (cost_appeared axis) st else judge_delta th axis delta st

  -- `-x`, up to the sign of zero
  abbrev pub negated : F → F
  negated x = sub zero_point x

  unfoldable pub judge_cache : Thresholds F → Option F → Findings F → Findings F
  unfolding bump
  judge_cache th none st = st
  judge_cache th (some delta) st =
      if le th.cache_fail (negated delta)
      then bump fail (cache_dropped (negated delta) fail) st
      else if le th.cache_warn (negated delta)
      then bump warn (cache_dropped (negated delta) warn) st
      else st

  unfoldable pub judge_success : Thresholds F → Option F → Findings F → Findings F
  unfolding bump
  judge_success th none st = st
  judge_success th (some delta) st =
      if le th.outcome_fail (negated delta)
      then bump fail (success_dropped (negated delta) fail) st
      else if ltf f zero_point (negated delta) && le th.outcome_warn (negated delta)
      then bump warn (success_dropped (negated delta) warn) st
      else st

  abbrev pub smell_verdict : Thresholds F → SmellDelta → Verdict
  smell_verdict th sd = if elem sd.id th.critical_smells then fail else warn

  abbrev pub judge_smell : Thresholds F → SmellDelta → Status → Findings F → Findings F
  judge_smell th sd appeared st =
      bump (smell_verdict th sd) (smell_appeared sd (smell_verdict th sd)) st
  judge_smell th sd _ st = st

  unfoldable pub judge_smells : Thresholds F → List SmellDelta → Findings F → Findings F
  unfolding bump
  judge_smells th [] st = st
  judge_smells th (sd ∷ sds) st = judge_smells th sds (judge_smell th sd sd.status st)

  abbrev pub or_within : Findings F → Findings F
  or_within (v, []) = (v, within_thresholds ∷ [])
  or_within (v, r ∷ rs) = (v, r ∷ rs)

  -- `_verdict`
  unfoldable pub verdict :
      Thresholds F
      → Option F
      → Option F
      → Option F
      → Option F
      → List SmellDelta
      → Bool
      → Bool
      → Findings F
  unfolding judge_cost judge_cache judge_success judge_smells
  verdict th p50_delta p95_delta cache_delta success_delta smell_deltas p50_appeared p95_appeared =
      let costs =
        judge_cost th p95 p95_delta p95_appeared
          (judge_cost th p50 p50_delta p50_appeared (ok, [])) in
      or_within (
        judge_smells th smell_deltas
          (judge_success th success_delta (judge_cache th cache_delta costs)))
