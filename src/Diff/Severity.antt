-- ===== src/Diff/Severity.antt =====
-- The verdict of inkfoot/diff/compare.py as the worst of the severities on its axes.
use ink_foot.Prelude.{
  ◌≤◌, ◌≡◌, refl, sym, ap, ◌∙◌, Bool, true, false, ◌&&◌, Option, none, some, List, [], ◌∷◌, ◌++◌,
  map, arith, if◌then◌else◌,
}
use ink_foot.Float.{Float, ltf}
use mathlib.Core.Bool.{true≢false}
use ink_foot.Diff.WorstOf.{worst_of, worst_assoc, worst_ok, worst_of-append}
use ink_foot.Diff.{
  Verdict, ok, warn, fail, rank, worst, Axis, Status, appeared, SmellDelta, Thresholds, Reason,
  cost_appeared, cost_regressed, cache_dropped, success_dropped, smell_appeared, within_thresholds,
  new_scenario, missing_scenario, Findings, bump, le, zero_point, negated, judge_delta, judge_cost,
  judge_cache, judge_success, judge_smell, judge_smells, smell_verdict,
}

-- Past the hard cut-off, past the soft one, or within both.
abbrev pub two_step : Bool → Bool → Verdict
two_step hard soft = if hard then fail else if soft then warn else ok

pub two_step_mono :
    (h h' s s' : Bool)
    → (h' ≡ true → h ≡ true)
    → (s' ≡ true → s ≡ true)
    → rank (two_step h' s') ≤ rank (two_step h s)
two_step_mono true h' s s' hard soft = ground arith
two_step_mono false true s s' hard soft = absurd (true≢false (sym (hard refl)))
two_step_mono false false true s' hard soft = ground arith
two_step_mono false false false true hard soft = absurd (true≢false (sym (soft refl)))
two_step_mono false false false false hard soft = ground arith

-- What a reason weighs.
abbrev pub severity : {F : Type 0} → Reason F → Verdict
severity (cost_appeared axis) = fail
severity (cost_regressed axis d v) = v
severity (cache_dropped d v) = v
severity (success_dropped d v) = v
severity (smell_appeared sd v) = v
severity within_thresholds = ok
severity new_scenario = ok
severity missing_scenario = warn

module _ {F : Type 0} where
  -- The verdict is the worst that the reasons weigh.
  unfoldable pub IsExplained : Findings F → Type 0
  IsExplained st = st.0 ≡ worst_of (map severity st.1)

  -- One axis of the ladder.
  abbrev two_steps : Bool → Bool → Reason F → Reason F → Findings F → Findings F
  two_steps hard soft r q st = if hard then bump fail r st else if soft then bump warn q st else st

  two_steps_lem :
      (hard soft : Bool) (r q : Reason F) (st : Findings F)
      → (two_steps hard soft r q st).0 ≡ worst st.0 (two_step hard soft)
  unfolding bump
  two_steps_lem true soft r q st = refl
  two_steps_lem false true r q st = refl
  two_steps_lem false false r q st = sym (worst_ok st.0)

  map-severity_append :
      (rs : List (Reason F)) (r : Reason F)
      → map severity (rs ++ r ∷ []) ≡ map severity rs ++ severity r ∷ []
  map-severity_append [] r = refl
  map-severity_append (x ∷ rs) r = ap (◌∷◌ (severity x)) (map-severity_append rs r)

  bump-IsExplained :
      (v : Verdict) (r : Reason F) (st : Findings F)
      → severity r ≡ v
      → IsExplained st
      → IsExplained (bump v r st)
  unfolding bump IsExplained
  bump-IsExplained v r st weighs h =
      rw (map-severity_append st.1 r, worst_of-append (map severity st.1) (severity r), weighs)
        (ap (λ w. worst w v) h)

  two_steps-IsExplained :
      (hard soft : Bool) (r q : Reason F) (st : Findings F)
      → severity r ≡ fail
      → severity q ≡ warn
      → IsExplained st
      → IsExplained (two_steps hard soft r q st)
  two_steps-IsExplained true soft r q st hr hq h = bump-IsExplained fail r st hr h
  two_steps-IsExplained false true r q st hr hq h = bump-IsExplained warn q st hq h
  two_steps-IsExplained false false r q st hr hq h = h

module _ (f : Float) where
  open f use {F}

  abbrev pub delta_severity : Thresholds F → Option F → Verdict
  delta_severity th none = ok
  delta_severity th (some d) = two_step (le f th.cost_fail d) (le f th.cost_warn d)

  abbrev pub cost_severity : Thresholds F → Option F → Bool → Verdict
  cost_severity th delta has_appeared = if has_appeared then fail else delta_severity th delta

  abbrev pub cache_severity : Thresholds F → Option F → Verdict
  cache_severity th none = ok
  cache_severity th (some d) =
      two_step (le f th.cache_fail (negated f d)) (le f th.cache_warn (negated f d))

  abbrev pub success_severity : Thresholds F → Option F → Verdict
  success_severity th none = ok
  success_severity th (some d) =
      two_step (le f th.outcome_fail (negated f d))
        (ltf f (zero_point f) (negated f d) && le f th.outcome_warn (negated f d))

  abbrev pub smell_severity : Thresholds F → Status → SmellDelta → Verdict
  smell_severity th appeared sd = smell_verdict f th sd
  smell_severity th _ sd = ok

  unfoldable pub smells_severity : Thresholds F → List SmellDelta → Verdict
  smells_severity th [] = ok
  smells_severity th (sd ∷ sds) = worst (smell_severity th sd.status sd) (smells_severity th sds)

  judge_delta_lem :
      (th : Thresholds F) (axis : Axis) (d : Option F) (st : Findings F)
      → ((judge_delta f th axis d st).0 ≡ worst st.0 (delta_severity th d))
        × (IsExplained st → IsExplained (judge_delta f th axis d st))
  unfolding judge_delta
  judge_delta_lem th axis none st = (sym (worst_ok st.0), λ h. h)
  judge_delta_lem th axis (some d) st = (
    two_steps_lem (le f th.cost_fail d) (le f th.cost_warn d) (cost_regressed axis d fail)
        (cost_regressed axis d warn) st,
    two_steps-IsExplained (le f th.cost_fail d) (le f th.cost_warn d) (cost_regressed axis d fail)
        (cost_regressed axis d warn) st refl refl,
  )

  pub judge_cost_lem :
      (th : Thresholds F) (axis : Axis) (d : Option F) (b : Bool) (st : Findings F)
      → ((judge_cost f th axis d b st).0 ≡ worst st.0 (cost_severity th d b))
        × (IsExplained st → IsExplained (judge_cost f th axis d b st))
  unfolding judge_cost
  judge_cost_lem th axis d true st = (
    two_steps_lem true true (cost_appeared axis) (cost_appeared axis) st,
    bump-IsExplained fail (cost_appeared axis) st refl,
  )
  judge_cost_lem th axis d false st = judge_delta_lem th axis d st

  pub judge_cache_lem :
      (th : Thresholds F) (d : Option F) (st : Findings F)
      → ((judge_cache f th d st).0 ≡ worst st.0 (cache_severity th d))
        × (IsExplained st → IsExplained (judge_cache f th d st))
  unfolding judge_cache
  judge_cache_lem th none st = (sym (worst_ok st.0), λ h. h)
  judge_cache_lem th (some d) st =
      let drop = negated f d in
      (
        two_steps_lem (le f th.cache_fail drop) (le f th.cache_warn drop) (cache_dropped drop fail)
            (cache_dropped drop warn) st,
        two_steps-IsExplained (le f th.cache_fail drop) (le f th.cache_warn drop)
            (cache_dropped drop fail) (cache_dropped drop warn) st refl refl,
      )

  pub judge_success_lem :
      (th : Thresholds F) (d : Option F) (st : Findings F)
      → ((judge_success f th d st).0 ≡ worst st.0 (success_severity th d))
        × (IsExplained st → IsExplained (judge_success f th d st))
  unfolding judge_success
  judge_success_lem th none st = (sym (worst_ok st.0), λ h. h)
  judge_success_lem th (some d) st =
      let drop = negated f d in
      let soft = ltf f (zero_point f) drop && le f th.outcome_warn drop in
      (
        two_steps_lem (le f th.outcome_fail drop) soft (success_dropped drop fail)
            (success_dropped drop warn) st,
        two_steps-IsExplained (le f th.outcome_fail drop) soft (success_dropped drop fail)
            (success_dropped drop warn) st refl refl,
      )

  judge_smell_lem :
      (th : Thresholds F) (sd : SmellDelta) (s : Status) (st : Findings F)
      → ((judge_smell f th sd s st).0 ≡ worst st.0 (smell_severity th s sd))
        × (IsExplained st → IsExplained (judge_smell f th sd s st))
  unfolding bump
  judge_smell_lem th sd appeared st = (
    refl,
    bump-IsExplained (smell_verdict f th sd) (smell_appeared sd (smell_verdict f th sd)) st refl,
  )
  judge_smell_lem th sd _ st = (sym (worst_ok st.0), λ h. h)

  pub judge_smells_lem :
      (th : Thresholds F) (sds : List SmellDelta) (st : Findings F)
      → ((judge_smells f th sds st).0 ≡ worst st.0 (smells_severity th sds))
        × (IsExplained st → IsExplained (judge_smells f th sds st))
  unfolding judge_smells smells_severity
  judge_smells_lem th [] st = (sym (worst_ok st.0), λ h. h)
  judge_smells_lem th (sd ∷ sds) st =
      let one = judge_smell_lem th sd sd.status st in
      let rest = judge_smells_lem th sds (judge_smell f th sd sd.status st) in
      (
        rest.0
            ∙ ap (λ v. worst v (smells_severity th sds)) one.0
            ∙ worst_assoc st.0 (smell_severity th sd.status sd) (smells_severity th sds),
        λ h. rest.1 (one.1 h),
      )
