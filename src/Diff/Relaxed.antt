-- ===== src/Diff/Relaxed.antt =====
-- The verdict of inkfoot/diff/compare.py under more lenient thresholds, and against its reasons.
use ink_foot.Prelude.{
  ◌≤◌, ◌≡◌, refl, ap, ◌∙◌, Bool, true, false, ◌&&◌, Option, none, some, List, [], ◌∷◌, map, arith,
  if◌then◌else◌,
}
use ink_foot.Float.{Float, ltf}
use ink_foot.Diff.{
  Verdict, ok, fail, rank, worst, p50, p95, Status, appeared, warn, SmellDelta, Thresholds,
  Findings, le, zero_point, negated, judge_cost, judge_cache, judge_success, judge_smells,
  or_within, verdict, elem,
}
use ink_foot.Diff.WorstOf.{worst_of, worst_mono}
use ink_foot.Diff.Severity.{
  two_step_mono, severity, IsExplained, cost_severity, cache_severity, success_severity,
  smell_severity, smells_severity, judge_cost_lem, judge_cache_lem, judge_success_lem,
  judge_smells_lem,
}

module _ (f : Float) where
  open f use {F, leb_trans}

  -- The worst of the severities on the five axes.
  unfoldable pub severity_of :
      Thresholds F
      → Option F
      → Option F
      → Option F
      → Option F
      → List SmellDelta
      → Bool
      → Bool
      → Verdict
  severity_of th d50 d95 cache success smells a50 a95 =
      worst
        (worst
          (worst (worst (worst ok (cost_severity f th d50 a50)) (cost_severity f th d95 a95))
            (cache_severity f th cache))
          (success_severity f th success))
        (smells_severity f th smells)

  or_within_lem :
      (st : Findings F)
      → ((or_within f st).0 ≡ st.0) × (IsExplained st → IsExplained (or_within f st))
  unfolding IsExplained worst_of
  or_within_lem (v, []) = (refl, λ h. h)
  or_within_lem (v, r ∷ rs) = (refl, λ h. h)

  -- The verdict on a scenario is the worst of the severities on its axes, and also the worst that
  -- the reasons given for it weigh.
  pub verdict-IsExplained :
      (th : Thresholds F) (d50 d95 cache success : Option F) (smells : List SmellDelta)
      (a50 a95 : Bool)
      → let v = verdict f th d50 d95 cache success smells a50 a95 in
        (v.0 ≡ severity_of th d50 d95 cache success smells a50 a95)
        × (v.0 ≡ worst_of (map severity v.1))
  unfolding verdict severity_of IsExplained worst_of
  verdict-IsExplained th d50 d95 cache success smells a50 a95 =
      let first = judge_cost f th p50 d50 a50 (ok, []) in
      let costs = judge_cost f th p95 d95 a95 first in
      let cached = judge_cache f th cache costs in
      let judged = judge_success f th success cached in
      let h1 = judge_cost_lem f th p50 d50 a50 (ok, []) in
      let h2 = judge_cost_lem f th p95 d95 a95 first in
      let h3 = judge_cache_lem f th cache costs in
      let h4 = judge_success_lem f th success cached in
      let h5 = judge_smells_lem f th smells judged in
      let last = or_within_lem (judge_smells f th smells judged) in
      (
        last.0 ∙ rw (h5.0, h4.0, h3.0, h2.0, h1.0) refl,
        last.1 (h5.1 (h4.1 (h3.1 (h2.1 (h1.1 refl))))),
      )

  -- The second thresholds are no lower, for the same critical smells.
  pub record Relaxes (th th' : Thresholds F) : Type 0 where
    pub cost_warn : le f th.cost_warn th'.cost_warn ≡ true
    pub cost_fail : le f th.cost_fail th'.cost_fail ≡ true
    pub cache_warn : le f th.cache_warn th'.cache_warn ≡ true
    pub cache_fail : le f th.cache_fail th'.cache_fail ≡ true
    pub outcome_warn : le f th.outcome_warn th'.outcome_warn ≡ true
    pub outcome_fail : le f th.outcome_fail th'.outcome_fail ≡ true
    pub critical_smells : th'.critical_smells ≡ th.critical_smells

  module _ (th th' : Thresholds F) (relaxed : Relaxes th th') where
    cost_lem :
        (d : Option F) (b : Bool) → rank (cost_severity f th' d b) ≤ rank (cost_severity f th d b)
    cost_lem d true = ground arith
    cost_lem none false = ground arith
    cost_lem (some d) false =
        two_step_mono _ _ _ _ (leb_trans _ _ _ relaxed.cost_fail)
          (leb_trans _ _ _ relaxed.cost_warn)

    cache_lem : (d : Option F) → rank (cache_severity f th' d) ≤ rank (cache_severity f th d)
    cache_lem none = ground arith
    cache_lem (some d) =
        two_step_mono _ _ _ _ (leb_trans _ _ _ relaxed.cache_fail)
          (leb_trans _ _ _ relaxed.cache_warn)

    both_mono : (a b b' : Bool) → (b' ≡ true → b ≡ true) → a && b' ≡ true → a && b ≡ true
    both_mono true b b' h k = h k
    both_mono false b b' h k = k

    success_lem : (d : Option F) → rank (success_severity f th' d) ≤ rank (success_severity f th d)
    success_lem none = ground arith
    success_lem (some d) =
        two_step_mono _ _ _ _ (leb_trans _ _ _ relaxed.outcome_fail) (
          both_mono (ltf f (zero_point f) (negated f d)) _ _ (leb_trans _ _ _ relaxed.outcome_warn))

    smell_lem :
        (s : Status) (sd : SmellDelta) → smell_severity f th' s sd ≡ smell_severity f th s sd
    smell_lem appeared sd = ap (λ c. if elem sd.id c then fail else warn) relaxed.critical_smells
    smell_lem _ sd = refl

    smells_lem : (sds : List SmellDelta) → smells_severity f th' sds ≡ smells_severity f th sds
    unfolding smells_severity
    smells_lem [] = refl
    smells_lem (sd ∷ sds) = rw (smell_lem sd.status sd, smells_lem sds) refl

    -- Thresholds that are no lower, with the same critical smells, never give a worse verdict.
    pub verdict_relaxed :
        (d50 d95 cache success : Option F) (smells : List SmellDelta) (a50 a95 : Bool)
        → rank (verdict f th' d50 d95 cache success smells a50 a95).0
          ≤ rank (verdict f th d50 d95 cache success smells a50 a95).0
    unfolding severity_of
    verdict_relaxed d50 d95 cache success smells a50 a95 =
        rw
          (
            (verdict-IsExplained th' d50 d95 cache success smells a50 a95).0,
            (verdict-IsExplained th d50 d95 cache success smells a50 a95).0,
            smells_lem smells,
          )
          (worst_mono _ _ _ _
            (worst_mono _ _ _ _
              (worst_mono _ _ _ _
                (worst_mono _ _ _ _ (worst_mono _ _ _ _ (omega arith) (cost_lem d50 a50))
                  (cost_lem d95 a95))
                (cache_lem cache))
              (success_lem success))
            (omega arith))
