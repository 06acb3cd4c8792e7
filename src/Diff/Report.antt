-- ===== src/Diff/Report.antt =====
-- The report of `compare_artifacts` of inkfoot/diff/compare.py.
use ink_foot.Prelude.{
  String, ◌≡◌, refl, sym, ap, ◌∙◌, inl, inr, Bool, true, false, ◌||◌, Option, none, some, List, [],
  ◌∷◌, ◌++◌, map, arith, eq_iff, eq_refl, str_eq, Bool-cases, Option-cases,
}
use Prim.Native.Nat.{Ordering}
use Prim.Native.String.{compare, same}
use ink_foot.Float.{Float}
use ink_foot.Prelude.Lists.{All}
use ink_foot.Prelude.Dict.{Dict, lookup}
use mathlib.Core.Path.{subst}
use mathlib.Core.Option.{some-injective, none-ne-some}
use ink_foot.Diff.{Verdict, worst, Thresholds}
use ink_foot.Diff.WorstOf.{worst_of, worst_of-append}
use ink_foot.Diff.Compare.{
  insert_key, sorted_set, keys, by_task, diff_scenario, record_diff, compare_loop, empty_report,
  compare_artifacts,
}
use ink_foot.Diff.Artifacts.{ScenarioResult, BenchmarkArtifact, ScenarioDiff, DiffReport}

abbrev pub verdicts : {F : Type 0} → List (ScenarioDiff F) → List Verdict
verdicts = map (λ d. d.verdict)

verdicts-append :
    {F : Type 0} (ds : List (ScenarioDiff F)) (d : ScenarioDiff F)
    → verdicts (ds ++ d ∷ []) ≡ verdicts ds ++ d.verdict ∷ []
verdicts-append [] d = refl
verdicts-append (x ∷ ds) d = ap (◌∷◌ x.verdict) (verdicts-append ds d)

abbrev pub has_key : {A : Type 0} → String → Dict A → Bool
has_key k d = elim (lookup k d) [ none ↦ false | some v ↦ true ]

placed-All :
    (P : String → Type 0) (k j : String) (js js' : List String) (o : Ordering)
    → P k
    → All P (j ∷ js)
    → All P js'
    → All P (elim o [ Ordering.lt ↦ k ∷ j ∷ js | Ordering.eq ↦ j ∷ js | Ordering.gt ↦ j ∷ js' ])
placed-All P k j js js' Ordering.lt p h rest = (p, h)
placed-All P k j js js' Ordering.eq p h rest = h
placed-All P k j js js' Ordering.gt p h rest = (h.0, rest)

insert_key-All :
    (P : String → Type 0) (k : String) (js : List String) → P k → All P js → All P (insert_key k js)
insert_key-All P k [] p h = (p, tt)
insert_key-All P k (j ∷ js) p h =
    placed-All P k j js (insert_key k js) (compare k j) p h (insert_key-All P k js p h.1)

sorted_set-All : (P : String → Type 0) (ks : List String) → All P ks → All P (sorted_set ks)
sorted_set-All P [] h = tt
sorted_set-All P (k ∷ ks) h = insert_key-All P k (sorted_set ks) h.0 (sorted_set-All P ks h.1)

module _ (f : Float) where
  open f use {F}

  -- The verdict so far is the worst of the scenarios so far.
  abbrev IsWorst : DiffReport F → Type 0
  IsWorst r = r.verdict ≡ worst_of (verdicts r.scenario_diffs)

  compare_loop_step :
      (th : Thresholds F) (base cur : Dict (ScenarioResult F)) (k : String) (ks : List String)
      (r : DiffReport F) (d : ScenarioDiff F)
      → diff_scenario f k (lookup k base) (lookup k cur) th ≡ some d
      → compare_loop f th base cur (k ∷ ks) r ≡ compare_loop f th base cur ks (record_diff f d r)
  unfolding compare_loop
  compare_loop_step th base cur k ks r d n = rw (n, compare_loop) refl

  compare_loop_stuck :
      (th : Thresholds F) (base cur : Dict (ScenarioResult F)) (k : String) (ks : List String)
      (r : DiffReport F)
      → diff_scenario f k (lookup k base) (lookup k cur) th ≡ none
      → compare_loop f th base cur (k ∷ ks) r ≡ none
  unfolding compare_loop
  compare_loop_stuck th base cur k ks r n = rw (n, compare_loop) refl

  record_diff-IsWorst :
      (d : ScenarioDiff F) (r : DiffReport F) → IsWorst r → IsWorst (record_diff f d r)
  record_diff-IsWorst d r h =
      rw (verdicts-append r.scenario_diffs d, worst_of-append (verdicts r.scenario_diffs) d.verdict)
        (ap (λ v. worst v d.verdict) h)

  compare_loop-IsWorst :
      (th : Thresholds F) (base cur : Dict (ScenarioResult F)) (ks : List String)
      (r r' : DiffReport F)
      → IsWorst r
      → compare_loop f th base cur ks r ≡ some r'
      → IsWorst r'
  unfolding compare_loop
  compare_loop-IsWorst th base cur [] r r' h e = subst (λ v. IsWorst v) (some-injective _ _ e) h
  compare_loop-IsWorst th base cur (k ∷ ks) r r' h e =
      elim (Option-cases (diff_scenario f k (lookup k base) (lookup k cur) th)) [
        | inl n ↦ absurd (none-ne-some _ (sym (compare_loop_stuck th base cur k ks r n) ∙ e))
        | inr (d, n) ↦
            compare_loop-IsWorst th base cur ks (record_diff f d r) r' (record_diff-IsWorst d r h)
              (sym (compare_loop_step th base cur k ks r d n) ∙ e)
      ]

  -- The tasks of both artefacts.
  abbrev tasks : BenchmarkArtifact F → BenchmarkArtifact F → List String
  tasks baseline current =
      sorted_set (keys (by_task baseline.scenarios []) ++ keys (by_task current.scenarios []))

  compare_artifacts-same :
      (baseline current : BenchmarkArtifact F) (th : Thresholds F)
      → str_eq baseline.schema_version current.schema_version ≡ true
      → compare_artifacts f baseline current th
        ≡ compare_loop f th
            (by_task baseline.scenarios [])
            (by_task current.scenarios [])
            (tasks baseline current)
            (empty_report f baseline current th)
  unfolding compare_artifacts
  compare_artifacts-same baseline current th v = rw (v, compare_artifacts) refl

  compare_artifacts-mismatch :
      (baseline current : BenchmarkArtifact F) (th : Thresholds F)
      → str_eq baseline.schema_version current.schema_version ≡ false
      → compare_artifacts f baseline current th ≡ none
  unfolding compare_artifacts
  compare_artifacts-mismatch baseline current th v = rw (v, compare_artifacts) refl

  -- The verdict of a report, and so the exit code, is the worst of its scenarios': `fail` if a scenario
  -- fails, or else `warn` if one warns.
  pub compare_artifacts-IsWorst :
      (baseline current : BenchmarkArtifact F) (th : Thresholds F) (r : DiffReport F)
      → compare_artifacts f baseline current th ≡ some r
      → r.verdict ≡ worst_of (verdicts r.scenario_diffs)
  unfolding worst_of
  compare_artifacts-IsWorst baseline current th r e =
      elim (Bool-cases (str_eq baseline.schema_version current.schema_version)) [
        | inl v ↦
            compare_loop-IsWorst th (by_task baseline.scenarios []) (by_task current.scenarios [])
              (tasks baseline current) (empty_report f baseline current th) r refl
              (sym (compare_artifacts-same baseline current th v) ∙ e)
        | inr v ↦
            absurd (none-ne-some _ (sym (compare_artifacts-mismatch baseline current th v) ∙ e))
      ]

  -- A task that one of the artefacts has.
  abbrev IsPresent : Dict (ScenarioResult F) → Dict (ScenarioResult F) → String → Type 0
  IsPresent base cur k = has_key k base || has_key k cur ≡ true

  diff_scenario-present :
      (k : String) (b c : Option (ScenarioResult F)) (th : Thresholds F)
      → (elim b [ none ↦ false | some v ↦ true ]) || (elim c [ none ↦ false | some v ↦ true ])
        ≡ true
      → (d : ScenarioDiff F) × (diff_scenario f k b c th ≡ some d)
  unfolding diff_scenario
  diff_scenario-present k none none th h = ground arith
  diff_scenario-present k none (some c) th h = (_, refl)
  diff_scenario-present k (some b) none th h = (_, refl)
  diff_scenario-present k (some b) (some c) th h = (_, refl)

  compare_loop-returns :
      (th : Thresholds F) (base cur : Dict (ScenarioResult F)) (ks : List String) (r : DiffReport F)
      → All (IsPresent base cur) ks
      → (r' : DiffReport F) × (compare_loop f th base cur ks r ≡ some r')
  unfolding compare_loop
  compare_loop-returns th base cur [] r h = (r, refl)
  compare_loop-returns th base cur (k ∷ ks) r h =
      let (d, n) = diff_scenario-present k (lookup k base) (lookup k cur) th h.0 in
      let (r', e) = compare_loop-returns th base cur ks (record_diff f d r) h.1 in
      (r', compare_loop_step th base cur k ks r d n ∙ e)

  wider_keys :
      (j : String) (v : ScenarioResult F) (d : Dict (ScenarioResult F)) (ks : List String)
      → All (λ k. has_key k d ≡ true) ks
      → All (λ k. has_key k ((j, v) ∷ d) ≡ true) ks
  unfolding lookup
  wider_keys j v d [] h = tt
  wider_keys j v d (k ∷ ks) h = (
    elim (Bool-cases (str_eq j k)) [ inl e ↦ rw (e, has_key) refl | inr e ↦ rw (e, has_key) h.0 ],
    wider_keys j v d ks h.1,
  )

  keys_present : (d : Dict (ScenarioResult F)) → All (λ k. has_key k d ≡ true) (keys d)
  unfolding lookup
  keys_present [] = tt
  keys_present ((j, v) ∷ d) =
      (rw (eq_refl j, has_key) refl, wider_keys j v d (keys d) (keys_present d))

  left-IsPresent :
      (base cur : Dict (ScenarioResult F)) (ks : List String)
      → All (λ k. has_key k base ≡ true) ks
      → All (IsPresent base cur) ks
  left-IsPresent base cur [] h = tt
  left-IsPresent base cur (k ∷ ks) h = (rw h.0 refl, left-IsPresent base cur ks h.1)

  right-IsPresent :
      (base cur : Dict (ScenarioResult F)) (ks : List String)
      → All (λ k. has_key k cur ≡ true) ks
      → All (IsPresent base cur) ks
  right-IsPresent base cur [] h = tt
  right-IsPresent base cur (k ∷ ks) h =
      (either (has_key k base) (has_key k cur) h.0, right-IsPresent base cur ks h.1)
    where
      either : (a b : Bool) → b ≡ true → a || b ≡ true
      either true b p = refl
      either false b p = p

  append-IsPresent :
      (base cur : Dict (ScenarioResult F)) (ks ls : List String)
      → All (IsPresent base cur) ks
      → All (IsPresent base cur) ls
      → All (IsPresent base cur) (ks ++ ls)
  append-IsPresent base cur [] ls h k = k
  append-IsPresent base cur (j ∷ ks) ls h k = (h.0, append-IsPresent base cur ks ls h.1 k)

  -- Artefacts of one schema version are always compared: no task of either one is missing from both.
  pub compare_artifacts-returns :
      (baseline current : BenchmarkArtifact F) (th : Thresholds F)
      → baseline.schema_version ≡ current.schema_version
      → (r : DiffReport F) × (compare_artifacts f baseline current th ≡ some r)
  compare_artifacts-returns baseline current th same =
      let base : Dict (ScenarioResult F) = by_task baseline.scenarios [] in
      let cur : Dict (ScenarioResult F) = by_task current.scenarios [] in
      let (r, e) =
        compare_loop-returns th base cur (tasks baseline current)
          (empty_report f baseline current th)
          (sorted_set-All (IsPresent base cur) (keys base ++ keys cur) (
            append-IsPresent base cur (keys base) (keys cur)
              (left-IsPresent base cur (keys base) (keys_present base))
              (right-IsPresent base cur (keys cur) (keys_present cur)))) in
      (
        r,
        compare_artifacts-same baseline current th
              ((eq_iff baseline.schema_version current.schema_version).1 same)
            ∙ e,
      )
