-- ===== src/Contracts/Runtime/OutcomeRace.antt =====
-- `notify_outcome` of inkfoot/contracts/runtime.py against the background aggregator.
use ink_foot.Prelude.Int.{pos, ◌-ℤ◌}
use ink_foot.Prelude.{
  ℕ, String, ◌≡◌, refl, sym, ap, ◌∙◌, Bool, true, false, not, ◌&&◌, Option, none, some, List, [],
  ◌∷◌, arith, str_eq, if◌then◌else◌, inl, inr, Option-cases,
}
use ink_foot.Prelude.Dict.{lookup}
use ink_foot.Prelude.Sort.{sort_by}
use ink_foot.Prelude.Lists.{take}
use ink_foot.Float.{Float}
use ink_foot.Value.{Value}
use ink_foot.Storage.{
  Store, Run, Totals, find_run, update_run, get_run, set_dirty, set_totals, claim_clean,
  write_totals, update_aggregates,
}
use ink_foot.Contracts.Enforcer.Record.{evaluate_outcome_window}
use ink_foot.Contracts.Runtime.{Facts, Runtime, facts_for_run, facts_of_row, has_contract}
use ink_foot.Contracts.Runtime.Outcomes.{
  of_task, projected, candidates, outcomes, recent_outcomes, window_size, judged, outcome_violation,
}

-- What a change of a run's row leaves alone.
record SameRun (g : Run → Run) : Type 0 where
  id : (r : Run) → (g r).id ≡ r.id
  task : (r : Run) → (g r).task ≡ r.task
  metadata : (r : Run) → (g r).metadata_json ≡ r.metadata_json

set_dirty-SameRun : (b : Bool) → SameRun (set_dirty b)
set_dirty-SameRun b = record { id = λ r. refl; task = λ r. refl; metadata = λ r. refl }

set_totals-SameRun : (t : Totals) → SameRun (set_totals t)
set_totals-SameRun t = record { id = λ r. refl; task = λ r. refl; metadata = λ r. refl }

-- The run that reports is left out of its own window.
candidates-update_run :
    (task run_id : String) (g : Run → Run) (rs : List Run)
    → SameRun g
    → candidates task run_id (update_run run_id g rs) ≡ candidates task run_id rs
unfolding candidates update_run
candidates-update_run task run_id g [] same = refl
candidates-update_run task run_id g (r ∷ rs) same =
    rw (candidates-update_run task run_id g rs same) (own_or_not (str_eq r.id run_id) refl)
  where
    kept : List Run → Run → List Run
    kept rest x = if of_task x.task task && not (str_eq x.id run_id) then projected x rest else rest

    left_out : (x : Run) (rest : List Run) → str_eq x.id run_id ≡ true → kept rest x ≡ rest
    left_out x rest own = rw own (ground arith)

    own_or_not :
        (own : Bool)
        → str_eq r.id run_id ≡ own
        → kept (candidates task run_id rs) (if own then g r else r)
          ≡ kept (candidates task run_id rs) r
    own_or_not false e = refl
    own_or_not true e =
        left_out (g r) _ (ap (λ k. str_eq k run_id) (same.id r) ∙ e) ∙ sym (left_out r _ e)

module _ {F : Type 0} (loads : String → Option (Value F)) where
  facts_of_row-update_run :
      (k run_id : String) (g : Run → Run) (rs : List Run)
      → SameRun g
      → facts_of_row loads (find_run k (update_run run_id g rs))
        ≡ facts_of_row loads (find_run k rs)
  unfolding find_run update_run
  facts_of_row-update_run k run_id g [] same = refl
  facts_of_row-update_run k run_id g (r ∷ rs) same =
      own_or_not (str_eq r.id run_id) (facts_of_row-update_run k run_id g rs same)
    where
      pick :
          (x : Run) (b c : Bool)
          → b ≡ c
          → x.task ≡ r.task
          → x.metadata_json ≡ r.metadata_json
          → facts_of_row loads (find_run k (update_run run_id g rs))
            ≡ facts_of_row loads (find_run k rs)
          → facts_of_row loads (if b then some x else find_run k (update_run run_id g rs))
            ≡ facts_of_row loads (if c then some r else find_run k rs)
      pick x true true e task metadata rest = rw (task, metadata) refl
      pick x true false e task metadata rest = cc e
      pick x false true e task metadata rest = cc e
      pick x false false e task metadata rest = rest

      own_or_not :
          (own : Bool)
          → facts_of_row loads (find_run k (update_run run_id g rs))
            ≡ facts_of_row loads (find_run k rs)
          → facts_of_row loads (
              if str_eq (if own then g r else r).id k
              then some (if own then g r else r)
              else find_run k (update_run run_id g rs))
            ≡ facts_of_row loads (if str_eq r.id k then some r else find_run k rs)
      own_or_not true rest =
          pick (g r) (str_eq (g r).id k) (str_eq r.id k) (ap (λ i. str_eq i k) (same.id r))
            (same.task r) (same.metadata r) rest
      own_or_not false rest = pick r (str_eq r.id k) (str_eq r.id k) refl refl refl rest

abbrev updated : {F : Type 0} → String → (Run → Run) → Runtime F → Runtime F
updated run_id g rt = record rt {
  storage = record (rt.storage) { runs = update_run run_id g rt.storage.runs };
}

abbrev then_updated : {F : Type 0} → String → (Run → Run) → Facts × Runtime F → Facts × Runtime F
then_updated run_id g (facts, rt) = (facts, updated run_id g rt)

facts_for_run-updated :
    {F : Type 0} (loads : String → Option (Value F)) (run_id : String) (g : Run → Run)
    (rt : Runtime F)
    → SameRun g
    → facts_for_run loads run_id (updated run_id g rt)
      ≡ then_updated run_id g (facts_for_run loads run_id rt)
unfolding facts_for_run get_run
facts_for_run-updated loads run_id g rt same = elim (Option-cases (lookup run_id rt.run_facts)) [
  | inl unknown ↦
      rw
        (unknown, facts_for_run, facts_of_row-update_run loads run_id run_id g rt.storage.runs same)
        refl
  | inr (facts, known) ↦ rw (known, facts_for_run) refl
]

recent_outcomes-updated :
    {F : Type 0} (task : Option String) (limit : ℕ) (run_id : String) (g : Run → Run)
    (rt : Runtime F)
    → SameRun g
    → recent_outcomes (updated run_id g rt).storage task limit run_id
      ≡ recent_outcomes rt.storage task limit run_id
unfolding recent_outcomes
recent_outcomes-updated none limit run_id g rt same = refl
recent_outcomes-updated (some task) limit run_id g rt same =
    ap (λ rows. outcomes (take limit (sort_by (λ r. pos 0 -ℤ r.started_at) rows)))
      (candidates-update_run task run_id g rt.storage.runs same)

module _ (f : Float) (loads : String → Option (Value (f.F))) where
  open f use {F}

  judged-updated :
      (run_id outcome : String) (g : Run → Run) (known : Facts × Runtime F)
      → SameRun g
      → judged f loads run_id outcome (then_updated run_id g known)
        ≡ judged f loads run_id outcome known
  judged-updated run_id outcome g ((task, tier), rt) same =
      ap
        (λ recent.
          if has_contract task rt.enforcer
          then evaluate_outcome_window f task (outcome ∷ recent) tier rt.enforcer
          else none)
        (recent_outcomes-updated task (window_size rt.enforcer task tier) run_id g rt same)

  outcome_violation-updated :
      (run_id outcome : String) (g : Run → Run) (rt : Runtime F)
      → SameRun g
      → outcome_violation f loads run_id outcome (updated run_id g rt)
        ≡ outcome_violation f loads run_id outcome rt
  unfolding outcome_violation
  outcome_violation-updated run_id outcome g rt same =
      ap (judged f loads run_id outcome) (facts_for_run-updated loads run_id g rt same)
      ∙ judged-updated run_id outcome g (facts_for_run loads run_id rt) same

  abbrev with_store : Runtime F → Store → Runtime F
  with_store rt s = record rt { storage = s }

  outcome_violation-claim_clean :
      (run_id outcome : String) (rt : Runtime F)
      → outcome_violation f loads run_id outcome (with_store rt (claim_clean run_id rt.storage).1)
        ≡ outcome_violation f loads run_id outcome rt
  unfolding claim_clean
  outcome_violation-claim_clean run_id outcome rt =
      elim (Option-cases (find_run run_id rt.storage.runs)) [
        | inl absent ↦ rw (absent, claim_clean) refl
        | inr (r, found) ↦
            rw (found, claim_clean)
              (outcome_violation-updated run_id outcome (set_dirty false) rt
                (set_dirty-SameRun false))
      ]

  -- Whether an outcome that a run reports completes a violation does not depend on whether the
  -- aggregator has claimed this run's row and written its totals yet, whichever they are. The rows of other
  -- runs are the same on both sides.
  pub outcome_violation-update_aggregates :
      (run_id outcome : String) (t : Totals) (rt : Runtime F)
      → outcome_violation f loads run_id outcome
          (record rt { storage = (update_aggregates run_id t rt.storage).1 })
        ≡ outcome_violation f loads run_id outcome rt
  unfolding update_aggregates write_totals
  outcome_violation-update_aggregates run_id outcome t rt =
      written (claim_clean run_id rt.storage).0 ∙ outcome_violation-claim_clean run_id outcome rt
    where
      written :
          (claimed : Bool)
          → outcome_violation f loads run_id outcome (
              with_store rt (
                if claimed
                then write_totals run_id t (claim_clean run_id rt.storage).1
                else (claim_clean run_id rt.storage).1))
            ≡ outcome_violation f loads run_id outcome
                (with_store rt (claim_clean run_id rt.storage).1)
      written true =
          outcome_violation-updated run_id outcome (set_totals t)
            (with_store rt (claim_clean run_id rt.storage).1) (set_totals-SameRun t)
      written false = refl
