-- ===== src/Contracts/Runtime/Outcomes.antt =====
-- `notify_outcome` of inkfoot/contracts/runtime.py: the window of outcomes that ends with the one just
-- reported.
use ink_foot.Prelude.Int.{pos, ◌-ℤ◌}
use ink_foot.Prelude.{
  ℕ, String, Bool, false, not, ◌&&◌, Option, none, some, List, [], ◌∷◌, str_eq, if◌then◌else◌,
}
use ink_foot.Prelude.Dict.{lookup}
use ink_foot.Prelude.Sort.{sort_by}
use ink_foot.Prelude.Lists.{take}
use ink_foot.Float.{Float}
use ink_foot.Value.{Value}
use ink_foot.Storage.{Store, Run, Event}
use ink_foot.Contracts.Schema.{Contract, OutcomeClause, resolved_outcome}
use ink_foot.Contracts.Enforcer.{ContractEnforcer, ContractViolation}
use ink_foot.Contracts.Enforcer.Record.{evaluate_outcome_window}
use ink_foot.Contracts.Runtime.{Facts, Runtime, facts_for_run, has_contract, emit_violations}

abbrev pub window_of : {F : Type 0} → Option (OutcomeClause F) → ℕ
window_of none = 100
window_of (some o) = o.measure_window_runs

abbrev pub window_in : {F : Type 0} → Option String → Option (Contract F) → ℕ
window_in tier none = 100
window_in tier (some c) = window_of (resolved_outcome c tier)

-- `_window_size`
unfoldable pub window_size : {F : Type 0} → ContractEnforcer F → Option String → Option String → ℕ
unfolding lookup
window_size e none tier = 100
window_size e (some task) tier = window_in tier (lookup task e.contracts)

abbrev pub of_task : Option String → String → Bool
of_task none t = false
of_task (some s) t = str_eq s t

abbrev pub projected : Run → List Run → List Run
projected r rest = elim r.totals.outcome [ none ↦ rest | some o ↦ r ∷ rest ]

-- `WHERE task = ? AND outcome IS NOT NULL AND id != ?`
unfoldable pub candidates : String → String → List Run → List Run
candidates task excluded [] = []
candidates task excluded (r ∷ rs) =
    let rest = candidates task excluded rs in
    if of_task r.task task && not (str_eq r.id excluded) then projected r rest else rest

abbrev pub outcomes : List Run → List String
outcomes [] = []
outcomes (r ∷ rs) = elim r.totals.outcome [ none ↦ outcomes rs | some o ↦ o ∷ outcomes rs ]

-- `_recent_outcomes`, the latest start first; runs that start at one time come in the table's order.
unfoldable pub recent_outcomes : Store → Option String → ℕ → String → List String
unfolding candidates sort_by
recent_outcomes s none limit excluded = []
recent_outcomes s (some task) limit excluded =
    outcomes (take limit (sort_by (λ r. pos 0 -ℤ r.started_at) (candidates task excluded s.runs)))

module _ (f : Float) (loads : String → Option (Value (f.F))) where
  open f use {F}

  abbrev pub judged : String → String → Facts × Runtime F → Option (ContractViolation F)
  judged run_id outcome ((task, tier), rt) =
      if has_contract task rt.enforcer
      then evaluate_outcome_window f task
          (outcome ∷ recent_outcomes rt.storage task (window_size rt.enforcer task tier) run_id)
          tier rt.enforcer
      else none

  -- The violation that a reported outcome completes, if any.
  unfoldable pub outcome_violation : String → String → Runtime F → Option (ContractViolation F)
  unfolding facts_for_run has_contract evaluate_outcome_window recent_outcomes window_size
  outcome_violation run_id outcome rt = judged run_id outcome (facts_for_run loads run_id rt)

  module _ (event_of : String → ContractViolation F → Store → Event) where
    abbrev pub noted : String → Option (ContractViolation F) → Runtime F → Runtime F
    noted run_id none rt = rt
    noted run_id (some v) rt = record rt {
      storage = emit_violations event_of run_id (v ∷ []) rt.storage;
    }

    -- `notify_outcome`, with an active enforcer
    unfoldable pub notify_outcome : String → String → Runtime F → Runtime F
    unfolding facts_for_run outcome_violation emit_violations
    notify_outcome run_id outcome rt =
        noted run_id (outcome_violation run_id outcome rt) (facts_for_run loads run_id rt).1
