-- ===== src/Contracts/Enforcer/Record.antt =====
-- `record_call` and `evaluate_outcome_window` of inkfoot/contracts/enforcer.py.
use ink_foot.Prelude.Int.{ℤ, pos, ◌+ℤ◌}
use ink_foot.Prelude.{
  ℕ, suc, ◌+◌, ◌≡◌, Bool, none, some, List, [], ◌∷◌, arith, str_eq, if◌then◌else◌,
}
use ink_foot.Float.{Float}
use ink_foot.Prelude.Dict.{lookup, insert}
use ink_foot.Prelude.Lists.{length, take}
use ink_foot.Contracts.Schema.{Contract, OutcomeClause, resolved_outcome}
use ink_foot.Contracts.Enforcer.{
  ContractEnforcer, ContractViolation, RunState, text_or, String, Option,
}

-- `if nanodollars: spent += int(nanodollars)`
abbrev pub cost_or_zero : Option ℤ → ℤ
cost_or_zero none = pos 0
cost_or_zero (some nd) = nd

-- The run's accounting after a call.
unfoldable pub charge : Option ℤ → Bool → RunState → RunState
charge nanodollars count_call s = record s {
  call_count = if count_call then s.call_count + 1 else s.call_count;
  spent_nanodollars = s.spent_nanodollars +ℤ cost_or_zero nanodollars;
}

-- A text that `if` takes for true.
abbrev pub truthy : Option String → Option String
truthy a = text_or a none

abbrev pub task_of : Option RunState → Option String
task_of none = none
task_of (some s) = some s.task

module _ (f : Float) where
  open f use {F, of_int, div_int, add, sub, mul, leb}

  -- `_OUTPUT_EWMA_ALPHA`
  abbrev pub alpha : F
  alpha = div_int (pos 3) 10

  unfoldable pub moved_average : Option F → ℤ → F
  moved_average none output = of_int output
  moved_average (some prev) output =
      add (mul alpha (of_int output)) (mul (sub (of_int (pos 1)) alpha) prev)

  abbrev pub observe_output : Option String → Option ℤ → ContractEnforcer F → ContractEnforcer F
  observe_output (some task) (some (pos (suc n))) e = record e {
    output_avg = insert task (moved_average (lookup task e.output_avg) (pos (suc n))) e.output_avg;
  }
  observe_output _ _ e = e

  abbrev pub charge_run :
      String → Option ℤ → Bool → Option RunState → ContractEnforcer F → ContractEnforcer F
  charge_run run_id nanodollars count_call none e = e
  charge_run run_id nanodollars count_call (some s) e = record e {
    runs = insert run_id (charge nanodollars count_call s) e.runs;
  }

  -- `ContractEnforcer.record_call`
  unfoldable pub record_call :
      String → Option ℤ → Option ℤ → Option String → Bool → ContractEnforcer F → ContractEnforcer F
  unfolding charge moved_average
  record_call run_id nanodollars output task count_call e =
      let s : Option RunState = lookup run_id e.runs in
      observe_output (truthy (text_or task (task_of s))) output
        (charge_run run_id nanodollars count_call s e)

  unfoldable pub successes : List String → ℕ
  successes [] = 0
  successes (o ∷ os) = (if str_eq o "success" then 1 else 0) + successes os

  -- The end of `evaluate_outcome_window`, on the window itself.
  unfoldable pub check_window : String → F → List String → Option (ContractViolation F)
  unfolding successes
  check_window task required [] = none
  check_window task required (o ∷ os) =
      let rate : F = div_int (pos (successes (o ∷ os))) (length (o ∷ os)) in
      if leb required rate
      then none
      else some (record {
        level = "outcome";
        clause_name = "required_success_rate";
        projected_value = rate;
        threshold = required;
        action = none;
        task = task;
      })

  abbrev pub on_outcome :
      String → List String → Option (OutcomeClause F) → Option (ContractViolation F)
  on_outcome task recent none = none
  on_outcome task recent (some o) = elim o.required_success_rate [
    | none ↦ none
    | some required ↦ check_window task required (take o.measure_window_runs recent)
  ]

  abbrev pub on_task :
      String → List String → Option String → Option (Contract F) → Option (ContractViolation F)
  on_task task recent tier none = none
  on_task task recent tier (some c) = on_outcome task recent (resolved_outcome c tier)

  -- `ContractEnforcer.evaluate_outcome_window`
  unfoldable pub evaluate_outcome_window :
      Option String
      → List String
      → Option String
      → ContractEnforcer F
      → Option (ContractViolation F)
  unfolding check_window
  evaluate_outcome_window none recent tier e = none
  evaluate_outcome_window (some task) recent tier e =
      on_task task recent tier (lookup task e.contracts)

  -- The average of a task is no part of the accounting.
  pub observe-runs :
      (o : Option String) (n : Option ℤ) (e : ContractEnforcer F)
      → (observe_output o n e).runs ≡ e.runs
  observe-runs o n e = ground arith

  pub observe-contracts :
      (o : Option String) (n : Option ℤ) (e : ContractEnforcer F)
      → (observe_output o n e).contracts ≡ e.contracts
  observe-contracts o n e = ground arith
