-- ===== src/Contracts/Schema.antt =====
-- The dataclasses of inkfoot/contracts/schema.py and the resolution of a tenant tier. `F` is the type
-- of floats. The limits are natural numbers, as the parser admits no negative one.
use ink_foot.Prelude.{ℕ, String, Option, none, some, List}
use ink_foot.Prelude.Int.{ℤ}
use ink_foot.Prelude.Dict.{Dict, lookup}

pub data DegradeAction : Type 0 where
  warn switch_to_cheap_model block : DegradeAction

pub record DegradeStep : Type 0 where
  pub at_percent : ℕ
  pub action : DegradeAction

pub record BudgetClause (F : Type 0) : Type 0 where
  pub max_nanodollars : Option ℕ
  pub max_llm_calls : Option ℕ
  pub max_tool_result_tokens : Option ℕ
  pub cache_hit_rate_min : Option F
  pub max_run_duration_seconds : Option ℕ

pub record OutcomeClause (F : Type 0) : Type 0 where
  pub required_success_rate : Option F
  pub measure_window_runs : ℕ

pub record Override (F : Type 0) : Type 0 where
  pub budget : Option (BudgetClause F)
  pub outcome : Option (OutcomeClause F)

pub record Contract (F : Type 0) : Type 0 where
  pub schema_version : ℤ
  pub task : String
  pub budget : Option (BudgetClause F)
  pub outcome : Option (OutcomeClause F)
  pub degrade : List DegradeStep
  pub cheap_model : Option String
  pub overrides : Dict (Override F)

-- `_pick`
abbrev pub pick : {A : Type 0} → Option A → Option A → Option A
pick (some a) b = some a
pick none b = b

-- The part of `resolved_budget` and `resolved_outcome` that layers one clause over another.
abbrev pub layer : {C : Type 0} → (C → C → C) → Option C → Option C → Option C
layer merge base none = base
layer merge none (some over) = some over
layer merge (some base) (some over) = some (merge base over)

module _ {F : Type 0} where
  -- `BudgetClause.merge`: each field that `over` sets wins.
  unfoldable pub merge_budget : BudgetClause F → BudgetClause F → BudgetClause F
  merge_budget base over = record {
    max_nanodollars = pick over.max_nanodollars base.max_nanodollars;
    max_llm_calls = pick over.max_llm_calls base.max_llm_calls;
    max_tool_result_tokens = pick over.max_tool_result_tokens base.max_tool_result_tokens;
    cache_hit_rate_min = pick over.cache_hit_rate_min base.cache_hit_rate_min;
    max_run_duration_seconds = pick over.max_run_duration_seconds base.max_run_duration_seconds;
  }

  -- `OutcomeClause.merge`: the window of `over` is an int and never `None`, so it always wins.
  unfoldable pub merge_outcome : OutcomeClause F → OutcomeClause F → OutcomeClause F
  merge_outcome base over = record {
    required_success_rate = pick over.required_success_rate base.required_success_rate;
    measure_window_runs = over.measure_window_runs;
  }

  abbrev pub budget_of : Option (Override F) → Option (BudgetClause F)
  budget_of none = none
  budget_of (some o) = o.budget

  abbrev pub outcome_of : Option (Override F) → Option (OutcomeClause F)
  outcome_of none = none
  outcome_of (some o) = o.outcome

  -- `self.overrides.get(tier)`, for a tier that may be absent
  abbrev pub override_for : Contract F → Option String → Option (Override F)
  override_for c none = none
  override_for c (some tier) = lookup tier c.overrides

  unfoldable pub resolved_budget : Contract F → Option String → Option (BudgetClause F)
  unfolding merge_budget
  resolved_budget c tier = layer merge_budget c.budget (budget_of (override_for c tier))

  unfoldable pub resolved_outcome : Contract F → Option String → Option (OutcomeClause F)
  unfolding merge_outcome
  resolved_outcome c tier = layer merge_outcome c.outcome (outcome_of (override_for c tier))
