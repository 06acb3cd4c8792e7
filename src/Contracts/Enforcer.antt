-- ===== src/Contracts/Enforcer.antt =====
-- `ContractEnforcer` of inkfoot/contracts/enforcer.py. Each method is one function on the enforcer's
-- state, with nothing of another thread in between. The lock makes the methods atomic, but for
-- `before_call`: there the code holds it to read the run's account and to note a fired rung, and estimates
-- and decides in between, so that a call which overlaps with another one may be judged by an older account.
pub mod Record
pub mod Ceiling
pub mod Isolation
pub mod Accounts
pub mod Session
use ink_foot.Prelude.Int.{ℤ, pos, negsuc, ◌+ℤ◌, ◌-ℤ◌, ◌≤ℤ◌, ltb_ℤ, leb_ℤ}
use ink_foot.Prelude.{
  ℕ, zero, suc, ◌+◌, ◌-◌, ◌*◌, ◌/◌, ◌%◌, ◌≤◌, ◌<◌, String, ◌≡◌, refl, sym, ap, ◌∙◌, ◌≢◌, ◌⊎◌, inl,
  inr, Bool, true, false, not, ◌&&◌, ◌||◌, Option, none, some, List, [], ◌∷◌, ◌++◌, map, arith,
  eq_iff, eq_refl, ltb, leb, ◌==◌, str_eq, if◌then◌else◌, Bool-cases, Option-cases,
}
use ink_foot.Float.{Float}
use ink_foot.Prelude.Dict.{Dict, lookup, insert, remove}
use ink_foot.Value.{Fields}
use ink_foot.Contracts.Schema.{
  DegradeAction, warn, switch_to_cheap_model, block, DegradeStep, BudgetClause, OutcomeClause,
  Contract, resolved_budget, resolved_outcome,
}
use ink_foot.Contracts.Ladder.{Dimension, worst_dimension, ladder_step_for, level_for}
use ink_foot.Contracts.Estimator.{Tokens, Memo, estimate_call}

pub record ContractViolation (F : Type 0) : Type 0 where
  pub level : String
  pub clause_name : String
  pub projected_value : F
  pub threshold : F
  pub action : Option DegradeAction
  pub task : String

pub data Decision : Type 0 where
  allow warned switched blocked : Decision

pub record EnforcementOutcome (F : Type 0) : Type 0 where
  pub action : Decision
  pub new_model : Option String
  pub violations : List (ContractViolation F)

-- `_RunState`
pub record RunState : Type 0 where
  pub task : String
  pub tier : Option String
  pub call_count : ℕ
  pub spent_nanodollars : ℤ
  pub fired_percents : List ℕ

abbrev pub new_run : String → Option String → RunState
new_run task tier = record {
  task = task;
  tier = tier;
  call_count = 0;
  spent_nanodollars = pos 0;
  fired_percents = [];
}

pub record ContractEnforcer (F : Type 0) : Type 0 where
  pub contracts : Dict (Contract F)
  pub default_cheap_model : Option String
  pub runs : Dict RunState
  pub output_avg : Dict F
  pub token_cache : Memo

-- `percent in fired_percents`
abbrev pub fired : ℕ → List ℕ → Bool
fired p [] = false
fired p (q ∷ qs) = if q == p then true else fired p qs

-- `a or b`, of texts that may be `None`; the empty text counts as none.
abbrev pub text_or : Option String → Option String → Option String
text_or none b = b
text_or (some a) b = if str_eq a "" then b else some a

-- The run's state, new if the run is not tracked.
abbrev pub state_or_new : String → Option String → Option RunState → RunState
state_or_new task tier none = new_run task tier
state_or_new task tier (some s) = s

module _ {F : Type 0} where
  abbrev pub allow_outcome : EnforcementOutcome F
  allow_outcome = record { action = allow; new_model = none; violations = [] }

  -- `register_run`: a run that is tracked keeps its accounting.
  unfoldable pub register_run :
      String → String → Option String → ContractEnforcer F → ContractEnforcer F
  register_run run_id task tier e = elim (lookup run_id e.runs) [
    | some s ↦ e
    | none ↦ record e { runs = insert run_id (new_run task tier) e.runs }
  ]

  -- `release_run`
  unfoldable pub release_run : String → ContractEnforcer F → ContractEnforcer F
  release_run run_id e = record e { runs = remove run_id e.runs }

  -- What a rung's action asks of the call.
  abbrev pub outcome_of_step :
      Contract F → Option String → DegradeAction → List (ContractViolation F) → EnforcementOutcome F
  outcome_of_step c default block events = record {
    action = blocked;
    new_model = none;
    violations = events;
  }
  outcome_of_step c default switch_to_cheap_model events = record {
    action = switched;
    new_model = text_or c.cheap_model default;
    violations = events;
  }
  outcome_of_step c default warn events = record {
    action = warned;
    new_model = none;
    violations = events;
  }

module _ (f : Float) where
  open f use {F, of_int}

  abbrev pub violation_of : Dimension F → DegradeStep → String → ContractViolation F
  violation_of d step task = record {
    level = level_for step.action;
    clause_name = d.clause_name;
    projected_value = of_int d.projected;
    threshold = of_int (pos d.threshold);
    action = some step.action;
    task = task;
  }

  -- The end of `before_call`, once a rung is chosen: the rung's event goes out once per run.
  unfoldable pub act_on_step :
      ContractEnforcer F
      → Contract F
      → String
      → String
      → RunState
      → Dimension F
      → DegradeStep
      → ContractEnforcer F × EnforcementOutcome F
  act_on_step e c run_id task s d step =
      if fired step.at_percent s.fired_percents
      then (e, outcome_of_step c e.default_cheap_model step.action [])
      else (
        record e {
          runs =
              insert run_id (record s { fired_percents = step.at_percent ∷ s.fired_percents })
                e.runs;
        },
        outcome_of_step c e.default_cheap_model step.action (violation_of d step task ∷ []),
      )

  abbrev pub on_step :
      ContractEnforcer F
      → Contract F
      → String
      → String
      → RunState
      → Dimension F
      → Option DegradeStep
      → ContractEnforcer F × EnforcementOutcome F
  on_step e c run_id task s d none = (e, allow_outcome)
  on_step e c run_id task s d (some step) = act_on_step e c run_id task s d step

  abbrev pub on_dimension :
      ContractEnforcer F
      → Contract F
      → String
      → String
      → RunState
      → Option (Dimension F)
      → ContractEnforcer F × EnforcementOutcome F
  on_dimension e c run_id task s none = (e, allow_outcome)
  on_dimension e c run_id task s (some d) =
      on_step e c run_id task s d (ladder_step_for f c.degrade d.percent)

  -- `before_call` for a contract with a budget and a ladder: the run is tracked from here on, the
  -- estimate fills the memo, and the ladder decides.
  unfoldable pub governed_call :
      Tokens F
      → Contract F
      → BudgetClause F
      → String
      → String
      → Option String
      → String
      → String
      → Fields F
      → ContractEnforcer F
      → ContractEnforcer F × EnforcementOutcome F
  unfolding act_on_step
  governed_call t c budget run_id task tier provider model kwargs e =
      let s : RunState = state_or_new task tier (lookup run_id e.runs) in
      let (estimate, memo) =
        estimate_call f t provider model kwargs (lookup task e.output_avg) e.token_cache in
      on_dimension (record e { runs = insert run_id s e.runs; token_cache = memo }) c run_id task s
        (worst_dimension f budget (s.spent_nanodollars +ℤ estimate) (s.call_count + 1))

  abbrev pub on_budget :
      Tokens F
      → Contract F
      → Option (BudgetClause F)
      → String
      → String
      → Option String
      → String
      → String
      → Fields F
      → ContractEnforcer F
      → ContractEnforcer F × EnforcementOutcome F
  on_budget t c none run_id task tier provider model kwargs e = (e, allow_outcome)
  on_budget t c (some b) run_id task tier provider model kwargs e = elim c.degrade [
    | [] ↦ (e, allow_outcome)
    | _ ↦ governed_call t c b run_id task tier provider model kwargs e
  ]

  abbrev pub on_contract :
      Tokens F
      → Option (Contract F)
      → String
      → String
      → Option String
      → String
      → String
      → Fields F
      → ContractEnforcer F
      → ContractEnforcer F × EnforcementOutcome F
  on_contract t none run_id task tier provider model kwargs e = (e, allow_outcome)
  on_contract t (some c) run_id task tier provider model kwargs e =
      on_budget t c (resolved_budget c tier) run_id task tier provider model kwargs e

  -- `ContractEnforcer.before_call`
  unfoldable pub before_call :
      Tokens F
      → String
      → Option String
      → String
      → String
      → Fields F
      → Option String
      → ContractEnforcer F
      → ContractEnforcer F × EnforcementOutcome F
  before_call t run_id none provider model kwargs tier e = (e, allow_outcome)
  before_call t run_id (some task) provider model kwargs tier e =
      on_contract t (lookup task e.contracts) run_id task tier provider model kwargs e
