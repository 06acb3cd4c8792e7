-- ===== src/Contracts/Enforcer/Ceiling.antt =====
-- A contract whose last rung blocks is a hard ceiling: `before_call` of inkfoot/contracts/enforcer.py
-- refuses each call whose projection reaches a limit.
use ink_foot.Prelude.Int.{ℤ, pos, ◌+ℤ◌, ◌≤ℤ◌}
use ink_foot.Prelude.{ℕ, ◌+◌, ◌≤◌, ◌<◌, String, ◌≡◌, refl, true, Option, none, some, arith}
use ink_foot.Float.{Float}
use ink_foot.Prelude.Dict.{lookup}
use ink_foot.Value.{Fields}
use ink_foot.Contracts.Schema.{DegradeStep, block, BudgetClause, Contract, resolved_budget}
use ink_foot.Contracts.Parse.LadderOrder.{IsLadder}
use ink_foot.Contracts.Ladder.{Dimension}
use ink_foot.Contracts.Ladder.Reach.{
  last_or, ladder_step_for-full, percent_of-full, worst_dimension-nanodollars,
  worst_dimension-calls,
}
use ink_foot.Contracts.Estimator.{Tokens, estimate_call}
use ink_foot.Contracts.Enforcer.{
  ContractEnforcer, RunState, state_or_new, blocked, act_on_step, on_dimension, governed_call,
  before_call,
}

-- What the enforcer has on record for a run.
abbrev pub spent_in : Option RunState → ℤ
spent_in none = pos 0
spent_in (some s) = s.spent_nanodollars

abbrev pub calls_in : Option RunState → ℕ
calls_in none = 0
calls_in (some s) = s.call_count

spent_in-state_or_new :
    (task : String) (tier : Option String) (o : Option RunState)
    → (state_or_new task tier o).spent_nanodollars ≡ spent_in o
spent_in-state_or_new task tier none = refl
spent_in-state_or_new task tier (some s) = refl

calls_in-state_or_new :
    (task : String) (tier : Option String) (o : Option RunState)
    → (state_or_new task tier o).call_count ≡ calls_in o
calls_in-state_or_new task tier none = refl
calls_in-state_or_new task tier (some s) = refl

module _ (f : Float) where
  open f use {F, leb, of_int, leb_trans}

  -- The contract of `task` states the budget `b` for the tier, and its ladder ends in a block.
  pub record Governs (e : ContractEnforcer F) (task : String) (tier : Option String)
      (c : Contract F) (b : BudgetClause F) : Type 0 where
    pub found : lookup task e.contracts ≡ some c
    pub budget : resolved_budget c tier ≡ some b
    pub ladder : IsLadder c.degrade
    pub last : DegradeStep
    pub is_last : last_or none c.degrade ≡ some last
    pub blocks : last.action ≡ block

  -- Only the enforcer's contracts matter to it.
  pub Governs-same :
      {e e' : ContractEnforcer F} {task : String} {tier : Option String} {c : Contract F}
      {b : BudgetClause F}
      → e'.contracts ≡ e.contracts
      → Governs e task tier c b
      → Governs e' task tier c b
  Governs-same same g = record {
    found = rw same g.found;
    budget = g.budget;
    ladder = g.ladder;
    last = g.last;
    is_last = g.is_last;
    blocks = g.blocks;
  }

  act_blocked :
      (e : ContractEnforcer F) (c : Contract F) (run_id task : String) (s : RunState)
      (d : Dimension F) (step : DegradeStep)
      → step.action ≡ block
      → (act_on_step f e c run_id task s d step).1.action ≡ blocked
  unfolding act_on_step
  act_blocked e c run_id task s d step h = ground arith

  full_blocked :
      {e0 : ContractEnforcer F} (e : ContractEnforcer F) {task : String} {tier : Option String}
      {c : Contract F} {b : BudgetClause F} (run_id : String) (s : RunState)
      (o : Option (Dimension F)) (d : Dimension F)
      → Governs e0 task tier c b
      → o ≡ some d
      → leb (of_int (pos 100)) d.percent ≡ true
      → (on_dimension f e c run_id task s o).1.action ≡ blocked
  full_blocked e {task} {tier} {c} {b} run_id s o d g found full =
      rw (found, ladder_step_for-full f c.degrade d.percent g.ladder.1 full, g.is_last)
        (act_blocked e c run_id task s d g.last g.blocks)

  module _ (t : Tokens F) (run_id task provider model : String) (kwargs : Fields F)
      (tier : Option String) where
    -- The estimate that `before_call` adds to the run's spend.
    abbrev pub estimate_in : ContractEnforcer F → ℤ
    estimate_in e =
        (estimate_call f t provider model kwargs (lookup task e.output_avg) e.token_cache).0

    before_call-governed :
        (e : ContractEnforcer F) {c : Contract F} {b : BudgetClause F}
        → Governs e task tier c b
        → before_call f t run_id (some task) provider model kwargs tier e
          ≡ governed_call f t c b run_id task tier provider model kwargs e
    unfolding before_call
    before_call-governed e {c} {b} g = ground (arith, g.found, g.budget, g.is_last)

    -- Where the run's spend and the estimate of the call reach a positive spend limit, a contract
    -- whose last rung blocks refuses the call.
    pub blocks_at_spend :
        (e : ContractEnforcer F) (c : Contract F) (b : BudgetClause F) (n : ℕ)
        → Governs e task tier c b
        → b.max_nanodollars ≡ some n
        → 0 < n
        → pos n ≤ℤ spent_in (lookup run_id e.runs) +ℤ estimate_in e
        → (before_call f t run_id (some task) provider model kwargs tier e).1.action ≡ blocked
    unfolding governed_call
    blocks_at_spend e c b n g set p reaches =
        let s : RunState = state_or_new task tier (lookup run_id e.runs) in
        let (d, found, driven) =
          worst_dimension-nanodollars f b (s.spent_nanodollars +ℤ estimate_in e) (s.call_count + 1)
            n set p in
        let full =
          percent_of-full f (s.spent_nanodollars +ℤ estimate_in e) n p
            (rw (spent_in-state_or_new task tier (lookup run_id e.runs)) reaches) in
        rw (before_call-governed e g)
          (full_blocked _ run_id s _ d g found (leb_trans _ _ _ full driven))

    -- Where the call would be the run's n-th for a positive limit of n calls, such a contract refuses
    -- it: at most n - 1 calls go through.
    pub blocks_at_calls :
        (e : ContractEnforcer F) (c : Contract F) (b : BudgetClause F) (n : ℕ)
        → Governs e task tier c b
        → b.max_llm_calls ≡ some n
        → 0 < n
        → n ≤ calls_in (lookup run_id e.runs) + 1
        → (before_call f t run_id (some task) provider model kwargs tier e).1.action ≡ blocked
    unfolding governed_call
    blocks_at_calls e c b n g set p reaches =
        let s : RunState = state_or_new task tier (lookup run_id e.runs) in
        let (d, found, driven) =
          worst_dimension-calls f b (s.spent_nanodollars +ℤ estimate_in e) (s.call_count + 1) n set
            p in
        let full =
          percent_of-full f (pos (s.call_count + 1)) n p
            (omega (arith, calls_in-state_or_new task tier (lookup run_id e.runs))) in
        rw (before_call-governed e g)
          (full_blocked _ run_id s _ d g found (leb_trans _ _ _ full driven))
