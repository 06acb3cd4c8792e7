-- ===== src/Contracts/Enforcer/Isolation.antt =====
-- What `before_call` and `record_call` of inkfoot/contracts/enforcer.py leave alone.
use ink_foot.Prelude.{
  String, ◌≡◌, refl, ◌∙◌, ◌≢◌, inl, inr, Option, none, some, List, [], ◌∷◌, arith, eq_iff, eq_refl,
  str_eq, if◌then◌else◌, Bool-cases, Option-cases, Bool, true, false,
}
use ink_foot.Float.{Float}
use ink_foot.Prelude.Dict.{Dict, lookup, insert, lookup-insert}
use ink_foot.Value.{Fields}
use ink_foot.Contracts.Schema.{DegradeStep, BudgetClause, Contract, resolved_budget}
use ink_foot.Contracts.Ladder.{Dimension, ladder_step_for}
use ink_foot.Contracts.Estimator.{Tokens, Memo, estimate_call}
use ink_foot.Contracts.Enforcer.{
  ContractEnforcer, RunState, state_or_new, act_on_step, on_dimension, on_budget, on_contract,
  governed_call, before_call, fired,
}
use ink_foot.Contracts.Enforcer.Ceiling.{spent_in, calls_in}

-- Whether the enforcer has anything on record for a run.
abbrev pub is_tracked : Option RunState → Bool
is_tracked none = false
is_tracked (some s) = true

module _ {F : Type 0} (run_id : String) where
  -- The contracts, the averages, the spend and the calls of every run, and all that is on record for
  -- the runs other than `run_id`, are what they were, and no run is forgotten.
  pub record SameAccounts (e e' : ContractEnforcer F) : Type 0 where
    pub contracts : e'.contracts ≡ e.contracts
    pub averages : e'.output_avg ≡ e.output_avg
    pub spent : (r : String) → spent_in (lookup r e'.runs) ≡ spent_in (lookup r e.runs)
    pub calls : (r : String) → calls_in (lookup r e'.runs) ≡ calls_in (lookup r e.runs)
    pub others : (r : String) → r ≢ run_id → lookup r e'.runs ≡ lookup r e.runs
    pub tracked :
        (r : String) → is_tracked (lookup r e.runs) ≡ true → is_tracked (lookup r e'.runs) ≡ true

  SameAccounts-refl : (e : ContractEnforcer F) → SameAccounts e e
  SameAccounts-refl e = record {
    contracts = refl;
    averages = refl;
    spent = λ r. refl;
    calls = λ r. refl;
    others = λ r h. refl;
    tracked = λ r h. h;
  }

  SameAccounts-trans :
      (a b c : ContractEnforcer F) → SameAccounts a b → SameAccounts b c → SameAccounts a c
  SameAccounts-trans a b c h k = record {
    contracts = k.contracts ∙ h.contracts;
    averages = k.averages ∙ h.averages;
    spent = λ r. k.spent r ∙ h.spent r;
    calls = λ r. k.calls r ∙ h.calls r;
    others = λ r ne. k.others r ne ∙ h.others r ne;
    tracked = λ r known. k.tracked r (h.tracked r known);
  }

  -- A write of the run's state with the same accounting.
  SameAccounts-write :
      (e : ContractEnforcer F) (s : RunState) (memo : Memo)
      → s.spent_nanodollars ≡ spent_in (lookup run_id e.runs)
      → s.call_count ≡ calls_in (lookup run_id e.runs)
      → SameAccounts e (record e { runs = insert run_id s e.runs; token_cache = memo })
  SameAccounts-write e s memo hs hc = record {
    contracts = refl;
    averages = refl;
    spent = λ r. rw lookup-insert (at_spent r);
    calls = λ r. rw lookup-insert (at_calls r);
    others = λ r ne. rw lookup-insert (ground (arith, eq_iff run_id r, ne));
    tracked = λ r known. rw lookup-insert (tracks r known);
  }
    where
      tracks :
          (r : String)
          → is_tracked (lookup r e.runs) ≡ true
          → is_tracked (if str_eq run_id r then some s else lookup r e.runs) ≡ true
      tracks r known = elim (Bool-cases (str_eq run_id r)) [
        | inl h ↦ rw h refl
        | inr h ↦ rw h known
      ]

      at_spent :
          (r : String)
          → spent_in (if str_eq run_id r then some s else lookup r e.runs)
            ≡ spent_in (lookup r e.runs)
      at_spent r = elim (Bool-cases (str_eq run_id r)) [
        | inl h ↦ rw (h, ← (eq_iff run_id r).0 h) hs
        | inr h ↦ rw h
      ]

      at_calls :
          (r : String)
          → calls_in (if str_eq run_id r then some s else lookup r e.runs)
            ≡ calls_in (lookup r e.runs)
      at_calls r = elim (Bool-cases (str_eq run_id r)) [
        | inl h ↦ rw (h, ← (eq_iff run_id r).0 h) hc
        | inr h ↦ rw h
      ]

module _ (f : Float) where
  open f use {F}

  module _ (run_id task : String) (tier : Option String) where
    state_spent : (o : Option RunState) → (state_or_new task tier o).spent_nanodollars ≡ spent_in o
    state_spent none = refl
    state_spent (some s) = refl

    state_calls : (o : Option RunState) → (state_or_new task tier o).call_count ≡ calls_in o
    state_calls none = refl
    state_calls (some s) = refl

    act_on_step-SameAccounts :
        (e : ContractEnforcer F) (c : Contract F) (s : RunState) (d : Dimension F)
        (step : DegradeStep)
        → s.spent_nanodollars ≡ spent_in (lookup run_id e.runs)
        → s.call_count ≡ calls_in (lookup run_id e.runs)
        → SameAccounts run_id e (act_on_step f e c run_id task s d step).0
    unfolding act_on_step
    act_on_step-SameAccounts e c s d step hs hc =
        elim (Bool-cases (fired step.at_percent s.fired_percents)) [
          | inl h ↦ rw h (SameAccounts-refl run_id e)
          | inr h ↦ rw h (
              SameAccounts-write run_id e
                (record s { fired_percents = step.at_percent ∷ s.fired_percents }) e.token_cache hs
                hc)
        ]

    on_dimension-SameAccounts :
        (e : ContractEnforcer F) (c : Contract F) (s : RunState) (o : Option (Dimension F))
        → s.spent_nanodollars ≡ spent_in (lookup run_id e.runs)
        → s.call_count ≡ calls_in (lookup run_id e.runs)
        → SameAccounts run_id e (on_dimension f e c run_id task s o).0
    on_dimension-SameAccounts e c s none hs hc = SameAccounts-refl run_id e
    on_dimension-SameAccounts e c s (some d) hs hc =
        elim (Option-cases (ladder_step_for f c.degrade d.percent)) [
          | inl h ↦ rw h (SameAccounts-refl run_id e)
          | inr (step, h) ↦ rw h (act_on_step-SameAccounts e c s d step hs hc)
        ]

    lookup-insert_self :
        (s : RunState) (d : Dict RunState) → lookup run_id (insert run_id s d) ≡ some s
    lookup-insert_self s d = simp (lookup-insert, eq_refl)

    governed_call-SameAccounts :
        (t : Tokens F) (c : Contract F) (b : BudgetClause F) (provider model : String)
        (kwargs : Fields F) (e : ContractEnforcer F)
        → SameAccounts run_id e (governed_call f t c b run_id task tier provider model kwargs e).0
    unfolding governed_call
    governed_call-SameAccounts t c b provider model kwargs e =
        let s : RunState = state_or_new task tier (lookup run_id e.runs) in
        let memo =
          (estimate_call f t provider model kwargs (lookup task e.output_avg) e.token_cache).1 in
        let e' : ContractEnforcer F = record e {
          runs = insert run_id s e.runs;
          token_cache = memo;
        } in
        SameAccounts-trans run_id e e' _
          (SameAccounts-write run_id e s memo (state_spent (lookup run_id e.runs))
            (state_calls (lookup run_id e.runs)))
          (on_dimension-SameAccounts e' c s _ (rw (lookup-insert_self s e.runs))
            (rw (lookup-insert_self s e.runs)))

    on_contract-SameAccounts :
        (t : Tokens F) (o : Option (Contract F)) (provider model : String) (kwargs : Fields F)
        (e : ContractEnforcer F)
        → SameAccounts run_id e (on_contract f t o run_id task tier provider model kwargs e).0
    on_contract-SameAccounts t none provider model kwargs e = SameAccounts-refl run_id e
    on_contract-SameAccounts t (some c) provider model kwargs e =
        on_budget_lem c.degrade (resolved_budget c tier)
      where
        on_budget_lem :
            (ladder : List DegradeStep) (o : Option (BudgetClause F))
            → SameAccounts run_id e
                (on_budget f t
                  (record c { degrade = ladder })
                  o
                  run_id
                  task
                  tier
                  provider
                  model
                  kwargs
                  e).0
        on_budget_lem ladder none = SameAccounts-refl run_id e
        on_budget_lem [] (some b) = SameAccounts-refl run_id e
        on_budget_lem (s ∷ ss) (some b) =
            governed_call-SameAccounts t (record c { degrade = s ∷ ss }) b provider model kwargs e

  -- A decision moves no account: whatever it decides, it leaves the contracts, the averages, the
  -- spend and the calls of every run, and everything on record for the other runs, as they were, and
  -- forgets no run.
  pub before_call-SameAccounts :
      (t : Tokens F) (run_id : String) (task : Option String) (provider model : String)
      (kwargs : Fields F) (tier : Option String) (e : ContractEnforcer F)
      → SameAccounts run_id e (before_call f t run_id task provider model kwargs tier e).0
  unfolding before_call
  before_call-SameAccounts t run_id none provider model kwargs tier e = SameAccounts-refl run_id e
  before_call-SameAccounts t run_id (some task) provider model kwargs tier e =
      on_contract-SameAccounts run_id task tier t (lookup task e.contracts) provider model kwargs e
