-- ===== src/Contracts/Resolution.antt =====
-- What a tenant tier resolves to: `resolved_budget` and `resolved_outcome` of
-- inkfoot/contracts/schema.py, for a contract that the parser accepted.
use ink_foot.Prelude.{
  ℕ, ◌≡◌, refl, ap, Bool, true, false, not, Option, none, some, List, [], ◌∷◌, ◌++◌, arith,
}
use ink_foot.Storage.{is_some}
use ink_foot.Float.{Float}
use ink_foot.Contracts.Schema.{
  BudgetClause, OutcomeClause, Override, Contract, merge_outcome, override_for, resolved_outcome,
  budget_of,
}
use Prim.Native.String.{String}
use ink_foot.Prelude.Dict.{lookup, Dict}
use ink_foot.Contracts.Parse.{parse_outcome}
use ink_foot.Contracts.Parse.Accepted.{IsBudget, Whenever}
use ink_foot.Value.{Fields, get, null, dict}
use ink_foot.Contracts.Result.{OnOk, ok, OnOk-bind, OnOk-ok}
use ink_foot.Contracts.Parse.FieldChecks.{pos_or, or_default}

abbrev stated : {A : Type 0} → Option A → List A
stated none = []
stated (some a) = a ∷ []

abbrev pub is_nil : {A : Type 0} → List A → Bool
is_nil [] = true
is_nil (x ∷ xs) = false

-- The first of a list that has something has it.
abbrev pub first_stated : {A B : Type 0} → (A → Option B) → List A → Option B
first_stated limit [] = none
first_stated limit (x ∷ xs) = elim (limit x) [ none ↦ first_stated limit xs | some b ↦ some b ]

module _ (f : Float) where
  open f use {F}

  -- The budgets that apply at a tier, the one that wins first: the tier's override, then the contract's own.
  abbrev pub budgets_for : Contract F → Option String → List (BudgetClause F)
  budgets_for c tier = stated (budget_of (override_for c tier)) ++ stated c.budget

  -- A limit of a budget that is there.
  abbrev pub limit_in :
      {A : Type 0} → (BudgetClause F → Option A) → Option (BudgetClause F) → Option A
  limit_in limit none = none
  limit_in limit (some b) = limit b

  -- A resolved budget has each limit from the first budget that states it, and no other ones; it is there
  -- when some budget is.
  pub record Resolves (bs : List (BudgetClause F)) (r : Option (BudgetClause F)) : Type 0 where
    pub nanodollars : limit_in (λ b. b.max_nanodollars) r ≡ first_stated (λ b. b.max_nanodollars) bs
    pub calls : limit_in (λ b. b.max_llm_calls) r ≡ first_stated (λ b. b.max_llm_calls) bs
    pub tool_result :
        limit_in (λ b. b.max_tool_result_tokens) r ≡ first_stated (λ b. b.max_tool_result_tokens) bs
    pub hit_rate :
        limit_in (λ b. b.cache_hit_rate_min) r ≡ first_stated (λ b. b.cache_hit_rate_min) bs
    pub duration :
        limit_in (λ b. b.max_run_duration_seconds) r
        ≡ first_stated (λ b. b.max_run_duration_seconds) bs
    pub valid : Whenever (IsBudget f) r
    pub there : is_some r ≡ not (is_nil bs)

  parse_outcome-window :
      (raw : Fields F)
      → get "measure_window_runs" raw ≡ null
      → OnOk (Whenever (λ o. o.measure_window_runs ≡ 100)) (parse_outcome f (dict raw))
  unfolding parse_outcome
  parse_outcome-window raw absent =
      OnOk-bind _ _
        λ _ _. OnOk-bind _ _ λ w hw. OnOk-bind _ _ λ r _. OnOk-ok _ (default_window w hw)
    where
      default_window :
          (w : Option ℕ)
          → pos_or "measure_window_runs" (get "measure_window_runs" raw) ≡ ok w
          → or_default w 100 ≡ 100
      default_window none h = refl
      default_window (some n) h = cc (ap (pos_or "measure_window_runs") absent)

  -- An override that states an outcome clause without a window puts the window back to 100, whatever
  -- window the contract's own clause states.
  pub override_resets_window :
      (c : Contract F) (tier : String) (base o : OutcomeClause F) (ov : Override F) (raw : Fields F)
      → c.outcome ≡ some base
      → lookup tier c.overrides ≡ some ov
      → ov.outcome ≡ some o
      → parse_outcome f (dict raw) ≡ ok (some o)
      → get "measure_window_runs" raw ≡ null
      → (r : OutcomeClause F) × (resolved_outcome c (some tier) ≡ some r)
        × (r.measure_window_runs ≡ 100)
  unfolding resolved_outcome
  override_resets_window c tier base o ov raw hb hl ho parsed absent =
      (merge_outcome base o, ground arith, (parse_outcome-window raw absent).at (some o) parsed)
