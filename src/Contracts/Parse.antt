-- ===== src/Contracts/Parse.antt =====
-- The validation of inkfoot/contracts/schema.py: `contract_from_dict` over a parsed document. The
-- error messages are left out; a `Fault` says which check raised.
pub mod FieldChecks
pub mod Degrade
pub mod LadderOrder
pub mod Accepted
use ink_foot.Float.{Float}
use ink_foot.Prelude.{str_eq, String, Bool, true, false, not, Option, none, some, List, [], ◌∷◌}
use ink_foot.Prelude.Dict.{Dict, insert}
use ink_foot.Value.{Value, null, text, list, dict, Fields, end, field, Key, get}
use ink_foot.Contracts.Result.{
  Result, ok, err, not_mapping, mistyped, no_cheap_model, bad_tier, ◌>>=◌, ◌>>◌, require,
}
use ink_foot.Contracts.Schema.{
  DegradeAction, DegradeStep, switch_to_cheap_model, BudgetClause, OutcomeClause, Override,
  Contract,
}
use FieldChecks.{
  is_empty, reject_unknown, require_int, require_str, opt_nonneg_int, opt_pos_int, opt_rate,
  or_default,
}
use Degrade.{parse_degrade}

module _ (f : Float) where
  open f use {F}

  unfoldable pub parse_budget : Value F → Result (Option (BudgetClause F))
  unfolding reject_unknown opt_pos_int opt_nonneg_int opt_rate
  parse_budget null = ok none
  parse_budget (dict raw) = do
    reject_unknown
        ("max_nanodollars" ∷ "max_llm_calls" ∷ "max_tool_result_tokens" ∷ "cache_hit_rate_min"
          ∷ "max_run_duration_seconds" ∷ [])
        raw
    nanodollars ← opt_pos_int "max_nanodollars" raw
    calls ← opt_pos_int "max_llm_calls" raw
    tool_tokens ← opt_nonneg_int "max_tool_result_tokens" raw
    hit_rate ← opt_rate f "cache_hit_rate_min" raw
    duration ← opt_nonneg_int "max_run_duration_seconds" raw
    ok (
        some (record {
          max_nanodollars = nanodollars;
          max_llm_calls = calls;
          max_tool_result_tokens = tool_tokens;
          cache_hit_rate_min = hit_rate;
          max_run_duration_seconds = duration;
        }))
  parse_budget _ = err not_mapping

  -- The window is parsed before the rate.
  unfoldable pub parse_outcome : Value F → Result (Option (OutcomeClause F))
  unfolding reject_unknown opt_pos_int opt_rate
  parse_outcome null = ok none
  parse_outcome (dict raw) = do
    reject_unknown ("required_success_rate" ∷ "measure_window_runs" ∷ []) raw
    window ← opt_pos_int "measure_window_runs" raw
    rate ← opt_rate f "required_success_rate" raw
    ok (some (record { required_success_rate = rate; measure_window_runs = or_default window 100 }))
  parse_outcome _ = err not_mapping

  unfoldable pub parse_override : Value F → Result (Override F)
  unfolding parse_budget parse_outcome
  parse_override (dict body) = do
    reject_unknown ("budget" ∷ "outcome" ∷ []) body
    budget ← parse_budget (get "budget" body)
    outcome ← parse_outcome (get "outcome" body)
    ok (record { budget = budget; outcome = outcome })
  parse_override _ = err not_mapping

  -- The loop of `_parse_overrides`, over the mapping's items and the dict built so far.
  unfoldable pub override_loop : Fields F → Dict (Override F) → Result (Dict (Override F))
  unfolding parse_override
  override_loop end out = ok out
  override_loop (field Key.other body rest) out = err bad_tier
  override_loop (field (Key.name tier) body rest) out = do
    require (not (is_empty tier)) bad_tier
    o ← parse_override body
    override_loop rest (insert tier o out)

  unfoldable pub parse_overrides : Value F → Result (Dict (Override F))
  unfolding override_loop
  parse_overrides null = ok []
  parse_overrides (dict raw) = override_loop raw []
  parse_overrides _ = err not_mapping

  -- The check on the value under "cheap_model".
  unfoldable pub parse_cheap_model : Value F → Result (Option String)
  parse_cheap_model null = ok none
  parse_cheap_model (text s) = do require (not (is_empty s)) (mistyped "cheap_model"); ok (some s)
  parse_cheap_model _ = err (mistyped "cheap_model")

  abbrev pub is_switch : DegradeAction → Bool
  is_switch switch_to_cheap_model = true
  is_switch _ = false

  abbrev pub wants_switch : List DegradeStep → Bool
  wants_switch [] = false
  wants_switch (s ∷ steps) = elim (is_switch s.action) [ true ↦ true | false ↦ wants_switch steps ]

  -- `not contract.cheap_model`
  abbrev pub lacks : Option String → Bool
  lacks none = true
  lacks (some m) = str_eq m ""

  -- `_validate_cross_field`
  unfoldable pub validate_cross_field : Contract F → Result (Unit {0})
  validate_cross_field c = elim (wants_switch c.degrade) [
    | false ↦ ok tt
    | true ↦ elim (lacks c.cheap_model) [ true ↦ err no_cheap_model | false ↦ ok tt ]
  ]

  unfoldable pub contract_from_dict : Value F → Result (Contract F)
  unfolding parse_budget parse_outcome parse_overrides parse_cheap_model validate_cross_field
  contract_from_dict (dict raw) = do
    reject_unknown
        ("schema_version" ∷ "task" ∷ "budget" ∷ "outcome" ∷ "degrade" ∷ "cheap_model" ∷ "overrides"
          ∷ [])
        raw
    version ← require_int "schema_version" raw
    task ← require_str "task" raw
    cheap ← parse_cheap_model (get "cheap_model" raw)
    budget ← parse_budget (get "budget" raw)
    outcome ← parse_outcome (get "outcome" raw)
    degrade ← parse_degrade (get "degrade" raw)
    overrides ← parse_overrides (get "overrides" raw)
    let c : Contract F = record {
      schema_version = version;
      task = task;
      budget = budget;
      outcome = outcome;
      degrade = degrade;
      cheap_model = cheap;
      overrides = overrides;
    }
    validate_cross_field c
    ok c
  contract_from_dict _ = err not_mapping
