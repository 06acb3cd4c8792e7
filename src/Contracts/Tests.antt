-- ===== src/Contracts/Tests.antt =====
-- Runs of inkfoot/contracts/schema.py and inkfoot/contracts/enforcer.py, and their theorems at
-- concrete contracts. Floats are counted in millionths.
use ink_foot.Prelude.Int.{ℤ, pos, ◌+ℤ◌, ◌-ℤ◌, ◌*ℤ◌}
use ink_foot.Prelude.{ℕ, String, ◌≡◌, refl, none, some, List, [], ◌∷◌, arith}
use ink_foot.Float.Fixed.{millionths, fixed_div, fixed_mul, fixed_round}
use ink_foot.Prelude.Dict.{lookup, insert}
use ink_foot.Value.{Value, int, real, text, list, dict, nil, cons, Fields, end, field, Key, find}
use ink_foot.Pricing.{estimate_nanodollars, lookup_row, priced, fresh_input}
use ink_foot.Pricing.Table.{lookup_key}
use ink_foot.Ledger.{input_total}
use ink_foot.Contracts.Result.{ok, err, unknown_field, no_cheap_model, ◌>>=◌, require}
use ink_foot.Contracts.Schema.{
  DegradeStep, warn, switch_to_cheap_model, block, BudgetClause, OutcomeClause, Override, Contract,
  resolved_budget,
}
use ink_foot.Contracts.Parse.{contract_from_dict}
use ink_foot.Contracts.Parse.Accepted.{IsAccepted, contract_from_dict-IsAccepted}
use ink_foot.Contracts.Ladder.{ladder_step_for, worst_dimension}
use ink_foot.Contracts.Ladder.Reach.{last_reached, ladder_step_for-last_reached}
use ink_foot.Contracts.Estimator.{Tokens, estimate_call}
use ink_foot.Contracts.Enforcer.{ContractEnforcer, before_call, governed_call}
use ink_foot.Contracts.Enforcer.Record.{record_call}
use ink_foot.Contracts.Enforcer.Isolation.{SameAccounts, before_call-SameAccounts}
use ink_foot.Contracts.Enforcer.Ceiling.{Governs}
use ink_foot.Contracts.Enforcer.Session.{
  Request, attempts, spent, calls, Under, attempts-below_spend,
}
use ink_foot.Contracts.Parse.Degrade.{parse_degrade}
use ink_foot.Contracts.Parse.FieldChecks.{require_int, require_str}

abbrev entry : String → Value ℤ → Fields ℤ → Fields ℤ
entry k v fs = field (Key.name k) v fs

abbrev rung : ℕ → String → Value ℤ
rung p a = dict (entry "at_percent" (int (pos p)) (entry "action" (text a) end))

-- The rungs stand out of order in the file.
abbrev rungs : Value ℤ
rungs =
    list
      (cons (rung 100 "block") (cons (rung 80 "warn") (cons (rung 90 "switch_to_cheap_model") nil)))

abbrev document : Fields ℤ → Value ℤ
document more = dict (
    entry "schema_version" (int (pos 1)) (
      entry "task" (text "triage") (
        entry "budget"
          (dict (
            entry "max_nanodollars" (int (pos 10000000)) (entry "max_llm_calls" (int (pos 3)) end)))
          (entry "degrade" rungs (
            entry "outcome"
              (dict (
                entry "required_success_rate" (real (pos 950000))
                  (entry "measure_window_runs" (int (pos 500)) end)))
              (entry "overrides"
                (dict (
                  entry "free_tier"
                    (dict (
                      entry "outcome" (dict (entry "required_success_rate" (real (pos 900000)) end))
                        end))
                    end))
                more))))))

abbrev steps : List DegradeStep
steps =
    record { at_percent = 80; action = warn }
    ∷ record { at_percent = 90; action = switch_to_cheap_model }
    ∷ record { at_percent = 100; action = block }
    ∷ []

abbrev pub limits : BudgetClause ℤ
limits = record {
  max_nanodollars = some 10000000;
  max_llm_calls = some 3;
  max_tool_result_tokens = none;
  cache_hit_rate_min = none;
  max_run_duration_seconds = none;
}

abbrev strict : OutcomeClause ℤ
strict = record { required_success_rate = some (pos 950000); measure_window_runs = 500 }

abbrev lenient : OutcomeClause ℤ
lenient = record { required_success_rate = some (pos 900000); measure_window_runs = 100 }

abbrev free_tier : Override ℤ
free_tier = record { budget = none; outcome = some lenient }

abbrev pub contract : Contract ℤ
contract = record {
  schema_version = pos 1;
  task = "triage";
  budget = some limits;
  outcome = some strict;
  degrade = steps;
  cheap_model = some "gpt-4o-mini";
  overrides = ("free_tier", free_tier) ∷ [];
}

abbrev complete : Value ℤ
complete = document (entry "cheap_model" (text "gpt-4o-mini") end)

-- The parser accepts the document and sorts its ladder.
parse_runs : contract_from_dict millionths complete ≡ ok contract
unfolding contract_from_dict parse_degrade require_int require_str ◌>>=◌ require insert ◌*ℤ◌
parse_runs = refl

misspelt_key :
    contract_from_dict millionths (document (entry "cheap_modle" (text "gpt-4o-mini") end))
    ≡ err unknown_field
unfolding contract_from_dict ◌>>=◌ require
misspelt_key = refl

no_model_to_switch_to : contract_from_dict millionths (document end) ≡ err no_cheap_model
unfolding contract_from_dict parse_degrade require_int require_str ◌>>=◌ require insert ◌*ℤ◌
no_model_to_switch_to = refl

contract-IsAccepted : IsAccepted millionths contract
unfolding contract_from_dict parse_degrade require_int require_str ◌>>=◌ require insert ◌*ℤ◌
contract-IsAccepted = contract_from_dict-IsAccepted millionths complete contract refl

-- At 95% the second rung is the last in reach.
ladder_step_for-last_reached_example :
    ladder_step_for millionths steps (pos 95000000)
    ≡ last_reached millionths none steps (pos 95000000)
ladder_step_for-last_reached_example =
    ladder_step_for-last_reached millionths steps (pos 95000000) (omega arith)

-- A tokeniser that counts one token for each text, and a memo keyed by nothing but the model.
abbrev pub one_token : Tokens ℤ
one_token = record {
  tokenise = λ s m. 1;
  dumps = λ v. "message";
  serialise_tools = λ vs. "tools";
  hash = λ s. pos 0;
  len = λ s. 0;
}

abbrev pub enforcer : ContractEnforcer ℤ
enforcer = record {
  contracts = ("triage", contract) ∷ [];
  default_cheap_model = none;
  runs = [];
  output_avg = [];
  token_cache = [];
}

-- Each call is estimated at 1 input token and 500 output tokens of gpt-4o: 5,002,500 nanodollars.
abbrev question : Request ℤ
question = record {
  provider = "openai";
  model = "gpt-4o";
  kwargs = entry "system" (text "answer briefly") end;
  cost = pos 4000000;
  output_tokens = pos 400;
}

pub governs : Governs millionths enforcer "triage" none contract limits
unfolding lookup resolved_budget
governs = record {
  found = refl;
  budget = refl;
  ladder = contract-IsAccepted.ladder;
  last = record { at_percent = 100; action = block };
  is_last = refl;
  blocks = refl;
}

abbrev two_questions : List (Request ℤ)
two_questions = question ∷ question ∷ []

-- The first call goes through, and the second, projected at 8,002,500 of 10,000,000, with a warning;
-- the third is refused.
session_runs :
    let e = attempts millionths one_token "r1" "triage" none enforcer (question ∷ two_questions) in
    (spent millionths one_token "r1" "triage" none e ≡ pos 8000000)
    × (calls millionths one_token "r1" "triage" none e ≡ 2)
unfolding attempts before_call governed_call record_call estimate_call estimate_nanodollars
    lookup_row lookup_key priced fresh_input input_total lookup insert resolved_budget
    worst_dimension ladder_step_for fixed_div fixed_mul ◌+ℤ◌ ◌-ℤ◌ ◌*ℤ◌ find fixed_round
session_runs = (refl, refl)

before_call-SameAccounts_example :
    SameAccounts "r1" enforcer
      (before_call millionths one_token "r1"
        (some "triage")
        "openai"
        "gpt-4o"
        question.kwargs
        none
        enforcer).0
before_call-SameAccounts_example =
    before_call-SameAccounts millionths one_token "r1" (some "triage") "openai" "gpt-4o"
      question.kwargs none enforcer

attempts-below_spend_example : Under millionths one_token "r1" "triage" none 10000000 (
    spent millionths one_token "r1" "triage" none
      (attempts millionths one_token "r1" "triage" none enforcer two_questions))
unfolding attempts before_call governed_call record_call estimate_call estimate_nanodollars
    lookup_row lookup_key priced fresh_input input_total lookup insert resolved_budget
    worst_dimension ladder_step_for fixed_div fixed_mul ◌+ℤ◌ ◌-ℤ◌ ◌*ℤ◌ find fixed_round
attempts-below_spend_example =
    attempts-below_spend millionths one_token "r1" "triage" none enforcer two_questions contract
      limits 10000000 governs refl (omega arith) (omega arith) (omega arith)
