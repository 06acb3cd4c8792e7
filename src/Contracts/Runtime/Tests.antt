-- ===== src/Contracts/Runtime/Tests.antt =====
-- Runs of the hooks of inkfoot/contracts/runtime.py, and their theorem at concrete runs.
use ink_foot.Prelude.Int.{ℤ, pos, ◌+ℤ◌, ◌-ℤ◌, ◌*ℤ◌}
use ink_foot.Prelude.{
  ◌<◌, String, ◌≡◌, refl, true, false, Bool, Option, none, some, List, [], ◌∷◌, arith,
}
use ink_foot.Float.Fixed.{millionths, fixed_div, fixed_mul, fixed_round}
use ink_foot.Prelude.Dict.{lookup, insert}
use ink_foot.Value.{Value, text, end, field, Key, find}
use ink_foot.Storage.{Store, Event, Totals, new_row, find_run, mark_dirty, update_aggregates}
use ink_foot.Pricing.{estimate_nanodollars, lookup_row, priced, fresh_input}
use ink_foot.Pricing.Table.{lookup_key}
use ink_foot.Ledger.{input_total}
use ink_foot.Contracts.Schema.{resolved_budget, resolved_outcome}
use ink_foot.Contracts.Ladder.{ladder_step_for, worst_dimension}
use ink_foot.Contracts.Estimator.{estimate_call}
use ink_foot.Contracts.Enforcer.{ContractViolation, before_call, governed_call}
use ink_foot.Contracts.Enforcer.Record.{record_call}
use ink_foot.Contracts.Tests.{limits, contract, one_token, enforcer, governs}
use ink_foot.Contracts.Runtime.{
  Runtime, CallContext, on_run_start, enforce_before_call, record_runtime_call, emit_violations,
  tier_from_metadata,
}
use ink_foot.Contracts.Runtime.Process.{Happening, started, ended, called, made, happen_all}
use ink_foot.Contracts.Runtime.Outcomes.{outcome_violation, notify_outcome}
use ink_foot.Contracts.Runtime.OutcomeRace.{outcome_violation-update_aggregates}
use ink_foot.Contracts.Runtime.CallLimit.{made-below_limit}

abbrev nothing_loads : String → Option (Value ℤ)
nothing_loads raw = none

abbrev event_of : String → ContractViolation ℤ → Store → Event
event_of run_id v s = record {
  event_id = v.clause_name;
  run_id = run_id;
  kind = "contract_violation";
  occurred_at = pos 0;
  payload_json = some v.level;
  sequence = pos 1;
  capture_mode = "metadata";
}

abbrev idle : Runtime ℤ
idle = record { enforcer = enforcer; storage = record { runs = []; events = [] }; run_facts = [] }

abbrev call_of : String → Bool → CallContext ℤ
call_of run_id is_helper = record {
  run_id = run_id;
  provider = "openai";
  model = "gpt-4o";
  request_kwargs = field (Key.name "system") (text "answer briefly") end;
  is_helper = is_helper;
  estimated_nanodollars = none;
}

abbrev own : Happening ℤ
own = called (call_of "r1" false) (some (some (pos 1000000), some (pos 400)))

abbrev helper : Happening ℤ
helper = called (call_of "r1" true) (some (some (pos 1000), some (pos 20)))

-- The request goes out and fails.
abbrev failing : Happening ℤ
failing = called (call_of "r1" false) none

-- Another run starts, calls and ends while the first one makes its calls.
abbrev mixed : List (Happening ℤ)
mixed =
    own
    ∷ helper
    ∷ failing
    ∷ started "r2" (some "triage") none
    ∷ called (call_of "r2" false) (some (some (pos 1000000), some (pos 400)))
    ∷ own
    ∷ ended "r2"
    ∷ helper
    ∷ own
    ∷ []

-- Two of the three calls are made, and the enforcer counts these two.
mixed_runs :
    made millionths one_token nothing_loads event_of "r1" mixed
      (on_run_start "r1" (some "triage") none idle)
    ≡ 2
unfolding made on_run_start tier_from_metadata enforce_before_call record_runtime_call
    emit_violations happen_all before_call governed_call record_call estimate_call
    estimate_nanodollars lookup_row lookup_key priced fresh_input input_total lookup insert
    resolved_budget worst_dimension ladder_step_for fixed_div fixed_mul ◌+ℤ◌ ◌-ℤ◌ ◌*ℤ◌ find
    fixed_round
mixed_runs = refl

made-below_limit_example :
    made millionths one_token nothing_loads event_of "r1" mixed
      (on_run_start "r1" (some "triage") none idle)
    < 3
unfolding lookup tier_from_metadata
made-below_limit_example =
    made-below_limit millionths one_token nothing_loads event_of "r1" "triage" none idle mixed
      contract limits 3 governs refl (omega arith) refl
      (tt, (tt, (tt, (refl, (tt, (tt, (refl, (tt, (tt, tt)))))))))

abbrev failed : Totals
failed = record {
  total_input_tokens = pos 10;
  total_output_tokens = pos 1;
  total_cache_read_tokens = pos 0;
  total_cache_creation_tokens = pos 0;
  total_nanodollars = pos 100;
  outcome = some "failure";
}

abbrev succeeded : Totals
succeeded = record failed { outcome = some "success" }

-- An earlier run of the task failed, and the aggregator is to project the one that reports.
abbrev reporting : Runtime ℤ
reporting = record idle {
  storage = record {
    runs =
        record (new_row "r0" (some "triage") none (pos 5) none "agent" none) { totals = failed }
        ∷ record (new_row "r1" (some "triage") none (pos 6) none "agent" none) {
          aggregates_dirty = true;
        }
        ∷ [];
    events = [];
  };
}

-- One success in two is below the contract's 95%.
abbrev half : ContractViolation ℤ
half = record {
  level = "outcome";
  clause_name = "required_success_rate";
  projected_value = pos 500000;
  threshold = pos 950000;
  action = none;
  task = "triage";
}

outcome_runs : outcome_violation millionths nothing_loads "r1" "success" reporting ≡ some half
unfolding outcome_violation resolved_outcome lookup fixed_div tier_from_metadata find_run ◌*ℤ◌
outcome_runs = refl

notify_runs :
    (notify_outcome millionths nothing_loads event_of "r1" "success" reporting).storage.events
    ≡ event_of "r1" half reporting.storage ∷ []
unfolding notify_outcome resolved_outcome lookup fixed_div tier_from_metadata find_run ◌*ℤ◌
    mark_dirty
notify_runs = refl

outcome_violation-update_aggregates_example :
    outcome_violation millionths nothing_loads "r1" "success"
      (record reporting { storage = (update_aggregates "r1" succeeded reporting.storage).1 })
    ≡ outcome_violation millionths nothing_loads "r1" "success" reporting
outcome_violation-update_aggregates_example =
    outcome_violation-update_aggregates millionths nothing_loads "r1" "success" succeeded reporting
