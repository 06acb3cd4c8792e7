-- ===== src/Lifecycle/Tests.antt =====
-- Runs of inkfoot/_run_lifecycle.py, and the theorems at concrete runs.
use ink_foot.Prelude.Int.{ℤ, pos}
use ink_foot.Prelude.{
  String, ◌≡◌, refl, true, false, Option, none, some, [], ◌∷◌, arith, ◌==◌, if◌then◌else◌,
}
use ink_foot.Prelude.Dict.{lookup, insert}
use ink_foot.Float.Fixed.{millionths}
use ink_foot.Value.{end}
use ink_foot.Storage.{Run, start_run, insert_event, end_run, find_run, mark_dirty, update_run}
use ink_foot.Lifecycle.{Signal, Process, Stamp, returned, emit_event, next_sequence, new_state}
use ink_foot.Contracts.Runtime.{Runtime}
use ink_foot.Contracts.Enforcer.{new_run}
use ink_foot.Lifecycle.Dedup.{
  record_emitted_response_id, see_response, record_emitted_error, see_error, chain_from, trim,
  ErrorKey,
}
use ink_foot.Lifecycle.Dedup.Window.{record-repeated, record_all}
use ink_foot.Lifecycle.Handle.{
  Handle, start, end_handle, exit_handle, mark_abandoned_runs, mark_abandoned,
  find_runs_with_status,
}
use ink_foot.Lifecycle.Handle.Program.{
  Program, done, raising, marking, within, Outside, checkpointed, exec, mark,
}
use ink_foot.Lifecycle.Handle.Factory.{Factory, factory_enter, factory_exit}
use ink_foot.Lifecycle.Handle.Released.{Released, end_handle-Released}
use ink_foot.Lifecycle.Marks.{checkpoint}

abbrev pub idle : Process ℤ
idle = record {
  store = record { runs = []; events = [] };
  contracts = none;
  current_run = none;
  ambient_run = none;
  run_states = [];
  sequence_counters = [];
  response_ids = [];
  error_keys = [];
}

abbrev pub at : String → Stamp
at event_id = record { event_id = event_id; now = pos 7 }

abbrev pub outside : Outside ℤ
outside = record {
  loads = λ s. none;
  dumps = λ v. "payload";
  event_of = λ run_id v s. record {
    event_id = v.clause_name;
    run_id = run_id;
    kind = "contract_violation";
    occurred_at = pos 0;
    payload_json = none;
    sequence = pos 1;
    capture_mode = "metadata";
  };
  strip = λ s. s;
  encode = λ s. 1;
}

-- A block in a block, whose body marks a checkpoint and then raises.
abbrev nested : Program ℤ
nested =
    within (some "triage") end "r1" (at "e1") (at "e6") "boom"
      (within none end "r2" (at "e2") (at "e5") "boom"
        (marking (checkpointed (at "e3") "half way") raising) done)
      done

-- How a run ended, and under which it ran.
abbrev ending : Option Run → Option (String × Option String)
ending none = none
ending (some r) = some (r.status, r.parent_run_id)

nested_rows :
    ending (find_run "r2" (exec millionths outside nested idle).0.store.runs)
    ≡ some ("error", some "r1")
unfolding exec mark checkpoint start exit_handle end_handle emit_event next_sequence insert_event
    start_run end_run find_run mark_dirty update_run
nested_rows = refl

-- One id comes again after one of its own run and one of another.
record-repeated_example :
    (record_emitted_response_id "r1" "msg_1" (
      record_all
        (("r1", "msg_2") ∷ ("r2", "msg_1") ∷ [])
        (record_emitted_response_id "r1" "msg_1" []).1)).0
    ≡ false
record-repeated_example =
    record-repeated "r1" "msg_1" (("r1", "msg_2") ∷ ("r2", "msg_1") ∷ []) [] (omega arith)

first_is_recorded : (record_emitted_response_id "r1" "msg_1" []).0 ≡ true
unfolding record_emitted_response_id see_response lookup
first_is_recorded = refl

-- An exception that was raised from one that is known is not new.
abbrev caused : ErrorKey → Option ErrorKey
caused (i, name) = if i == 2 then some (1, "RateLimitError") else none

wrapper_is_known :
    (record_emitted_error caused "r1"
      (2, "AgentError")
      (record_emitted_error caused "r1" (1, "RateLimitError") []).1).0
    ≡ false
unfolding record_emitted_error see_error chain_from lookup insert trim
wrapper_is_known = refl

-- `r1` runs, over nothing.
abbrev pub running : Process ℤ
running =
    (start outside.dumps (at "e1") "r1"
      (record { task = some "triage"; metadata = end; run_id = none; token = none; ended = false })
      idle).1.0

abbrev open_handle : Handle ℤ
open_handle = record {
  task = some "triage";
  metadata = end;
  run_id = some "r1";
  token = some none;
  ended = false;
}

-- The active enforcer knows `r1` and another run.
abbrev active : Runtime ℤ
active = record {
  enforcer = record {
    contracts = [];
    default_cheap_model = none;
    runs = ("r1", new_run "triage" none) ∷ ("r2", new_run "triage" none) ∷ [];
    output_avg = [];
    token_cache = [];
  };
  storage = running.store;
  run_facts = ("r1", (some "triage", none)) ∷ ("r2", (some "triage", none)) ∷ [];
}

abbrev busy : Process ℤ
busy = record running {
  contracts = some active;
  run_states = ("r1", new_state) ∷ ("r2", new_state) ∷ [];
}

end_returns : (end_handle outside.dumps (at "e2") "complete" none open_handle busy).1.1 ≡ returned
unfolding end_handle start emit_event next_sequence insert_event start_run end_run find_run
    mark_dirty update_run
end_returns = refl

end_handle-Released_example :
    Released "r1" busy (end_handle outside.dumps (at "e2") "complete" none open_handle busy).1.0
end_handle-Released_example =
    end_handle-Released "r1" outside.dumps (at "e2") "complete" none open_handle busy refl refl
      end_returns

-- `shutdown` closes the run that was left open.
abandoned_ends :
    ending (find_run "r1" (mark_abandoned_runs outside.dumps at running).store.runs)
    ≡ some ("error", none)
unfolding mark_abandoned_runs mark_abandoned find_runs_with_status start emit_event next_sequence
    insert_event start_run end_run find_run mark_dirty update_run
abandoned_ends = refl

-- A factory that is entered twice before it is left: the outer block cannot be left, and its run stays
-- current.
abbrev entered : Factory ℤ × Process ℤ
entered =
    let outer =
      factory_enter outside.dumps (at "e1") "r1"
        (record { task = none; metadata = end; handle = none }) idle in
    let inner = factory_enter outside.dumps (at "e2") "r2" outer.0 outer.1.0 in (inner.0, inner.1.0)

abbrev then_left :
    Option (Factory ℤ × (Process ℤ × Signal))
    → Option (Option String × Option (Factory ℤ × (Process ℤ × Signal)))
then_left none = none
then_left (some (fac, (p, signal))) =
    some (p.current_run, factory_exit outside.dumps (at "e4") none fac p)

one_handle :
    then_left (factory_exit outside.dumps (at "e3") none entered.0 entered.1)
    ≡ some (some "r1", none)
unfolding factory_enter factory_exit exit_handle end_handle start emit_event next_sequence
    insert_event start_run end_run find_run mark_dirty update_run
one_handle = refl
