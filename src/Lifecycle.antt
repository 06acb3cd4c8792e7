-- ===== src/Lifecycle.antt =====
-- inkfoot/_run_lifecycle.py and inkfoot/_run_context.py: what a process keeps for its runs, and the
-- events of a run's lifecycle. One context of the ContextVar is modelled: one thread, or one task. What
-- a ULID, the clock and `json.dumps` give comes from outside.
pub mod Dedup
pub mod Marks
pub mod Handle
pub mod Tests
use ink_foot.Prelude.Int.{ℤ, pos}
use ink_foot.Prelude.{
  ℕ, suc, ◌+◌, String, Bool, true, false, Option, none, some, List, [], ◌∷◌, str_eq, if◌then◌else◌,
}
use ink_foot.Prelude.Dict.{Dict, lookup, insert, remove}
use ink_foot.Value.{Value, null, text, dict, Fields, end, field, Key}
use ink_foot.Storage.{Store, Event, insert_event, start_run}
use ink_foot.Normalise.{InMemoryRunState}
use ink_foot.Contracts.Runtime.{Runtime}
use ink_foot.Lifecycle.Dedup.{ErrorKey}

-- The module's globals, the sequence counters of inkfoot/shims/_emit.py among them. The contract runtime
-- holds the same storage, which is handed to it and taken back (`under_contracts`).
pub record Process (F : Type 0) : Type 0 where
  pub store : Store
  pub contracts : Option (Runtime F)
  pub current_run : Option String
  pub ambient_run : Option String
  pub run_states : Dict InMemoryRunState
  pub sequence_counters : Dict ℕ
  pub response_ids : Dict (List String)
  pub error_keys : Dict (List ErrorKey)

-- A new event id, and the time.
pub record Stamp : Type 0 where
  pub event_id : String
  pub now : ℤ

-- How an operation ends: it returns, or raises `ValueError`, `TypeError`, `NoActiveRun`, what the storage raises, or
-- what the code of the user raises.
pub data Signal : Type 0 where
  returned value_error type_error no_active_run storage_error user_error : Signal

-- `InMemoryRunState()`
abbrev pub new_state : InMemoryRunState
new_state = record {
  stable_system_prefix = "";
  pending_retrieved_context_tokens = pos 0;
  node_name = none;
  tools_fingerprint = none;
  agent_name = none;
  task_name = none;
}

abbrev pub counter_or_zero : Option ℕ → ℕ
counter_or_zero none = 0
counter_or_zero (some n) = n

abbrev pub state_or_new : Option InMemoryRunState → InMemoryRunState
state_or_new none = new_state
state_or_new (some s) = s

-- A mapping with the given entries.
abbrev pub object : {F : Type 0} → List (String × Value F) → Value F
object entries = dict (fields entries)
  where
    fields : {F : Type 0} → List (String × Value F) → Fields F
    fields [] = end
    fields ((k, v) ∷ es) = field (Key.name k) v (fields es)

abbrev pub text_or_null : {F : Type 0} → Option String → Value F
text_or_null none = null
text_or_null (some s) = text s

-- `_next_sequence`
unfoldable pub next_sequence : String → Dict ℕ → ℕ × Dict ℕ
unfolding lookup insert
next_sequence run_id counters =
    let n = counter_or_zero (lookup run_id counters) + 1 in (n, insert run_id n counters)

abbrev pub metadata_event : Stamp → String → String → String → ℕ → Event
metadata_event stamp run_id kind payload sequence = record {
  event_id = stamp.event_id;
  run_id = run_id;
  kind = kind;
  occurred_at = stamp.now;
  payload_json = some payload;
  sequence = pos sequence;
  capture_mode = "metadata";
}

module _ {F : Type 0} where
  -- `get_or_create_run_state`
  unfoldable pub get_or_create_run_state : String → Process F → InMemoryRunState × Process F
  unfolding lookup insert
  get_or_create_run_state run_id p =
      let s = state_or_new (lookup run_id p.run_states) in
      (s, record p { run_states = insert run_id s p.run_states })

  abbrev pub set_run_state : String → InMemoryRunState → Process F → Process F
  set_run_state run_id s p = record p { run_states = insert run_id s p.run_states }

  -- `ensure_active_run`: the explicit run, or the one ambient run, which is started when it is needed
  -- first; `none` where the storage raises.
  unfoldable pub ensure_active_run : String → ℤ → Process F → Option (String × Process F)
  unfolding start_run
  ensure_active_run ulid now p = elim p.current_run [
    | some run_id ↦ some (run_id, p)
    | none ↦ elim p.ambient_run [
      | some run_id ↦ some (run_id, p)
      | none ↦
          elim (start_run ulid (some "ambient") (some "ambient") now none "root" none p.store) [
            | none ↦ none
            | some s ↦ some (ulid, record p { store = s; ambient_run = some ulid })
          ]
    ]
  ]

  abbrev pub written : Process F → Option Store → Process F × Signal
  written p none = (p, storage_error)
  written p (some s) = (record p { store = s }, returned)

  module _ (dumps : Value F → String) where
    -- `_emit_event`: the sequence number is taken before the row is written.
    unfoldable pub emit_event : Stamp → String → String → Value F → Process F → Process F × Signal
    unfolding next_sequence insert_event
    emit_event stamp run_id kind payload p =
        let (n, counters) = next_sequence run_id p.sequence_counters in
        written (record p { sequence_counters = counters })
          (insert_event (metadata_event stamp run_id kind (dumps payload) n) p.store)

  abbrev pub with_store : Process F → Runtime F → Process F
  with_store p rt = record p { store = rt.storage; contracts = some rt }

  -- A call into the contract runtime, which does nothing without an active enforcer.
  unfoldable pub under_contracts : (Runtime F → Runtime F) → Process F → Process F
  under_contracts g p = elim p.contracts [
    | none ↦ p
    | some rt ↦ with_store p (g (record rt { storage = p.store }))
  ]
