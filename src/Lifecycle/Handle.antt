-- ===== src/Lifecycle/Handle.antt =====
-- `_RunHandle` of inkfoot/_run_lifecycle.py: `start`, `end` and the `with` block, and what `shutdown` does
-- to the runs that were never ended. `_AgentRunFactory` makes a new handle for each block.
pub mod Program
pub mod Factory
pub mod Nesting
pub mod Released
use ink_foot.Prelude.Int.{ℤ}
use ink_foot.Prelude.{
  String, Bool, true, false, not, ◌||◌, Option, none, some, List, [], ◌∷◌, str_eq, if◌then◌else◌,
}
use ink_foot.Prelude.Lists.{select}
use ink_foot.Prelude.Dict.{Dict, lookup, insert, remove}
use ink_foot.Value.{Value, null, text, dict, Fields, end, field, find, get}
use ink_foot.Storage.{Store, Run, start_run, end_run}
use ink_foot.Contracts.Runtime.{Runtime, on_run_start, on_run_end}
use ink_foot.Lifecycle.{
  Process, Stamp, Signal, returned, value_error, storage_error, object, text_or_null, emit_event,
  under_contracts,
}

-- The token is the run that was current before, as `ContextVar.reset` restores it.
pub record Handle (F : Type 0) : Type 0 where
  pub task : Option String
  pub metadata : Fields F
  pub run_id : Option String
  pub token : Option (Option String)
  pub ended : Bool

abbrev pub valid_status : String → Bool
valid_status status = str_eq status "complete" || str_eq status "error"

-- `SQLiteStorage.find_runs_with_status`
unfoldable pub find_runs_with_status : String → Store → List String
find_runs_with_status status s = ids_of (select (λ r. str_eq r.status status) s.runs)
  where
    ids_of : List Run → List String
    ids_of [] = []
    ids_of (r ∷ rs) = r.id ∷ ids_of rs

module _ {F : Type 0} where
  -- `_RunHandle.__init__`
  abbrev pub new_handle : Option String → Fields F → Handle F
  new_handle task metadata = record {
    task = task;
    metadata = metadata;
    run_id = none;
    token = none;
    ended = false;
  }

  -- An agent kind that is no text counts as none.
  abbrev pub text_of : Value F → Option String
  text_of (text s) = some s
  text_of _ = none

  abbrev pub metadata_json : (Value F → String) → Fields F → Option String
  metadata_json dumps end = none
  metadata_json dumps fs = some (dumps (dict fs))

  -- `_release_run_state`
  unfoldable pub release_run_state : String → Process F → Process F
  unfolding remove
  release_run_state run_id p = record p {
    sequence_counters = remove run_id p.sequence_counters;
    run_states = remove run_id p.run_states;
    response_ids = remove run_id p.response_ids;
    error_keys = remove run_id p.error_keys;
  }

  abbrev pub restored : Option (Option String) → Process F → Process F
  restored none p = p
  restored (some prior) p = record p { current_run = prior }

  module _ (dumps : Value F → String) where
    -- The run is in the table: it becomes the current one, and its first event is written.
    abbrev pub started_in :
        Stamp → String → Option String → Handle F → Process F → Handle F × (Process F × Signal)
    started_in stamp run_id parent h p = (
      record h { run_id = some run_id; token = some parent },
      emit_event dumps stamp run_id "run_start"
          (object (
            ("task", text_or_null h.task)
            ∷ ("parent_run_id", text_or_null parent)
            ∷ ("metadata", dict h.metadata)
            ∷ []))
          (under_contracts (on_run_start run_id h.task (some h.metadata))
            (record p { current_run = some run_id })),
    )

    -- `start`; a handle that was started stays as it is.
    unfoldable pub start : Stamp → String → Handle F → Process F → Handle F × (Process F × Signal)
    unfolding emit_event under_contracts on_run_start start_run find
    start stamp ulid h p = elim h.run_id [
      | some run_id ↦ (h, (p, returned))
      | none ↦
          elim (start_run ulid h.task (text_of (get "agent_kind" h.metadata)) stamp.now
            p.current_run "root" (metadata_json dumps h.metadata) p.store) [
              | none ↦ (h, (p, storage_error))
              | some s ↦ started_in stamp ulid p.current_run h (record p { store = s })
            ]
    ]

    -- The end of `end`, once the last event is written.
    abbrev pub ended_in :
        String → Handle F → Process F → Option Store → Handle F × (Process F × Signal)
    ended_in run_id h p none = (h, (p, storage_error))
    ended_in run_id h p (some s) = (
      record h { token = none; ended = true },
      (
        under_contracts (on_run_end run_id)
            (release_run_state run_id (restored h.token (record p { store = s }))),
        returned,
      ),
    )

    abbrev pub after_last_event :
        Stamp → String → String → Handle F → Process F × Signal → Handle F × (Process F × Signal)
    after_last_event stamp run_id status h (p, returned) =
        ended_in run_id h p (end_run run_id stamp.now status p.store)
    after_last_event stamp run_id status h (p, signal) = (h, (p, signal))

    abbrev pub end_run_of :
        Stamp
        → String
        → String
        → Option String
        → Handle F
        → Process F
        → Handle F × (Process F × Signal)
    end_run_of stamp run_id status message h p = after_last_event stamp run_id status h (
        emit_event dumps stamp run_id "run_end"
          (object (("status", text status) ∷ ("error_message", text_or_null message) ∷ [])) p)

    -- `end`
    unfoldable pub end_handle :
        Stamp → String → Option String → Handle F → Process F → Handle F × (Process F × Signal)
    unfolding emit_event end_run release_run_state under_contracts on_run_end
    end_handle stamp status message h p = if h.ended then (h, (p, returned)) else elim h.run_id [
      | none ↦ (record h { ended = true }, (p, returned))
      | some run_id ↦
          if valid_status status
          then end_run_of stamp run_id status message h p
          else (h, (p, value_error))
    ]

    -- `__exit__`, with the text of the exception that leaves the block
    unfoldable pub exit_handle :
        Stamp → Option String → Handle F → Process F → Handle F × (Process F × Signal)
    unfolding end_handle
    exit_handle stamp none h p = end_handle stamp "complete" none h p
    exit_handle stamp (some message) h p = end_handle stamp "error" (some message) h p

    abbrev pub closed : String → Process F × Option Store → Process F
    closed run_id (p, none) = release_run_state run_id p
    closed run_id (p, some s) = release_run_state run_id (record p { store = s })

    abbrev pub close_row : Stamp → String → Process F × Signal → Process F × Option Store
    close_row stamp run_id (p, returned) = (p, end_run run_id stamp.now "error" p.store)
    close_row stamp run_id (p, signal) = (p, none)

    -- One run of the loop of `_mark_abandoned_runs`: what raises is logged, and the state released.
    unfoldable pub mark_abandoned : Stamp → String → Process F → Process F
    unfolding emit_event end_run release_run_state
    mark_abandoned stamp run_id p = closed run_id (
        close_row stamp run_id (
          emit_event dumps stamp run_id "run_end"
            (object (("status", text "error") ∷ ("error_message", text "abandoned") ∷ [])) p))

    abbrev pub mark_each : (String → Stamp) → List String → Process F → Process F
    mark_each stamp_of [] p = p
    mark_each stamp_of (run_id ∷ run_ids) p =
        mark_each stamp_of run_ids (mark_abandoned (stamp_of run_id) run_id p)

    -- `_mark_abandoned_runs`
    unfoldable pub mark_abandoned_runs : (String → Stamp) → Process F → Process F
    unfolding mark_abandoned find_runs_with_status
    mark_abandoned_runs stamp_of p = mark_each stamp_of (find_runs_with_status "running" p.store) p
