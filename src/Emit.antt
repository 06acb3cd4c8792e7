-- ===== src/Emit.antt =====
-- inkfoot/shims/_emit.py: what is written of one LLM call, with its context before the call. A step that
-- raises under `safely_run` leaves things as they were before it. The translator, what it and the
-- decisions are written as, and the enforcer's events come from outside; the contents of replay mode
-- are left out.
pub mod Calls
pub mod Embedding
pub mod Once
pub mod Marked
pub mod Ordered
pub mod Sequences
pub mod Anthropic
mod Tests
use ink_foot.Prelude.Int.{ℤ, pos, negsuc, leb_ℤ}
use ink_foot.Prelude.{
  ℕ, suc, String, Bool, true, false, not, ◌||◌, Option, none, some, List, [], ◌∷◌, ◌++◌, str_eq,
  if◌then◌else◌,
}
use mathlib.Core.Option
use ink_foot.Prelude.Dict.{Dict, insert}
use ink_foot.Prelude.Lists.{elem}
use ink_foot.Value.{Value, null, text, int, boolean, dict, Fields, find}
use ink_foot.Value.Truth.{attr, truthy}
use ink_foot.Ledger.{CausalTokenLedger, empty_ledger, input_total}
use ink_foot.Pricing.{estimate_embedding_nanodollars}
use ink_foot.Storage.{Store, Event, insert_event}
use ink_foot.Policy.{Action, allow, warn, block}
use ink_foot.Normalise.{NeutralCall, NeutralError, InMemoryRunState, not_applicable}
use ink_foot.Normalise.Translate.{Timing}
use ink_foot.Contracts.Runtime.{CallContext, nonempty_text}
use ink_foot.Lifecycle.{
  Process, Signal, storage_error, object, text_or_null, next_sequence, written, ensure_active_run,
}

-- `PolicyDecision`, whose metadata is a document here
pub record HookDecision (F : Type 0) : Type 0 where
  pub action : Action
  pub reason : Option String
  pub metadata : Fields F
  pub emit_event_kind : Option String

-- `SUMMARISER_CALL_METADATA_KEY`
abbrev pub summariser_key : String
summariser_key = "summariser_call"

-- `_merge_estimation_flags`: the flags with those of `extra` that are not there yet.
unfoldable pub merge_flags : List String → List String → List String
merge_flags merged [] = merged
merge_flags merged (flag ∷ extra) =
    merge_flags (if elem flag merged then merged else merged ++ flag ∷ []) extra

-- `_fold_into_summariser_tokens`, on the ledger
unfoldable pub fold_ledger : CausalTokenLedger → CausalTokenLedger
unfolding input_total
fold_ledger old = record empty_ledger {
  summariser_tokens = input_total old;
  cache_creation_tokens = old.cache_creation_tokens;
  cache_read_tokens = old.cache_read_tokens;
  output_tokens = old.output_tokens;
}

abbrev pub action_name : Action → String
action_name allow = "allow"
action_name warn = "warn"
action_name block = "block"

abbrev pub is_allow : Action → Bool
is_allow allow = true
is_allow warn = false
is_allow block = false

-- A text that is there and not empty.
abbrev pub given : Option String → Option String
given none = none
given (some s) = if str_eq s "" then none else some s

-- Where and when the events of a call are written; `ulid` gives the id of the call's own row at 0, and those
-- of its other events at their sequence numbers.
pub record Place : Type 0 where
  pub run_id : String
  pub ended_at : ℤ
  pub capture_mode : String
  pub ulid : ℕ → String

abbrev pub event_at : Place → String → String → ℤ → String → Event
event_at place kind payload sequence event_id = record {
  event_id = event_id;
  run_id = place.run_id;
  kind = kind;
  occurred_at = place.ended_at;
  payload_json = some payload;
  sequence = sequence;
  capture_mode = place.capture_mode;
}

module _ {F : Type 0} where
  abbrev pub fold_into_summariser_tokens : NeutralCall F → NeutralCall F
  fold_into_summariser_tokens call = record call {
    ledger = fold_ledger call.ledger;
    metadata = insert summariser_key (boolean true) call.metadata;
  }

  abbrev pub merge_estimation_flags : List String → NeutralCall F → NeutralCall F
  merge_estimation_flags extra call = record call {
    estimation_flags = merge_flags call.estimation_flags extra;
  }

  -- `_response_dedup_id`
  unfoldable pub response_dedup_id : (F → Bool) → Value F → Option String
  unfolding find
  response_dedup_id is_zero response =
      nonempty_text (
        let id = attr "id" response in
        if truthy is_zero id then id else attr "response_id" response)

  -- An insertion under `safely_run`.
  abbrev pub kept : Event → Process F → Process F
  kept e p = (written p (insert_event e p.store)).0

  -- An event with the run's next sequence number.
  unfoldable pub put_next : Place → String → String → Process F → Process F
  unfolding next_sequence insert_event
  put_next place kind payload p =
      let (n, counters) = next_sequence place.run_id p.sequence_counters in
      kept (event_at place kind payload (pos n) (place.ulid n))
        (record p { sequence_counters = counters })

  module _ (dumps : Value F → String) where
    abbrev pub decision_payload : HookDecision F → String
    decision_payload d = dumps (
        object (
          ("action", text (action_name d.action))
          ∷ ("reason", text_or_null d.reason)
          ∷ ("metadata", dict d.metadata)
          ∷ []))

    -- `_emit_policy_events`
    abbrev pub put_decision : Place → HookDecision F → Option String → Process F → Process F
    put_decision place d none p = p
    put_decision place d (some kind) p =
        if is_allow d.action then p else put_next place kind (decision_payload d) p

    unfoldable pub emit_policy_events : Place → List (HookDecision F) → Process F → Process F
    unfolding put_next
    emit_policy_events place [] p = p
    emit_policy_events place (d ∷ ds) p =
        emit_policy_events place ds (put_decision place d (given d.emit_event_kind) p)

  -- `build_call_context`; `none` where the storage raises.
  unfoldable pub build_call_context :
      String → ℤ → String → String → Fields F → Process F → Option (CallContext F × Process F)
  unfolding ensure_active_run
  build_call_context ulid now provider model request p =
      Option.map
        (λ found. (
          record {
            run_id = found.0;
            provider = provider;
            model = model;
            request_kwargs = request;
            is_helper = false;
            estimated_nanodollars = none;
          },
          found.1,
        ))
        (ensure_active_run ulid now p)
