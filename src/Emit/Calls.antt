-- ===== src/Emit/Calls.antt =====
-- `emit_llm_call`, `emit_llm_call_error` and `emit_embedding_call` of inkfoot/shims/_emit.py. Of one call and the
-- layers that see it: a second sighting writes nothing. The signal between the two shims of embeddings is left
-- out.
use ink_foot.Prelude.Int.{ℤ, pos}
use ink_foot.Prelude.{ℕ, String, Bool, true, false, Option, none, some, List, [], if◌then◌else◌}
use ink_foot.Prelude.Dict.{Dict}
use ink_foot.Float.{Float}
use ink_foot.Value.{Value, Fields}
use ink_foot.Ledger.{empty_ledger}
use ink_foot.Storage.{Store, Event, insert_event}
use ink_foot.Normalise.{NeutralCall, NeutralError, InMemoryRunState, not_applicable}
use ink_foot.Normalise.Translate.{Timing}
use ink_foot.Contracts.Estimator.{Tokens}
use ink_foot.Contracts.Enforcer.{ContractViolation}
use ink_foot.Contracts.Runtime.{CallContext, record_runtime_call}
use ink_foot.Lifecycle.{
  Process, next_sequence, get_or_create_run_state, set_run_state, under_contracts,
}
use ink_foot.Lifecycle.Dedup.{ErrorKey, record_emitted_response_id, record_emitted_error}
use ink_foot.Emit.{
  HookDecision, merge_estimation_flags, fold_into_summariser_tokens, response_dedup_id, given,
  Place, event_at, kept, emit_policy_events,
}

-- The arguments of an emission, but for the storage, which is the process's.
pub record Emission (F : Type 0) : Type 0 where
  pub ctx : CallContext F
  pub response : Value F
  pub started_at : ℤ
  pub ended_at : ℤ
  pub capture_mode : String
  pub before_decisions : List (HookDecision F)
  pub response_id : Option String
  pub skip_dedup : Bool
  pub extra_estimation_flags : List String
  pub ulid : ℕ → String

-- What the code around the pipeline computes. `translator` is the method `translate`.
pub record Around (F : Type 0) : Type 0 where
  pub is_zero : F → Bool
  pub translator :
      Fields F → Value F → Timing → InMemoryRunState → InMemoryRunState × Option (NeutralCall F)
  pub dumps : Value F → String
  -- `json.dumps(asdict(neutral_call), default=str)`
  pub dumps_call : NeutralCall F → String
  pub loads : String → Option (Value F)
  -- The events of the contract runtime
  pub event_of : String → ContractViolation F → Store → Event

abbrev pub first_of : Option String → Option String → Option String
first_of none other = other
first_of (some s) other = some s

module _ {F : Type 0} where
  abbrev pub place_of : Emission F → Place
  place_of e = record {
    run_id = e.ctx.run_id;
    ended_at = e.ended_at;
    capture_mode = e.capture_mode;
    ulid = e.ulid;
  }

  -- `translate` is given no parent and no error.
  abbrev pub timing_of : Emission F → ℕ → Timing
  timing_of e n = record {
    started_at = e.started_at;
    ended_at = e.ended_at;
    sequence = pos n;
    parent_run_id = none;
    error = none;
  }

  -- The id on which an emission is recognised.
  unfoldable pub dedup_id : (F → Bool) → Emission F → Option String
  unfolding response_dedup_id
  dedup_id is_zero e =
      if e.skip_dedup
      then none
      else first_of (given e.response_id) (response_dedup_id is_zero e.response)

  abbrev pub marked : Emission F → NeutralCall F → NeutralCall F
  marked e call =
      let merged = merge_estimation_flags e.extra_estimation_flags call in
      if e.ctx.is_helper then fold_into_summariser_tokens merged else merged

  abbrev pub with_cost : Option ℤ → CallContext F → CallContext F
  with_cost none ctx = ctx
  with_cost (some nd) ctx = record ctx { estimated_nanodollars = some nd }

module _ (f : Float) (t : Tokens (f.F)) (a : Around (f.F)) where
  open f use {F}

  -- The row of the call, the events of its decisions, and the enforcer's account.
  abbrev pub put_call : Emission F → NeutralCall F → Process F → CallContext F × Process F
  put_call e call p =
      let ctx = with_cost call.estimated_nanodollars e.ctx in
      (
        ctx,
        under_contracts
            (record_runtime_call f t a.loads a.event_of ctx (some call.ledger.output_tokens))
            (emit_policy_events a.dumps (place_of e) e.before_decisions (
              kept (event_at (place_of e) "llm_call" (a.dumps_call call) call.sequence (e.ulid 0))
                p)),
      )

  -- A call that the translator raises on is dropped, with a warning.
  abbrev pub after_translation :
      Emission F → InMemoryRunState × Option (NeutralCall F) → Process F → CallContext F × Process F
  after_translation e (state, none) p = (e.ctx, set_run_state e.ctx.run_id state p)
  after_translation e (state, some call) p =
      put_call e (marked e call) (set_run_state e.ctx.run_id state p)

  unfoldable pub emit_new : Emission F → Process F → CallContext F × Process F
  unfolding get_or_create_run_state next_sequence emit_policy_events under_contracts
      record_runtime_call insert_event
  emit_new e p =
      let (state, p') = get_or_create_run_state e.ctx.run_id p in
      let (n, counters) = next_sequence e.ctx.run_id p'.sequence_counters in
      after_translation e (a.translator e.ctx.request_kwargs e.response (timing_of e n) state)
        (record p' { sequence_counters = counters })

  abbrev pub emit_if_first :
      Emission F → Bool × Dict (List String) → Process F → CallContext F × Process F
  emit_if_first e (true, sets) p = emit_new e (record p { response_ids = sets })
  emit_if_first e (false, sets) p = (e.ctx, record p { response_ids = sets })

  abbrev pub emit_recognised : Emission F → Option String → Process F → CallContext F × Process F
  emit_recognised e none p = emit_new e p
  emit_recognised e (some id) p =
      emit_if_first e (record_emitted_response_id e.ctx.run_id id p.response_ids) p

  -- `emit_llm_call`, with the context as the hooks after the call see it
  unfoldable pub emit_llm_call : Emission F → Process F → CallContext F × Process F
  unfolding dedup_id record_emitted_response_id emit_new
  emit_llm_call e p = emit_recognised e (dedup_id a.is_zero e) p

  -- The call of a failure: no tokens, and what was raised.
  abbrev pub failed_call : Emission F → NeutralError → ℕ → NeutralCall F
  failed_call e error n = record {
    provider = e.ctx.provider;
    model = e.ctx.model;
    started_at = e.started_at;
    ended_at = e.ended_at;
    ledger = empty_ledger;
    estimated_nanodollars = none;
    tools_offered = [];
    tools_called = [];
    error = some error;
    cache_status = not_applicable;
    parent_run_id = none;
    sequence = pos n;
    estimation_flags = [];
    metadata = [];
  }

  abbrev pub put_failure : Emission F → NeutralError → Process F → Process F
  put_failure e error p =
      let (n, counters) = next_sequence e.ctx.run_id p.sequence_counters in
      emit_policy_events a.dumps (place_of e) e.before_decisions (
        kept
          (event_at (place_of e) "llm_call" (a.dumps_call (failed_call e error n)) (pos n)
            (e.ulid 0))
          (record p { sequence_counters = counters }))

  -- `emit_llm_call_error`, with the chain of the exception as `next` gives it, its name and message
  unfoldable pub emit_llm_call_error :
      (ErrorKey → Option ErrorKey) → ErrorKey → NeutralError → Emission F → Process F → Process F
  unfolding record_emitted_error next_sequence insert_event emit_policy_events
  emit_llm_call_error next exc error e p =
      let (first, keys) = record_emitted_error next e.ctx.run_id exc p.error_keys in
      if first
      then put_failure e error (record p { error_keys = keys })
      else record p { error_keys = keys }
