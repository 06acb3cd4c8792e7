-- ===== src/Emit/Sequences.antt =====
-- The order in which inkfoot/storage/sqlite.py gives back what inkfoot/shims/_emit.py wrote.
use ink_foot.Prelude.Int.{ℤ, pos}
use ink_foot.Prelude.{
  ◌+◌, String, ◌≡◌, refl, ap, ◌∙◌, Bool, true, false, Option, none, some, List, [], ◌∷◌, arith, inl,
  inr, Bool-cases, Option-cases,
}
use ink_foot.Prelude.Dict.{Dict, lookup}
use ink_foot.Float.{Float}
use ink_foot.Value.{Value, Fields}
use ink_foot.Contracts.Estimator.{Tokens}
use ink_foot.Contracts.Runtime.{Runtime, CallContext, record_runtime_call, facts_for_run}
use ink_foot.Storage.{events_of, iter_events}
use ink_foot.Normalise.{NeutralCall, NeutralError, InMemoryRunState}
use ink_foot.Normalise.Translate.{Timing}
use ink_foot.Lifecycle.{
  Process, under_contracts, next_sequence, counter_or_zero, get_or_create_run_state,
}
use ink_foot.Lifecycle.Dedup.{ErrorKey, record_emitted_error}
use ink_foot.Emit.{
  HookDecision, Place, event_at, put_next, put_decision, emit_policy_events, is_allow,
  decision_payload,
}
use ink_foot.Emit.Calls.{
  Emission, Around, emit_new, emit_llm_call, emit_recognised, emit_if_first, after_translation,
  emit_llm_call_error, put_failure, failed_call, marked, place_of,
}
use ink_foot.Emit.Ordered.{InOrder, stored-InOrder, taken-InOrder, sort_by-Rising}

module _ {F : Type 0} (k : String) where
  put_next-InOrder :
      (place : Place) (kind payload : String) (p : Process F)
      → InOrder k p
      → InOrder k (put_next place kind payload p)
  unfolding put_next next_sequence
  put_next-InOrder place kind payload p h =
      stored-InOrder k
        (event_at place kind payload
          (pos (counter_or_zero (lookup place.run_id p.sequence_counters) + 1))
          (place.ulid (counter_or_zero (lookup place.run_id p.sequence_counters) + 1)))
        p _ refl (ap pos (omega arith)) h

  put_decision-InOrder :
      (dumps : Value F → String) (place : Place) (d : HookDecision F) (kind : Option String)
      (p : Process F)
      → InOrder k p
      → InOrder k (put_decision dumps place d kind p)
  put_decision-InOrder dumps place d none p h = h
  put_decision-InOrder dumps place d (some kind) p h = elim (Bool-cases (is_allow d.action)) [
    | inl silent ↦ rw silent h
    | inr told ↦ rw told (put_next-InOrder place kind (decision_payload dumps d) p h)
  ]

  emit_policy_events-InOrder :
      (dumps : Value F → String) (place : Place) (ds : List (HookDecision F)) (p : Process F)
      → InOrder k p
      → InOrder k (emit_policy_events dumps place ds p)
  unfolding emit_policy_events
  emit_policy_events-InOrder dumps place [] p h = h
  emit_policy_events-InOrder dumps place (d ∷ ds) p h =
      emit_policy_events-InOrder dumps place ds _ (put_decision-InOrder dumps place d _ p h)

  under_contracts-InOrder :
      (g : Runtime F → Runtime F) (p : Process F)
      → ((rt : Runtime F) → (g rt).storage ≡ rt.storage)
      → InOrder k p
      → InOrder k (under_contracts g p)
  unfolding under_contracts
  under_contracts-InOrder g p reads h = elim (Option-cases p.contracts) [
    | inl inactive ↦ rw inactive h
    | inr (rt, active) ↦ rw active (rw (reads (record rt { storage = p.store })) h)
  ]

module _ (f : Float) (t : Tokens (f.F)) (a : Around (f.F)) where
  open f use {F}

  facts_for_run-storage :
      (r : String) (rt : Runtime F) → (facts_for_run a.loads r rt).1.storage ≡ rt.storage
  unfolding facts_for_run
  facts_for_run-storage r rt = ground arith

  record_runtime_call-storage :
      (ctx : CallContext F) (output : Option ℤ) (rt : Runtime F)
      → (record_runtime_call f t a.loads a.event_of ctx output rt).storage ≡ rt.storage
  unfolding record_runtime_call
  record_runtime_call-storage ctx output rt = facts_for_run-storage ctx.run_id rt

  -- A translator that numbers the call as it is told.
  abbrev pub KeepsSequence : Type 0
  KeepsSequence =
      (request : Fields F) (response : Value F) (timing : Timing) (state : InMemoryRunState)
      (call : NeutralCall F)
      → (a.translator request response timing state).1 ≡ some call
      → call.sequence ≡ timing.sequence

  marked-sequence :
      (e : Emission F) (call : NeutralCall F) → (marked e call).sequence ≡ call.sequence
  marked-sequence e call = ground arith

  after_translation-InOrder :
      (k : String) (e : Emission F) (state : InMemoryRunState) (o : Option (NeutralCall F))
      (p : Process F)
      → InOrder k p
      → ((call : NeutralCall F)
          → o ≡ some call
          → call.sequence ≡ pos (next_sequence e.ctx.run_id p.sequence_counters).0)
      → InOrder k
          (after_translation f t a e
            (state, o)
            (record p { sequence_counters = (next_sequence e.ctx.run_id p.sequence_counters).1 })).1
  unfolding next_sequence
  after_translation-InOrder k e state none p h keeps = taken-InOrder k e.ctx.run_id p h
  after_translation-InOrder k e state (some call) p h keeps =
      under_contracts-InOrder k _ _ (λ rt. record_runtime_call-storage _ _ rt)
        (emit_policy_events-InOrder k a.dumps (place_of e) e.before_decisions _ (
          stored-InOrder k
            (event_at (place_of e) "llm_call" (a.dumps_call (marked e call))
              (marked e call).sequence (e.ulid 0))
            (record p { run_states = _ }) _ refl
            (marked-sequence e call ∙ keeps call refl ∙ ap pos (omega arith)) h))

  emit_new-InOrder :
      (k : String) (e : Emission F) (p : Process F)
      → KeepsSequence
      → InOrder k p
      → InOrder k (emit_new f t a e p).1
  unfolding emit_new get_or_create_run_state
  emit_new-InOrder k e p keeps h =
      after_translation-InOrder k e _ _ (get_or_create_run_state e.ctx.run_id p).1 h
        (λ call found. keeps _ _ _ _ call found)

  emit_if_first-InOrder :
      (k : String) (e : Emission F) (first : Bool) (sets : Dict (List String)) (p : Process F)
      → KeepsSequence
      → InOrder k p
      → InOrder k (emit_if_first f t a e (first, sets) p).1
  emit_if_first-InOrder k e true sets p keeps h =
      emit_new-InOrder k e (record p { response_ids = sets }) keeps h
  emit_if_first-InOrder k e false sets p keeps h = h

  emit_recognised-InOrder :
      (k : String) (e : Emission F) (o : Option String) (p : Process F)
      → KeepsSequence
      → InOrder k p
      → InOrder k (emit_recognised f t a e o p).1
  emit_recognised-InOrder k e none p keeps h = emit_new-InOrder k e p keeps h
  emit_recognised-InOrder k e (some id) p keeps h = emit_if_first-InOrder k e _ _ p keeps h

  put_failure-InOrder :
      (k : String) (e : Emission F) (error : NeutralError) (p : Process F)
      → InOrder k p
      → InOrder k (put_failure f t a e error p)
  unfolding next_sequence
  put_failure-InOrder k e error p h =
      emit_policy_events-InOrder k a.dumps (place_of e) e.before_decisions _ (
        stored-InOrder k
          (event_at (place_of e) "llm_call"
            (a.dumps_call (
              failed_call f t a e error
                (counter_or_zero (lookup e.ctx.run_id p.sequence_counters) + 1)))
            (pos (counter_or_zero (lookup e.ctx.run_id p.sequence_counters) + 1)) (e.ulid 0))
          p _ refl (ap pos (omega arith)) h)

  emit_llm_call_error-InOrder :
      (k : String) (next : ErrorKey → Option ErrorKey) (exc : ErrorKey) (error : NeutralError)
      (e : Emission F) (p : Process F)
      → InOrder k p
      → InOrder k (emit_llm_call_error f t a next exc error e p)
  unfolding emit_llm_call_error
  emit_llm_call_error-InOrder k next exc error e p h =
      elim (Bool-cases (record_emitted_error next e.ctx.run_id exc p.error_keys).0) [
        | inl new ↦ rw new (put_failure-InOrder k e error _ h)
        | inr again ↦ rw again h
      ]

-- A call that was answered, or that raised.
pub data Observed (F : Type 0) : Type 0 where
  answered : Emission F → Observed F
  raised : (ErrorKey → Option ErrorKey) → ErrorKey → NeutralError → Emission F → Observed F

module _ (f : Float) (t : Tokens (f.F)) (a : Around (f.F)) where
  open f use {F}

  abbrev pub observe : Observed F → Process F → Process F
  observe (answered e) p = (emit_llm_call f t a e p).1
  observe (raised next exc error e) p = emit_llm_call_error f t a next exc error e p

  abbrev pub observe_all : List (Observed F) → Process F → Process F
  observe_all [] p = p
  observe_all (o ∷ os) p = observe_all os (observe o p)

  observe-InOrder :
      (k : String) (o : Observed F) (p : Process F)
      → KeepsSequence f t a
      → InOrder k p
      → InOrder k (observe o p)
  unfolding emit_llm_call
  observe-InOrder k (answered e) p keeps h = emit_recognised-InOrder f t a k e _ p keeps h
  observe-InOrder k (raised next exc error e) p keeps h =
      emit_llm_call_error-InOrder f t a k next exc error e p h

  observe_all-InOrder :
      (k : String) (os : List (Observed F)) (p : Process F)
      → KeepsSequence f t a
      → InOrder k p
      → InOrder k (observe_all os p)
  observe_all-InOrder k [] p keeps h = h
  observe_all-InOrder k (o ∷ os) p keeps h =
      observe_all-InOrder k os (observe o p) keeps (observe-InOrder k o p keeps h)

  -- Whatever calls of whatever runs are emitted, answered or failed, in a process whose events of a run are
  -- numbered in rising order up to its counter: that stays so, and the run's events are read back in the
  -- order in which they were written.
  pub iter_events-observe_all :
      (k : String) (os : List (Observed F)) (p : Process F)
      → KeepsSequence f t a
      → InOrder k p
      → InOrder k (observe_all os p)
        × (iter_events k (observe_all os p).store ≡ events_of k (observe_all os p).store.events)
  unfolding iter_events
  iter_events-observe_all k os p keeps h =
      let after = observe_all-InOrder k os p keeps h in (after, sort_by-Rising 0 _ _ after)
