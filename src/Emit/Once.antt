-- ===== src/Emit/Once.antt =====
-- `emit_llm_call` of inkfoot/shims/_emit.py, where more than one layer sees a call.
use ink_foot.Prelude.{
  ◌<◌, String, ◌≡◌, refl, ap, ◌∙◌, Bool, true, false, Option, none, some, List, [], ◌∷◌, arith, inl,
  inr, Bool-cases,
}
use ink_foot.Prelude.Dict.{Dict}
use ink_foot.Float.{Float}
use ink_foot.Value.{Value}
use ink_foot.Contracts.Estimator.{Tokens}
use ink_foot.Contracts.Runtime.{Runtime}
use ink_foot.Storage.{Event}
use ink_foot.Normalise.{NeutralCall, InMemoryRunState}
use ink_foot.Lifecycle.{Process, under_contracts}
use ink_foot.Lifecycle.Dedup.{record_emitted_response_id, responses_per_run}
use ink_foot.Lifecycle.Dedup.Window.{record_all, sightings_of, record-repeated}
use ink_foot.Emit.{
  is_allow, decision_payload, HookDecision, Place, kept, put_next, put_decision, emit_policy_events,
}
use ink_foot.Emit.Calls.{
  Emission, Around, dedup_id, emit_new, emit_llm_call, emit_recognised, emit_if_first,
  after_translation,
}

module _ {F : Type 0} where
  under_contracts-response_ids :
      (g : Runtime F → Runtime F) (p : Process F)
      → (under_contracts g p).response_ids ≡ p.response_ids
  unfolding under_contracts
  under_contracts-response_ids g p = ground arith

  kept-response_ids : (e : Event) (p : Process F) → (kept e p).response_ids ≡ p.response_ids
  kept-response_ids e p = ground arith

  put_next-response_ids :
      (place : Place) (kind payload : String) (p : Process F)
      → (put_next place kind payload p).response_ids ≡ p.response_ids
  unfolding put_next
  put_next-response_ids place kind payload p = ground arith

  put_decision-response_ids :
      (dumps : Value F → String) (place : Place) (d : HookDecision F) (kind : Option String)
      (p : Process F)
      → (put_decision dumps place d kind p).response_ids ≡ p.response_ids
  put_decision-response_ids dumps place d none p = refl
  put_decision-response_ids dumps place d (some kind) p = elim (Bool-cases (is_allow d.action)) [
    | inl silent ↦ rw silent refl
    | inr told ↦ rw told (put_next-response_ids place kind (decision_payload dumps d) p)
  ]

  emit_policy_events-response_ids :
      (dumps : Value F → String) (place : Place) (ds : List (HookDecision F)) (p : Process F)
      → (emit_policy_events dumps place ds p).response_ids ≡ p.response_ids
  unfolding emit_policy_events
  emit_policy_events-response_ids dumps place [] p = refl
  emit_policy_events-response_ids dumps place (d ∷ ds) p =
      emit_policy_events-response_ids dumps place ds _ ∙ put_decision-response_ids dumps place d _ p

abbrev pub sighting_by : String → Option String → List (String × String) → List (String × String)
sighting_by run_id none rest = rest
sighting_by run_id (some id) rest = (run_id, id) ∷ rest

module _ (f : Float) (t : Tokens (f.F)) (a : Around (f.F)) where
  open f use {F}

  after_translation-response_ids :
      (e : Emission F) (o : InMemoryRunState × Option (NeutralCall F)) (p : Process F)
      → (after_translation f t a e o p).1.response_ids ≡ p.response_ids
  after_translation-response_ids e (state, none) p = refl
  after_translation-response_ids e (state, some call) p =
      under_contracts-response_ids _ _
      ∙ emit_policy_events-response_ids a.dumps _ e.before_decisions _
      ∙ kept-response_ids _ _

  emit_new-response_ids :
      (e : Emission F) (p : Process F) → (emit_new f t a e p).1.response_ids ≡ p.response_ids
  unfolding emit_new
  emit_new-response_ids e p = after_translation-response_ids e _ _

  -- What a list of emissions lets the process see.
  abbrev pub sightings : List (Emission F) → List (String × String)
  sightings [] = []
  sightings (e ∷ es) = sighting_by e.ctx.run_id (dedup_id a.is_zero e) (sightings es)

  abbrev pub emit_all : List (Emission F) → Process F → Process F
  emit_all [] p = p
  emit_all (e ∷ es) p = emit_all es (emit_llm_call f t a e p).1

  emit_if_first-response_ids :
      (e : Emission F) (first : Bool) (sets : Dict (List String)) (p : Process F)
      → (emit_if_first f t a e (first, sets) p).1.response_ids ≡ sets
  emit_if_first-response_ids e true sets p = emit_new-response_ids e _
  emit_if_first-response_ids e false sets p = refl

  emit_recognised-response_ids :
      (e : Emission F) (o : Option String) (p : Process F) (rest : List (String × String))
      → record_all rest (emit_recognised f t a e o p).1.response_ids
        ≡ record_all (sighting_by e.ctx.run_id o rest) p.response_ids
  emit_recognised-response_ids e none p rest = ap (record_all rest) (emit_new-response_ids e p)
  emit_recognised-response_ids e (some id) p rest = ap (record_all rest) (
      emit_if_first-response_ids e (record_emitted_response_id e.ctx.run_id id p.response_ids).0
        (record_emitted_response_id e.ctx.run_id id p.response_ids).1 p)

  emit_all-response_ids :
      (es : List (Emission F)) (p : Process F)
      → (emit_all es p).response_ids ≡ record_all (sightings es) p.response_ids
  unfolding emit_llm_call
  emit_all-response_ids [] p = refl
  emit_all-response_ids (e ∷ es) p =
      emit_all-response_ids es _
      ∙ emit_recognised-response_ids e (dedup_id a.is_zero e) p (sightings es)

  emit_llm_call-known :
      (e : Emission F) (id : String) (p : Process F)
      → dedup_id a.is_zero e ≡ some id
      → (emit_llm_call f t a e p).1.response_ids
        ≡ (record_emitted_response_id e.ctx.run_id id p.response_ids).1
  unfolding emit_llm_call
  emit_llm_call-known e id p seen =
      emit_recognised-response_ids e (dedup_id a.is_zero e) p []
      ∙ ap (λ o. record_all (sighting_by e.ctx.run_id o []) p.response_ids) seen

  known_after :
      (first : Emission F) (between : List (Emission F)) (id : String) (p : Process F)
      → dedup_id a.is_zero first ≡ some id
      → sightings_of first.ctx.run_id (sightings between) < responses_per_run
      → (record_emitted_response_id first.ctx.run_id id
          (emit_all between (emit_llm_call f t a first p).1).response_ids).0
        ≡ false
  known_after first between id p seen room =
      ap (λ sets. (record_emitted_response_id first.ctx.run_id id sets).0)
        (emit_all-response_ids between (emit_llm_call f t a first p).1
          ∙ ap (record_all (sightings between)) (emit_llm_call-known first id p seen))
      ∙ record-repeated first.ctx.run_id id (sightings between) p.response_ids room

  -- An emission that is recognised.
  repeated :
      (e : Emission F) (id : String) (q : Process F)
      → dedup_id a.is_zero e ≡ some id
      → (record_emitted_response_id e.ctx.run_id id q.response_ids).0 ≡ false
      → emit_llm_call f t a e q ≡ (
        e.ctx,
        record q { response_ids = (record_emitted_response_id e.ctx.run_id id q.response_ids).1 },
      )
  unfolding emit_llm_call
  repeated e id q same known =
      ap (λ o. emit_recognised f t a e o q) same
      ∙ ap
          (λ b.
            emit_if_first f t a e (b, (record_emitted_response_id e.ctx.run_id id q.response_ids).1)
              q)
          known

  -- When a layer emits a call whose response id was emitted for the run before, and fewer than 1000
  -- sightings of the run came between, then nothing of the process changes but the age of the id: no
  -- event is written, no sequence number taken, nothing charged.
  pub emit_llm_call-repeated :
      (first again : Emission F) (between : List (Emission F)) (id : String) (p : Process F)
      → dedup_id a.is_zero first ≡ some id
      → dedup_id a.is_zero again ≡ some id
      → again.ctx.run_id ≡ first.ctx.run_id
      → sightings_of first.ctx.run_id (sightings between) < responses_per_run
      → emit_llm_call f t a again (emit_all between (emit_llm_call f t a first p).1) ≡ (
        again.ctx,
        record (emit_all between (emit_llm_call f t a first p).1) {
          response_ids =
              (record_emitted_response_id again.ctx.run_id id
                (emit_all between (emit_llm_call f t a first p).1).response_ids).1;
        },
      )
  emit_llm_call-repeated first again between id p seen same run room =
      repeated again id (emit_all between (emit_llm_call f t a first p).1) same
        (rw run (known_after first between id p seen room))
