-- ===== src/Emit/Embedding.antt =====
-- `emit_embedding_call` of inkfoot/shims/_emit.py, but for its signal to the other shim of embeddings. It is not
-- isolated here: what the storage raises reaches the caller, whose `safely_run` takes it.
use ink_foot.Prelude.Int.{ℤ, clamp}
use ink_foot.Prelude.{
  ℕ, String, ◌≡◌, refl, ap, ◌∙◌, Bool, Option, none, some, List, [], ◌∷◌, ◌++◌, str_eq,
  if◌then◌else◌, inl, inr, Bool-cases, arith,
}
use ink_foot.Value.{Value, null, text, int, boolean}
use ink_foot.Pricing.{estimate_embedding_nanodollars}
use ink_foot.Prelude.Sort.{sort_by}
use ink_foot.Storage.{
  no_totals, Totals, Store, Event, insert_event, start_run, iter_events, events_of,
}
use ink_foot.Storage.Rows.{insert_event-events, events_of-append}
use ink_foot.Storage.Aggregator.{projected}
use ink_foot.Storage.Projection.{added_by_event, project_run_totals}
use ink_foot.Storage.Projection.Silent.{project_run_totals-silent}
use ink_foot.Lifecycle.{
  Process, Stamp, Signal, storage_error, object, metadata_event, next_sequence, written,
  ensure_active_run,
}
use ink_foot.Emit.{given}

-- The arguments, and the run that would be started.
pub record EmbeddingCall : Type 0 where
  pub provider : String
  pub model : String
  pub input_tokens : ℤ
  pub batch_size : ℤ
  pub occurred_at : Option ℤ
  pub token_count_estimated : Bool
  pub run_id : Option String

abbrev pub cost_or_null : {F : Type 0} → Option ℤ → Value F
cost_or_null none = null
cost_or_null (some n) = int n

-- `occurred_at`, or now
abbrev pub time_of : EmbeddingCall → Stamp → ℤ
time_of c stamp = elim c.occurred_at [ none ↦ stamp.now | some at ↦ at ]

module _ {F : Type 0} where
  abbrev pub embedding_payload : EmbeddingCall → Value F
  embedding_payload c = object (
      ("provider", text c.provider)
      ∷ ("model", text c.model)
      ∷ ("input_tokens", int (clamp c.input_tokens))
      ∷ ("batch_size", int (clamp c.batch_size))
      ∷ (
        "estimated_nanodollars",
        cost_or_null (estimate_embedding_nanodollars c.provider c.model (clamp c.input_tokens)),
      )
      ∷ ("token_count_estimated", boolean c.token_count_estimated)
      ∷ [])

  abbrev pub run_for : String → Stamp → Option String → Process F → Option (String × Process F)
  run_for ulid stamp (some run_id) p = some (run_id, p)
  run_for ulid stamp none p = ensure_active_run ulid stamp.now p

  module _ (dumps : Value F → String) where
    abbrev pub embedding_event : EmbeddingCall → Stamp → String → ℕ → Event
    embedding_event c stamp run_id n =
        metadata_event (record stamp { now = time_of c stamp }) run_id "embedding_call"
          (dumps (embedding_payload c)) n

    abbrev pub put_embedding :
        EmbeddingCall → Stamp → Process F → Option (String × Process F) → Process F × Signal
    put_embedding c stamp before none = (before, storage_error)
    put_embedding c stamp before (some (run_id, p)) =
        let (n, counters) = next_sequence run_id p.sequence_counters in
        written (record p { sequence_counters = counters })
          (insert_event (embedding_event c stamp run_id n) p.store)

    unfoldable pub emit_embedding_call :
        EmbeddingCall → String → Stamp → Process F → Process F × Signal
    unfolding ensure_active_run next_sequence insert_event estimate_embedding_nanodollars
    emit_embedding_call c ulid stamp p =
        put_embedding c stamp p (run_for ulid stamp (given c.run_id) p)

  module _ (loads : String → Option (Value F)) (k : String) where
    silent_kind : (e : Event) → e.kind ≡ "embedding_call" → added_by_event loads e ≡ some no_totals
    unfolding added_by_event
    silent_kind e h = rw h refl

    abbrev projection_of : List Event → Option Totals
    projection_of es = project_run_totals loads (sort_by (λ x. x.sequence) es)

    log-stored :
        (e : Event) (s s' : Store)
        → insert_event e s ≡ some s'
        → events_of k s'.events
          ≡ (if str_eq e.run_id k then events_of k s.events ++ e ∷ [] else events_of k s.events)
    log-stored e s s' i =
        ap (events_of k) (insert_event-events e s s' i) ∙ events_of-append k s.events e

    written-projected :
        (e : Event) (p : Process F) (o : Option Store)
        → e.kind ≡ "embedding_call"
        → insert_event e p.store ≡ o
        → projected loads k (written p o).0.store ≡ projected loads k p.store
    unfolding iter_events
    written-projected e p none h i = refl
    written-projected e p (some s') h i = elim (Bool-cases (str_eq e.run_id k)) [
      | inl own ↦
          ap projection_of {y = events_of k p.store.events ++ e ∷ []}
            (log-stored e p.store s' i ∙ rw own refl)
          ∙ project_run_totals-silent loads e (events_of k p.store.events) (silent_kind e h)
      | inr other ↦
          ap projection_of {y = events_of k p.store.events}
            (log-stored e p.store s' i ∙ rw other refl)
    ]

    same_events : (s s' : Store) → s'.events ≡ s.events → projected loads k s' ≡ projected loads k s
    unfolding iter_events
    same_events s s' same = ap (λ es. projection_of (events_of k es)) same

    -- What finding the run leaves of the log.
    abbrev KeepsLog : Process F → Option (String × Process F) → Type 0
    KeepsLog p none = Unit
    KeepsLog p (some (run_id, p')) = p'.store.events ≡ p.store.events

    ensure_active_run-KeepsLog :
        (ulid : String) (now : ℤ) (p : Process F) → KeepsLog p (ensure_active_run ulid now p)
    unfolding ensure_active_run start_run
    ensure_active_run-KeepsLog ulid now p = ground arith

    run_for-KeepsLog :
        (ulid : String) (stamp : Stamp) (o : Option String) (p : Process F)
        → KeepsLog p (run_for ulid stamp o p)
    run_for-KeepsLog ulid stamp none p = ensure_active_run-KeepsLog ulid stamp.now p
    run_for-KeepsLog ulid stamp (some run_id) p = refl

    put_embedding-projected :
        (dumps : Value F → String) (c : EmbeddingCall) (stamp : Stamp) (p : Process F)
        (o : Option (String × Process F))
        → KeepsLog p o
        → projected loads k (put_embedding dumps c stamp p o).0.store ≡ projected loads k p.store
    put_embedding-projected dumps c stamp p none keeps = refl
    put_embedding-projected dumps c stamp p (some (run_id, p')) keeps =
        written-projected
          (embedding_event dumps c stamp run_id (next_sequence run_id p'.sequence_counters).0)
          (record p' { sequence_counters = (next_sequence run_id p'.sequence_counters).1 }) _ refl
          refl
        ∙ same_events p.store p'.store keeps

    -- An embedding call never counts for the projected totals: the projection of each run's log is what it
    -- was before the call, whether it was recorded, refused, or opened the ambient run.
    pub emit_embedding_call-projected :
        (dumps : Value F → String) (c : EmbeddingCall) (ulid : String) (stamp : Stamp)
        (p : Process F)
        → projected loads k (emit_embedding_call dumps c ulid stamp p).0.store
          ≡ projected loads k p.store
    unfolding emit_embedding_call
    emit_embedding_call-projected dumps c ulid stamp p =
        put_embedding-projected dumps c stamp p _ (run_for-KeepsLog ulid stamp (given c.run_id) p)
