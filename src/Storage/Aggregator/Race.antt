-- ===== src/Storage/Aggregator/Race.antt =====
-- Two workers of inkfoot/storage/aggregator.py on one run, as the in-process thread and the
-- aggregator-worker command are.
use ink_foot.Prelude.{String, ◌≡◌, refl, ◌∙◌, true, false, Option, some, eq_refl, str_eq, ap}
use ink_foot.Value.{Value}
use ink_foot.Storage.{
  Totals, Run, Event, Store, get_run, set_dirty, set_totals, insert_event, claim_clean,
  write_totals,
}
use ink_foot.Storage.Rows.{
  get_run-write_totals, get_run-insert_event, iter_events-write_totals, iter_events-claim_clean,
}
use ink_foot.Storage.Projection.{project_run_totals}
use ink_foot.Storage.Aggregator.{projected}
use ink_foot.Storage.Aggregator.Settled.{claimed_row}

module _ {F : Type 0} (loads : String → Option (Value F)) (run_id : String) where
  -- A worker has claimed the run and read its log when an event is recorded; a second worker claims
  -- the run again, reads, and writes its totals; then the first worker writes what it has read.
  unfoldable pub overtaken : Totals → Totals → Store → Store
  overtaken first second s =
      write_totals run_id first (write_totals run_id second (claim_clean run_id s).1)

  set_row :
      (s : Store) (t : Totals) (r : Run)
      → get_run run_id s ≡ some r
      → get_run run_id (write_totals run_id t s) ≡ some (set_totals t r)
  set_row s t r found = get_run-write_totals run_id run_id t s ∙ rw (eq_refl run_id, found) refl

  inserted_row :
      (s s' : Store) (r : Run) (e : Event)
      → str_eq e.run_id run_id ≡ true
      → insert_event e s ≡ some s'
      → get_run run_id s ≡ some r
      → get_run run_id s' ≡ some (set_dirty true r)
  inserted_row s s' r e same h found = get_run-insert_event run_id e s s' h ∙ rw (same, found) refl

  -- Where an event is recorded between one worker's claim and its write, and a second worker claims the
  -- run again and writes its totals before the first one writes, the run is left clean with the totals of
  -- the log before the event, while the projection of its log is what the second worker had written.
  pub overtaken_is_stale :
      (s s' : Store) (r : Run) (e : Event) (first second : Totals)
      → get_run run_id s ≡ some r
      → projected loads run_id s ≡ some first
      → str_eq e.run_id run_id ≡ true
      → insert_event e (claim_clean run_id s).1 ≡ some s'
      → projected loads run_id s' ≡ some second
      → (get_run run_id (overtaken first second s')
          ≡ some (record r { totals = first; aggregates_dirty = false }))
        × (projected loads run_id (overtaken first second s') ≡ some second)
  unfolding overtaken
  overtaken_is_stale s s' r e first second found read_first same h read_second =
      let marked =
        inserted_row (claim_clean run_id s).1 s' (set_dirty false r) e same h
          (claimed_row loads run_id s r found) in
      let rest : Store = (claim_clean run_id s').1 in
      let clean = claimed_row loads run_id s' (set_dirty true r) marked in
      (
        set_row (write_totals run_id second rest) first _ (set_row rest second _ clean),
        ap (project_run_totals loads) (
              iter_events-write_totals run_id run_id first (write_totals run_id second rest)
              ∙ iter_events-write_totals run_id run_id second rest
              ∙ iter_events-claim_clean run_id run_id s')
            ∙ read_second,
      )
