-- ===== src/Storage/Aggregator/Sweep.antt =====
-- What one call of the worker of inkfoot/storage/aggregator.py does to the dirty queue.
use ink_foot.Prelude.{
  String, ◌≡◌, refl, sym, ◌∙◌, inl, inr, Bool, true, false, Option, none, some, if◌then◌else◌,
  Bool-cases, Option-cases,
}
use ink_foot.Value.{Value}
use ink_foot.Storage.{Totals, Run, Store, update_run, set_dirty, get_run, write_totals, iter_events}
use ink_foot.Storage.Rows.{claim_clean-found, claim_clean-missing}
use ink_foot.Storage.Aggregator.{projected, aggregate_one}
use ink_foot.Storage.Aggregator.Queue.{queue, drop_key, queue-cleaned, queue-written, queue-missing}

module _ {F : Type 0} (loads : String → Option (Value F)) where
  -- What one call of the worker does to the queue and to the log.
  pub record IsSwept (k : String) (s : Store) (result : Option Bool × Store) : Type 0 where
    pub written : Bool
    pub returned : result.0 ≡ some written
    pub swept : queue result.1.runs ≡ drop_key k (queue s.runs)
    pub log : result.1.events ≡ s.events

  aggregate_one-missing :
      (k : String) (s : Store) → get_run k s ≡ none → aggregate_one loads k s ≡ (some false, s)
  unfolding aggregate_one
  aggregate_one-missing k s free = rw (claim_clean-missing k s free) refl

  aggregate_one-found :
      (k : String) (s : Store) (t : Totals) (r : Run)
      → projected loads k s ≡ some t
      → get_run k s ≡ some r
      → let s' : Store = record s { runs = update_run k (set_dirty false) s.runs } in
        aggregate_one loads k s
        ≡ (if r.aggregates_dirty then (some true, write_totals k t s') else (some false, s'))
  unfolding aggregate_one iter_events
  aggregate_one-found k s t r h found = rw (claim_clean-found k s r found, h) refl

  pub aggregate_one-IsSwept :
      (k : String) (s : Store) (t : Totals)
      → projected loads k s ≡ some t
      → IsSwept k s (aggregate_one loads k s)
  unfolding get_run write_totals
  aggregate_one-IsSwept k s t h = elim (Option-cases (get_run k s)) [
    | inl free ↦ rw (aggregate_one-missing k s free) (record {
      written = false;
      returned = refl;
      swept = sym (queue-missing k s.runs free);
      log = refl;
    })
    | inr (r, found) ↦
        rw (aggregate_one-found k s t r h found) (elim (Bool-cases r.aggregates_dirty) [
          | inl d ↦ rw d (record {
            written = true;
            returned = refl;
            swept =
                queue-written k t (update_run k (set_dirty false) s.runs) ∙ queue-cleaned k s.runs;
            log = refl;
          })
          | inr d ↦ rw d (record {
            written = false;
            returned = refl;
            swept = queue-cleaned k s.runs;
            log = refl;
          })
        ])
  ]
