-- ===== src/Storage/Aggregator/Settled.antt =====
-- What the worker of inkfoot/storage/aggregator.py guarantees of a run's totals.
use ink_foot.Prelude.Int.{ℤ}
use ink_foot.Prelude.{
  String, ◌≡◌, refl, sym, ◌∙◌, inl, inr, true, false, Option, none, some, [], eq_refl, ap,
}
use ink_foot.Value.{Value}
use mathlib.Core.Option.{some-injective}
use mathlib.Core.Bool.{true≢false}
use ink_foot.Prelude.Sort.{sort_by}
use ink_foot.Storage.{
  Totals, no_totals, Run, Store, start_run, get_run, set_dirty, set_totals, claim_clean,
  iter_events, events_of,
}
use ink_foot.Storage.Rows.{
  get_run-write_totals, get_run-claim_clean, claim_clean-found, iter_events-claim_clean,
  start_run-fresh,
}
use ink_foot.Storage.Projection.{project_run_totals}
use ink_foot.Storage.Aggregator.{projected, aggregate_one, write_if_projected}
use ink_foot.Storage.Aggregator.Protocol.{
  Phase, idle, Steps, stop, more, claims, reads, writes, IsTracked, Step-IsTracked,
}

module _ {F : Type 0} (loads : String → Option (Value F)) (run_id : String) where
  pub Steps-IsTracked :
      (v w : Store × Phase)
      → Steps loads run_id v w
      → IsTracked loads run_id v
      → IsTracked loads run_id w
  Steps-IsTracked _ _ (stop w) i = i
  Steps-IsTracked _ _ (more u v w first rest) i =
      Steps-IsTracked v w rest (Step-IsTracked loads run_id u v first i)

  no_events :
      (s₀ s : Store)
      → s.events ≡ s₀.events
      → events_of run_id s₀.events ≡ []
      → projected loads run_id s ≡ some no_totals
  unfolding iter_events sort_by project_run_totals
  no_events s₀ s same fresh =
      ap (λ es. project_run_totals loads (sort_by (λ e. e.sequence) es))
        (ap (events_of run_id) same ∙ fresh)

  clean-Current :
      (s : Store) (r : Run)
      → IsTracked loads run_id (s, idle)
      → get_run run_id s ≡ some r
      → r.aggregates_dirty ≡ false
      → projected loads run_id s ≡ some r.totals
  clean-Current s r i found clean =
      let same : i.row ≡ r = some-injective _ _ (sym i.found ∙ found) in
      elim i.current [
        | inl d ↦ absurd (true≢false (sym d ∙ ap (λ q. q.aggregates_dirty) same ∙ clean))
        | inr c ↦ c ∙ ap (λ q. some q.totals) same
      ]

  -- Once a run is started, whatever transactions on the two tables follow in which one worker serves the
  -- run: when that worker is idle, so that its last pass over the run, if there was one, did not raise,
  -- and the run's row is not marked dirty, the row's totals are the projection of its log.
  pub settled_totals :
      (s₀ s s' : Store) (task kind parent metadata : Option String) (at : ℤ) (run_kind : String)
      (r : Run)
      → start_run run_id task kind at parent run_kind metadata s₀ ≡ some s
      → events_of run_id s₀.events ≡ []
      → Steps loads run_id (s, idle) (s', idle)
      → get_run run_id s' ≡ some r
      → r.aggregates_dirty ≡ false
      → projected loads run_id s' ≡ some r.totals
  settled_totals s₀ s s' task kind parent metadata at run_kind r h fresh steps found clean =
      let new = start_run-fresh run_id task kind at parent run_kind metadata s₀ s h in
      clean-Current s' r
        (Steps-IsTracked (s, idle) (s', idle) steps
          (record { row = _; found = new.0; current = inr (no_events s₀ s new.1 fresh) }))
        found clean

  pub claimed_log :
      (s : Store) → projected loads run_id (claim_clean run_id s).1 ≡ projected loads run_id s
  claimed_log s = ap (project_run_totals loads) (iter_events-claim_clean run_id run_id s)

  pub claimed_row :
      (s : Store) (r : Run)
      → get_run run_id s ≡ some r
      → get_run run_id (claim_clean run_id s).1 ≡ some (set_dirty false r)
  claimed_row s r found = get_run-claim_clean run_id run_id s ∙ rw (eq_refl run_id, found) refl

  claims_it :
      (s : Store) (r : Run)
      → get_run run_id s ≡ some r
      → r.aggregates_dirty ≡ true
      → (claim_clean run_id s).0 ≡ true
  claims_it s r found dirty = ap (λ c. c.0) (claim_clean-found run_id s r found) ∙ dirty

  pub aggregate_one-claimed :
      (s : Store) (o : Option Totals)
      → (claim_clean run_id s).0 ≡ true
      → projected loads run_id s ≡ o
      → aggregate_one loads run_id s ≡ write_if_projected run_id o (claim_clean run_id s).1
  unfolding aggregate_one
  aggregate_one-claimed s o took log = rw (took, claimed_log s ∙ log) refl

  -- A dirty run whose log projects is settled by one call of the worker, which takes the steps of
  -- the protocol: its row then holds the projection and is clean.
  pub aggregate_one-settles :
      (s : Store) (r : Run) (t : Totals)
      → get_run run_id s ≡ some r
      → r.aggregates_dirty ≡ true
      → projected loads run_id s ≡ some t
      → ((aggregate_one loads run_id s).0 ≡ some true)
        × (get_run run_id (aggregate_one loads run_id s).1
            ≡ some (set_totals t (set_dirty false r)))
        × Steps loads run_id (s, idle) ((aggregate_one loads run_id s).1, idle)
  aggregate_one-settles s r t found dirty log =
      let took = claims_it s r found dirty in
      let p = aggregate_one-claimed s (some t) took log in
      let s' : Store = (claim_clean run_id s).1 in
      (
        ap (λ c. c.0) p,
        ap (λ c. get_run run_id c.1) p
            ∙ get_run-write_totals run_id run_id t s'
            ∙ rw (eq_refl run_id, claimed_row s r found) refl,
        rw p (
            more _ _ _ (claims s took)
              (more _ _ _ (reads s' t (claimed_log s ∙ log)) (more _ _ _ (writes s' t) (stop _)))),
      )

  -- A log that does not project costs the run its mark: the call raises, and the row is clean with
  -- its old totals.
  pub aggregate_one-raises :
      (s : Store) (r : Run)
      → get_run run_id s ≡ some r
      → r.aggregates_dirty ≡ true
      → projected loads run_id s ≡ none
      → ((aggregate_one loads run_id s).0 ≡ none)
        × (get_run run_id (aggregate_one loads run_id s).1 ≡ some (set_dirty false r))
  aggregate_one-raises s r found dirty log =
      let p = aggregate_one-claimed s none (claims_it s r found dirty) log in
      (ap (λ c. c.0) p, ap (λ c. get_run run_id c.1) p ∙ claimed_row s r found)
