-- ===== src/Storage/Aggregator/Drain.antt =====
-- The pass over the dirty queue, `drain_once` of inkfoot/storage/aggregator.py.
use ink_foot.Prelude.{
  ℕ, zero, suc, ◌<◌, String, ◌≡◌, refl, sym, ap, ◌∙◌, inl, inr, true, Option, some, List, [], ◌∷◌,
  arith, ltb, Bool-cases, ltb→lt,
}
use ink_foot.Value.{Value}
use ink_foot.Storage.{
  events_of, dirty_runs, read_dirty, Totals, Run, Store, iter_events, length, take,
}
use ink_foot.Storage.Projection.{project_run_totals}
use ink_foot.Storage.Aggregator.{projected, aggregate_one, aggregate_batch, drain_loop, one_more}
use ink_foot.Prelude.Sort.{sort_by}
use ink_foot.Storage.Aggregator.Batch.{
  drop_key_shortens, length-drop_all, drop_all_covered, elem-sort_by, sort_by-Covers, take-short,
  first_of_batch,
}
use ink_foot.Storage.Aggregator.Sweep.{aggregate_one-IsSwept}
use ink_foot.Storage.Aggregator.Tracked.{Keeps, aggregate_one-Keeps}
use ink_foot.Storage.Aggregator.Queue.{ids, queue, drop_key, drop_all, ids-dirty_runs}
use ink_foot.Prelude.Lists.{elem}

module _ {F : Type 0} (loads : String → Option (Value F)) where
  -- Every run's log projects.
  unfoldable pub AllProject : Store → Type 0
  AllProject s = (k : String) → (t : Totals) × (projected loads k s ≡ some t)

  pub log-AllProject : (s s' : Store) → s'.events ≡ s.events → AllProject s → AllProject s'
  unfolding AllProject iter_events
  log-AllProject s s' same all k = (
    (all k).0,
    ap (λ es. project_run_totals loads (sort_by (λ e. e.sequence) (events_of k es))) same
        ∙ (all k).1,
  )

  -- What a batch does to the queue and to the log.
  record IsDrained (ks : List String) (s : Store) (result : Option ℕ × Store) : Type 0 where
    total : ℕ
    kept : Keeps loads s result.1
    returned : result.0 ≡ some total
    swept : queue result.1.runs ≡ drop_all ks (queue s.runs)
    log : result.1.events ≡ s.events

  aggregate_batch-IsDrained :
      (ks : List String) (processed : ℕ) (s : Store)
      → AllProject s
      → IsDrained ks s (aggregate_batch loads ks processed s)
  unfolding AllProject aggregate_batch
  aggregate_batch-IsDrained [] processed s all = record {
    kept = λ k i. i;
    total = processed;
    returned = refl;
    swept = refl;
    log = refl;
  }
  aggregate_batch-IsDrained (k ∷ ks) processed s all =
      let one = aggregate_one-IsSwept loads k s (all k).0 (all k).1 in
      let s' : Store = (aggregate_one loads k s).1 in
      let rest =
        aggregate_batch-IsDrained ks (one_more one.written processed) s'
          (log-AllProject s s' one.log all) in
      rw (one.returned, aggregate_batch)
        (record {
          total = rest.total;
          kept = λ k' i. rest.kept k' (aggregate_one-Keeps loads k s (all k).0 (all k).1 k' i);
          returned = rest.returned;
          swept = rest.swept ∙ ap (drop_all ks) one.swept;
          log = rest.log ∙ one.log;
        })

  -- The runs of a batch, whole rows.
  abbrev batch : ℕ → Store → List Run
  batch n s = take n (sort_by (λ r. r.started_at) (dirty_runs s.runs))

  short_batch :
      (n : ℕ) (s : Store)
      → length (ids (batch n s)) < n
      → drop_all (ids (batch n s)) (queue s.runs) ≡ []
  short_batch n s h = drop_all_covered (ids (batch n s)) (queue s.runs) (
      rw
        (
          take-short n (sort_by (λ r. r.started_at) (dirty_runs s.runs)) h,
          sym (ids-dirty_runs s.runs),
        )
        (sort_by-Covers (λ r. r.started_at) (dirty_runs s.runs)))

  full_batch :
      (n : ℕ) (s : Store) (k : String) (ks : List String)
      → ids (batch (suc n) s) ≡ k ∷ ks
      → length (drop_all (k ∷ ks) (queue s.runs)) < length (queue s.runs)
  full_batch n s k ks h =
      let dirty = dirty_runs s.runs in
      let there : elem k (queue s.runs) ≡ true =
        ap (elem k) (sym (ids-dirty_runs s.runs))
        ∙ sym (elem-sort_by (λ r. r.started_at) k dirty)
        ∙ first_of_batch n (sort_by (λ r. r.started_at) dirty) k ks h in
      omega (
        arith,
        length-drop_all ks (drop_key k (queue s.runs)),
        drop_key_shortens k (queue s.runs) there,
      )

  -- The pass returns, the queue is empty then, and the rows are as true to their logs as before.
  abbrev pub Empties : ℕ → ℕ → ℕ → Store → Type 0
  Empties fuel batch_size processed s =
      (total : ℕ) × (s' : Store) × (drain_loop loads fuel batch_size processed s ≡ (some total, s'))
      × (queue s'.runs ≡ [])
      × Keeps loads s s'

  one_pass :
      (fuel n processed : ℕ) (s : Store)
      → AllProject s
      → length (queue s.runs) < suc fuel
      → ((p : ℕ) (s' : Store)
          → AllProject s'
          → length (queue s'.runs) < fuel
          → Empties fuel (suc n) p s')
      → (l : List String) → ids (batch (suc n) s) ≡ l
      → Empties (suc fuel) (suc n) processed s
  unfolding drain_loop read_dirty
  one_pass fuel n processed s all enough next [] h = (
    processed,
    s,
    rw (h, drain_loop) refl,
    sym (ap (λ l. drop_all l (queue s.runs)) h) ∙ short_batch (suc n) s (rw h (omega arith)),
    λ k i. i,
  )
  one_pass fuel n processed s all enough next (k ∷ ks) h =
      let d = aggregate_batch-IsDrained (k ∷ ks) processed s all in
      let later : Store = (aggregate_batch loads (k ∷ ks) processed s).1 in
      elim (Bool-cases (ltb (length (k ∷ ks)) (suc n))) [
        | inl e ↦ (
          d.total,
          later,
          rw (h, drain_loop) (rw (d.returned, e) refl),
          d.swept
              ∙ sym (ap (λ l. drop_all l (queue s.runs)) h)
              ∙ short_batch (suc n) s (rw h (ltb→lt (length (k ∷ ks)) (suc n) e)),
          d.kept,
        )
        | inr e ↦
            let rest =
              next d.total later (log-AllProject s later d.log all)
                (rw d.swept (omega (arith, full_batch n s k ks h, enough))) in
            (
              rest.0,
              rest.1,
              rw (h, drain_loop) (rw (d.returned, e) rest.2),
              rest.3,
              λ k' i. rest.4 k' (d.kept k' i),
            )
      ]

  -- With more fuel than there are runs marked dirty, and if every run's log projects, a pass over the
  -- queue returns without an exception, leaves no run marked dirty, and keeps every row as true to its
  -- log as it was, whatever the batch size.
  pub drain_loop-Empties :
      (fuel n processed : ℕ) (s : Store)
      → AllProject s
      → length (queue s.runs) < fuel
      → Empties fuel (suc n) processed s
  drain_loop-Empties zero n processed s all enough = absurd (omega arith)
  drain_loop-Empties (suc fuel) n processed s all enough =
      one_pass fuel n processed s all enough (λ p s' a e. drain_loop-Empties fuel n p s' a e)
        (ids (batch (suc n) s)) refl
