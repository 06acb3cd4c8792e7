-- ===== src/Storage/Aggregator/Rebuild.antt =====
-- The command rebuild-aggregates (inkfoot/cli/rebuild_aggregates.py): every run is marked dirty, and one
-- pass over the queue follows.
use ink_foot.Prelude.{
  ℕ, suc, ◌<◌, String, ◌≡◌, refl, sym, ap, ◌∙◌, inl, inr, Bool, true, false, Option, some, List, [],
  ◌∷◌, map, arith, str_eq, Bool-cases,
}
use mathlib.Core.Bool.{true≢false}
use mathlib.Core.Option.{some-injective}
use ink_foot.Value.{Value}
use ink_foot.Storage.{Run, Store, get_run, find_run, set_dirty, mark_all_dirty, length}
use ink_foot.Storage.Rows.{get_run-mark_all_dirty, on_row}
use ink_foot.Storage.Aggregator.{projected, drain_loop}
use ink_foot.Storage.Aggregator.Protocol.{idle, IsTracked}
use ink_foot.Storage.Aggregator.Queue.{queue, push}
use ink_foot.Storage.Aggregator.Drain.{AllProject, log-AllProject, drain_loop-Empties}

queue-all : (rs : List Run) → length (queue (map (set_dirty true) rs)) ≡ length rs
unfolding queue
queue-all [] = refl
queue-all (r ∷ rs) = ap suc (queue-all rs)

push-nil : (b : Bool) (k : String) (js : List String) → push b k js ≡ [] → (b ≡ false) × (js ≡ [])
push-nil true k js h = ground arith
push-nil false k js h = (refl, h)

-- A run of a store without dirty runs is clean.
empty_queue :
    (k : String) (rs : List Run) (r : Run)
    → queue rs ≡ []
    → find_run k rs ≡ some r
    → r.aggregates_dirty ≡ false
unfolding queue find_run
empty_queue k [] r q h = ground arith
empty_queue k (x ∷ rs) r q h =
    let (clean, rest) = push-nil x.aggregates_dirty x.id (queue rs) q in
    elim (Bool-cases (str_eq x.id k)) [
      | inl e ↦
          let same : some x ≡ some r = sym (rw e refl) ∙ h in
          ap (λ y. y.aggregates_dirty) (sym (some-injective _ _ same)) ∙ clean
      | inr e ↦ empty_queue k rs r rest (sym (rw e refl) ∙ h)
    ]

module _ {F : Type 0} (loads : String → Option (Value F)) where
  -- `mark_all_dirty`, then `drain_once`: how many runs were written, or `none` for an exception
  unfoldable pub rebuild : ℕ → ℕ → Store → Option ℕ × Store
  rebuild fuel batch_size s = drain_loop loads fuel batch_size 0 (mark_all_dirty s).0

  marked-IsTracked :
      (k : String) (s : Store) (r : Run)
      → get_run k s ≡ some r
      → IsTracked loads k ((mark_all_dirty s).0, idle)
  unfolding get_run mark_all_dirty
  marked-IsTracked k s r h = record {
    row = set_dirty true r;
    found = get_run-mark_all_dirty k s ∙ ap (on_row (set_dirty true)) h;
    current = inl refl;
  }

  -- Whatever a run's row held, it is clean and holds the projection of the run's log once the command
  -- is done, if every run's log projects. Fuel of one unit more than there are runs is enough.
  pub rebuild-Current :
      (fuel n : ℕ) (s : Store) (k : String) (r : Run)
      → AllProject loads s
      → length s.runs < fuel
      → get_run k s ≡ some r
      → (total : ℕ) × (s' : Store) × (r' : Run) × (rebuild fuel (suc n) s ≡ (some total, s'))
        × (get_run k s' ≡ some r')
        × (r'.aggregates_dirty ≡ false)
        × (projected loads k s' ≡ some r'.totals)
  unfolding rebuild mark_all_dirty get_run
  rebuild-Current fuel n s k r all enough h =
      let marked : Store = (mark_all_dirty s).0 in
      let done =
        drain_loop-Empties loads fuel n 0 marked (log-AllProject loads s marked refl all)
          (rw (queue-all s.runs) enough) in
      let (r', found, clean, log) = settled k done.1 done.3 (done.4 k (marked-IsTracked k s r h)) in
      (done.0, done.1, r', done.2, found, clean, log)
    where
      settled :
          (k : String) (s' : Store)
          → queue s'.runs ≡ []
          → IsTracked loads k (s', idle)
          → (r' : Run) × (get_run k s' ≡ some r')
            × (r'.aggregates_dirty ≡ false)
            × (projected loads k s' ≡ some r'.totals)
      settled k s' q i =
          let clean = empty_queue k s'.runs i.row q i.found in
          elim i.current [
            | inl d ↦ absurd (true≢false (sym d ∙ clean))
            | inr c ↦ (i.row, i.found, clean, c)
          ]
