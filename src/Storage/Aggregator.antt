-- ===== src/Storage/Aggregator.antt =====
-- The worker of inkfoot/storage/aggregator.py: claim a dirty run, read its log, write its totals.
-- A thread's poll interval and shutdown are left out; a pass over the dirty queue is `drain_once`.
use ink_foot.Prelude.Int.{ℤ, pos, negsuc, ◌+ℤ◌, ◌-ℤ◌, ◌≤ℤ◌, ltb_ℤ, leb_ℤ}
use ink_foot.Prelude.{
  ℕ, zero, suc, ◌+◌, ◌-◌, ◌*◌, ◌/◌, ◌%◌, ◌≤◌, ◌<◌, String, ◌≡◌, refl, sym, ap, ◌∙◌, ◌≢◌, ◌⊎◌, inl,
  inr, Bool, true, false, not, ◌&&◌, ◌||◌, Option, none, some, List, [], ◌∷◌, ◌++◌, map, arith,
  eq_iff, eq_refl, ltb, leb, ◌==◌, str_eq, if◌then◌else◌, Bool-cases, Option-cases,
}
pub mod Protocol
pub mod Settled
pub mod Race
pub mod Queue
pub mod Batch
pub mod Tracked
pub mod Sweep
pub mod Drain
pub mod Rebuild
use ink_foot.Value.{Value}
use ink_foot.Storage.{
  Totals, Event, Store, claim_clean, write_totals, iter_events, read_dirty, length,
}
use ink_foot.Storage.Projection.{project_run_totals}

-- The end of `_aggregate_one`, once the run is claimed.
abbrev pub write_if_projected : String → Option Totals → Store → Option Bool × Store
write_if_projected run_id none s = (none, s)
write_if_projected run_id (some t) s = (some true, write_totals run_id t s)

abbrev pub one_more : Bool → ℕ → ℕ
one_more b n = if b then suc n else n

module _ {F : Type 0} (loads : String → Option (Value F)) where
  -- The projection of the log that the store holds for a run.
  abbrev pub projected : String → Store → Option Totals
  projected run_id s = project_run_totals loads (iter_events run_id s)

  -- `_aggregate_one`: whether totals were written, or `none` for the exception of the projection.
  unfoldable pub aggregate_one : String → Store → Option Bool × Store
  unfolding claim_clean
  aggregate_one run_id s =
      let (claimed, s') = claim_clean run_id s in
      if claimed then write_if_projected run_id (projected run_id s') s' else (some false, s')

  -- The loop over one batch, with the number of runs written so far.
  unfoldable pub aggregate_batch : List String → ℕ → Store → Option ℕ × Store
  unfolding aggregate_one
  aggregate_batch [] processed s = (some processed, s)
  aggregate_batch (k ∷ ks) processed s =
      let (written, s') = aggregate_one k s in
      elim written [ none ↦ (none, s') | some b ↦ aggregate_batch ks (one_more b processed) s' ]

  -- The `while True` of `drain_once`, with fuel: `none` is an exception.
  unfoldable pub drain_loop : ℕ → ℕ → ℕ → Store → Option ℕ × Store
  unfolding aggregate_batch
  drain_loop zero batch_size processed s = (some processed, s)
  drain_loop (suc fuel) batch_size processed s = elim (read_dirty batch_size s) [
    | none ↦ (none, s)
    | some [] ↦ (some processed, s)
    | some (k ∷ ks) ↦
        let (counted, s') = aggregate_batch (k ∷ ks) processed s in
        elim counted [
          | none ↦ (none, s')
          | some n ↦ elim (ltb (length (k ∷ ks)) batch_size) [
            | true ↦ (some n, s')
            | false ↦ drain_loop fuel batch_size n s'
          ]
        ]
  ]
