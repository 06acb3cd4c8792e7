-- ===== src/Storage/Aggregator/Tracked.antt =====
-- One call of the worker of inkfoot/storage/aggregator.py keeps every run's row true to its log.
use ink_foot.Prelude.{
  String, ◌≡◌, refl, ap, ◌∙◌, inl, inr, true, false, Option, some, eq_iff, str_eq, Bool-cases,
}
use mathlib.Core.Path.{subst}
use ink_foot.Value.{Value}
use ink_foot.Storage.{Totals, Store, claim_clean, write_totals}
use ink_foot.Storage.Rows.{claim_clean-refused, iter_events-claim_clean}
use ink_foot.Storage.Projection.{project_run_totals}
use ink_foot.Storage.Aggregator.{projected, aggregate_one}
use ink_foot.Storage.Aggregator.Protocol.{
  idle, Steps, stop, more, claims, reads, writes, claims_other, writes_other, IsTracked,
  Step-IsTracked,
}
use ink_foot.Storage.Aggregator.Settled.{Steps-IsTracked, aggregate_one-claimed, claimed_log}

module _ {F : Type 0} (loads : String → Option (Value F)) where
  -- Every run that is tracked in the first store is tracked in the second.
  abbrev pub Keeps : Store → Store → Type 0
  Keeps s s' = (k : String) → IsTracked loads k (s, idle) → IsTracked loads k (s', idle)

  aggregate_one-unclaimed :
      (j : String) (s : Store)
      → (claim_clean j s).0 ≡ false
      → aggregate_one loads j s ≡ (some false, (claim_clean j s).1)
  unfolding aggregate_one
  aggregate_one-unclaimed j s h = rw h refl

  refused-Keeps :
      (j : String) (s : Store) → (claim_clean j s).0 ≡ false → Keeps s (claim_clean j s).1
  refused-Keeps j s h k i = record {
    row = i.row;
    found = claim_clean-refused j k s h ∙ i.found;
    current = elim i.current [
      | inl d ↦ inl d
      | inr c ↦ inr (ap (project_run_totals loads) (iter_events-claim_clean k j s) ∙ c)
    ];
  }

  written-Keeps :
      (j : String) (s : Store) (t : Totals)
      → projected loads j s ≡ some t
      → (claim_clean j s).0 ≡ true
      → Keeps s (write_totals j t (claim_clean j s).1)
  written-Keeps j s t log took k i = elim (Bool-cases (str_eq j k)) [
    | inl e ↦
        subst
          (λ l.
            IsTracked loads l (s, idle)
            → IsTracked loads l (write_totals j t (claim_clean j s).1, idle))
          ((eq_iff j k).0 e) (Steps-IsTracked loads j (s, idle) _ own_steps) i
    | inr e ↦
        Step-IsTracked loads k _ _ (writes_other j t (claim_clean j s).1 idle e)
          (Step-IsTracked loads k _ _ (claims_other j s idle e) i)
  ]
    where
      own_steps : Steps loads j (s, idle) (write_totals j t (claim_clean j s).1, idle)
      own_steps = more _ _ _ (claims s took) (
          more _ _ _ (reads (claim_clean j s).1 t (claimed_log loads j s ∙ log))
            (more _ _ _ (writes (claim_clean j s).1 t) (stop _)))

  pub aggregate_one-Keeps :
      (j : String) (s : Store) (t : Totals)
      → projected loads j s ≡ some t
      → Keeps s (aggregate_one loads j s).1
  aggregate_one-Keeps j s t log = elim (Bool-cases (claim_clean j s).0) [
    | inl took ↦
        rw (aggregate_one-claimed loads j s (some t) took log) (written-Keeps j s t log took)
    | inr not_dirty ↦ rw (aggregate_one-unclaimed j s not_dirty) (refused-Keeps j s not_dirty)
  ]
