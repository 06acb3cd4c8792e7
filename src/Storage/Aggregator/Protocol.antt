-- ===== src/Storage/Aggregator/Protocol.antt =====
-- The claim-and-project protocol of inkfoot/storage/aggregator.py on one run: the three transactions of
-- the one worker that serves the run, and where one of them or the projection raises, among all the transactions of
-- inkfoot/storage/sqlite.py that other threads and the workers on other runs make on these two tables.
use ink_foot.Prelude.Int.{ℤ}
use ink_foot.Prelude.Sort.{sort_by}
use ink_foot.Prelude.{
  Bool, sym, if◌then◌else◌, String, ◌≡◌, refl, ap, ◌∙◌, ◌⊎◌, inl, inr, true, false, Option, some,
  eq_refl, str_eq, Bool-cases,
}
use ink_foot.Value.{Value}
use ink_foot.Storage.{
  Totals, Run, Event, Store, get_run, set_dirty, set_totals, insert_event, mark_dirty, claim_clean,
  write_totals, iter_events, mark_all_dirty, start_run, end_run, set_ended, update_aggregates,
  events_of,
}
use ink_foot.Storage.Rows.{
  on_row, get_run-mark_dirty, get_run-write_totals, get_run-claim_clean, get_run-insert_event,
  iter_events-mark_dirty, iter_events-write_totals, iter_events-claim_clean,
  iter_events-insert_event, claim_clean-refused, start_run-found, end_run-row,
  get_run-mark_all_dirty,
}
use ink_foot.Storage.Projection.{project_run_totals}
use ink_foot.Storage.Aggregator.{projected}

-- Where the worker stands with the run: nothing claimed, claimed and about to read, with totals in hand that
-- it is about to write, or out of `_aggregate_one` by an exception, after which it writes nothing until it
-- has claimed the run again.
pub data Phase : Type 0 where
  idle : Phase
  claimed : Phase
  holding : Totals → Phase
  failed : Phase

module _ {F : Type 0} (loads : String → Option (Value F)) (run_id : String) where
  -- One transaction.
  pub data Step : Store × Phase → Store × Phase → Type 0 where
    records :
        (e : Event) (s s' : Store) (p : Phase) → insert_event e s ≡ some s' → Step (s, p) (s', p)
    marks : (k : String) (s : Store) (p : Phase) → Step (s, p) (mark_dirty k s, p)
    marks_all : (s : Store) (p : Phase) → Step (s, p) ((mark_all_dirty s).0, p)
    starts :
        (k : String) (task kind : Option String) (at : ℤ) (parent : Option String)
        (run_kind : String) (metadata : Option String) (s s' : Store) (p : Phase)
        → start_run k task kind at parent run_kind metadata s ≡ some s'
        → Step (s, p) (s', p)
    ends :
        (k : String) (at : ℤ) (status : String) (s s' : Store) (p : Phase)
        → end_run k at status s ≡ some s'
        → Step (s, p) (s', p)
    claims :
        (s : Store)
        → (claim_clean run_id s).0 ≡ true
        → Step (s, idle) ((claim_clean run_id s).1, claimed)
    claims_again :
        (s : Store)
        → (claim_clean run_id s).0 ≡ true
        → Step (s, failed) ((claim_clean run_id s).1, claimed)
    refused :
        (s : Store) (p : Phase)
        → (claim_clean run_id s).0 ≡ false
        → Step (s, p) ((claim_clean run_id s).1, p)
    -- The read, the projection or a transaction raises.
    raises : (s : Store) (p : Phase) → Step (s, p) (s, failed)
    reads :
        (s : Store) (t : Totals)
        → projected loads run_id s ≡ some t
        → Step (s, claimed) (s, holding t)
    writes : (s : Store) (t : Totals) → Step (s, holding t) (write_totals run_id t s, idle)
    claims_other :
        (k : String) (s : Store) (p : Phase)
        → str_eq k run_id ≡ false
        → Step (s, p) ((claim_clean k s).1, p)
    writes_other :
        (k : String) (t : Totals) (s : Store) (p : Phase)
        → str_eq k run_id ≡ false
        → Step (s, p) (write_totals k t s, p)
    updates_other :
        (k : String) (t : Totals) (s : Store) (p : Phase)
        → str_eq k run_id ≡ false
        → Step (s, p) ((update_aggregates k t s).1, p)

  -- Any number of transactions.
  pub data Steps : Store × Phase → Store × Phase → Type 0 where
    stop : (w : Store × Phase) → Steps w w
    more : (u v w : Store × Phase) → Step u v → Steps v w → Steps u w

  -- What the run's row holds, unless it is marked dirty.
  abbrev pub Current : Store → Run → Phase → Type 0
  Current s r idle = projected loads run_id s ≡ some r.totals
  Current s r claimed = Unit
  Current s r (holding t) = projected loads run_id s ≡ some t
  Current s r failed = Unit

  pub record IsTracked (w : Store × Phase) : Type 0 where
    pub row : Run
    pub found : get_run run_id w.0 ≡ some row
    pub current : (row.aggregates_dirty ≡ true) ⊎ Current w.0 row w.1

  -- The row and the log are as before.
  abbrev Same : Store → Store → Type 0
  Same s s' =
      (get_run run_id s' ≡ get_run run_id s) × (iter_events run_id s' ≡ iter_events run_id s)

  keeps-Current :
      (s s' : Store) (r : Run) (p : Phase)
      → iter_events run_id s' ≡ iter_events run_id s
      → Current s r p
      → Current s' r p
  keeps-Current s s' r idle h c = ap (project_run_totals loads) h ∙ c
  keeps-Current s s' r claimed h c = tt
  keeps-Current s s' r failed h c = tt
  keeps-Current s s' r (holding t) h c = ap (project_run_totals loads) h ∙ c

  unchanged-IsTracked :
      (s s' : Store) (p : Phase) → Same s s' → IsTracked (s, p) → IsTracked (s', p)
  unchanged-IsTracked s s' p same i = record {
    row = i.row;
    found = same.0 ∙ i.found;
    current = elim i.current [ inl d ↦ inl d | inr c ↦ inr (keeps-Current s s' i.row p same.1 c) ];
  }

  dirtied-IsTracked :
      (s s' : Store) (p : Phase)
      → get_run run_id s' ≡ on_row (set_dirty true) (get_run run_id s)
      → IsTracked (s, p)
      → IsTracked (s', p)
  dirtied-IsTracked s s' p h i = record {
    row = set_dirty true i.row;
    found = h ∙ ap (on_row (set_dirty true)) i.found;
    current = inl refl;
  }

  claimed-IsTracked :
      (s : Store) (p : Phase) → IsTracked (s, p) → IsTracked ((claim_clean run_id s).1, claimed)
  claimed-IsTracked s p i = record {
    row = set_dirty false i.row;
    found = get_run-claim_clean run_id run_id s ∙ rw (eq_refl run_id, i.found) refl;
    current = inr tt;
  }

  ended-Current :
      (at : ℤ) (status : String) (s : Store) (r : Run) (p : Phase)
      → Current s r p
      → Current s (set_ended at status r) p
  ended-Current at status s r idle c = c
  ended-Current at status s r claimed c = c
  ended-Current at status s r (holding t) c = c
  ended-Current at status s r failed c = c

  ended-IsTracked :
      (at : ℤ) (status : String) (s s' : Store) (p : Phase)
      → get_run run_id s' ≡ on_row (set_ended at status) (get_run run_id s)
      → iter_events run_id s' ≡ iter_events run_id s
      → IsTracked (s, p)
      → IsTracked (s', p)
  ended-IsTracked at status s s' p row log i = record {
    row = set_ended at status i.row;
    found = row ∙ ap (on_row (set_ended at status)) i.found;
    current = elim i.current [
      | inl d ↦ inl d
      | inr c ↦ inr (ended-Current at status s' i.row p (keeps-Current s s' i.row p log c))
    ];
  }

  same_log : (s s' : Store) → s'.events ≡ s.events → iter_events run_id s' ≡ iter_events run_id s
  unfolding iter_events
  same_log s s' h = ap (λ es. sort_by (λ e. e.sequence) (events_of run_id es)) h

  written_other :
      (k : String) (t : Totals) (s : Store) (p : Phase)
      → str_eq k run_id ≡ false
      → IsTracked (s, p)
      → IsTracked (write_totals k t s, p)
  written_other k t s p q i =
      unchanged-IsTracked s _ p
        (get_run-write_totals run_id k t s ∙ rw q refl, iter_events-write_totals run_id k t s) i

  pub Step-IsTracked : (v w : Store × Phase) → Step v w → IsTracked v → IsTracked w
  unfolding update_aggregates claim_clean
  Step-IsTracked _ _ (records e s s' p h) i = elim (Bool-cases (str_eq e.run_id run_id)) [
    | inl q ↦ dirtied-IsTracked s s' p (get_run-insert_event run_id e s s' h ∙ rw q refl) i
    | inr q ↦
        unchanged-IsTracked s s' p
          (
            get_run-insert_event run_id e s s' h ∙ rw q refl,
            iter_events-insert_event run_id e s s' h q,
          )
          i
  ]
  Step-IsTracked _ _ (marks k s p) i = elim (Bool-cases (str_eq k run_id)) [
    | inl q ↦ dirtied-IsTracked s _ p (get_run-mark_dirty run_id k s ∙ rw q refl) i
    | inr q ↦
        unchanged-IsTracked s _ p
          (get_run-mark_dirty run_id k s ∙ rw q refl, iter_events-mark_dirty run_id k s) i
  ]
  Step-IsTracked _ _ (marks_all s p) i = dirtied-IsTracked s _ p (get_run-mark_all_dirty run_id s) i
  Step-IsTracked _ _ (starts k task kind at parent run_kind metadata s s' p h) i =
      let new =
        start_run-found run_id k task kind at parent run_kind metadata s s' i.row h i.found in
      unchanged-IsTracked s s' p (new.0 ∙ sym i.found, same_log s s' new.1) i
  Step-IsTracked _ _ (ends k at status s s' p h) i =
      let new = end_run-row run_id k at status s s' h in
      elim (Bool-cases (str_eq k run_id)) [
        | inl q ↦ ended-IsTracked at status s s' p (new.0 ∙ rw q refl) (same_log s s' new.1) i
        | inr q ↦ unchanged-IsTracked s s' p (new.0 ∙ rw q refl, same_log s s' new.1) i
      ]
  Step-IsTracked _ _ (claims_again s h) i = claimed-IsTracked s failed i
  Step-IsTracked _ _ (refused s p h) i =
      unchanged-IsTracked s _ p
        (claim_clean-refused run_id run_id s h, iter_events-claim_clean run_id run_id s) i
  Step-IsTracked _ _ (raises s p) i = record { row = i.row; found = i.found; current = inr tt }
  Step-IsTracked _ _ (claims s h) i = claimed-IsTracked s idle i
  Step-IsTracked _ _ (updates_other k t s p q) i = after_claim (claim_clean k s).0
    where
      claim : IsTracked ((claim_clean k s).1, p)
      claim =
          unchanged-IsTracked s _ p
            (get_run-claim_clean run_id k s ∙ rw q refl, iter_events-claim_clean run_id k s) i

      after_claim :
          (b : Bool)
          → IsTracked ((if b then write_totals k t (claim_clean k s).1 else (claim_clean k s).1), p)
      after_claim true = written_other k t (claim_clean k s).1 p q claim
      after_claim false = claim
  Step-IsTracked _ _ (reads s t h) i = record { row = i.row; found = i.found; current = inr h }
  Step-IsTracked _ _ (writes s t) i = record {
    row = set_totals t i.row;
    found = get_run-write_totals run_id run_id t s ∙ rw (eq_refl run_id, i.found) refl;
    current = elim i.current [
      | inl d ↦ inl d
      | inr c ↦ inr (ap (project_run_totals loads) (iter_events-write_totals run_id run_id t s) ∙ c)
    ];
  }
  Step-IsTracked _ _ (claims_other k s p q) i =
      unchanged-IsTracked s _ p
        (get_run-claim_clean run_id k s ∙ rw q refl, iter_events-claim_clean run_id k s) i
  Step-IsTracked _ _ (writes_other k t s p q) i = written_other k t s p q i
