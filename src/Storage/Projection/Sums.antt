-- ===== src/Storage/Projection/Sums.antt =====
-- `project_run_totals` of inkfoot/storage/aggregator.py as a sum over the events.
use ink_foot.Prelude.Int.{+ℤ_zero, zero_+ℤ, +ℤ_assoc}
use ink_foot.Prelude.{
  String, ◌≡◌, refl, sym, inl, inr, Option, none, some, List, [], ◌∷◌, ◌++◌, Option-cases,
}
use ink_foot.Value.{Value}
use ink_foot.Storage.{Totals, no_totals, Event}
use ink_foot.Storage.Projection.{
  combine, then_add, added_by_event, project_loop, project_run_totals, later,
}

later_absent : (a : Option String) → later a none ≡ a
unfolding later
later_absent a = refl

earlier_absent : (a : Option String) → later none a ≡ a
unfolding later
earlier_absent none = refl
earlier_absent (some o) = refl

later_assoc : (a b c : Option String) → later (later a b) c ≡ later a (later b c)
unfolding later
later_assoc a b none = refl
later_assoc a b (some o) = refl

combine-no_totals : (t : Totals) → combine t no_totals ≡ t
unfolding combine
combine-no_totals t = simp (+ℤ_zero, later_absent)

no_totals-combine : (t : Totals) → combine no_totals t ≡ t
unfolding combine
no_totals-combine t = simp (zero_+ℤ, earlier_absent)

combine_assoc : (a b c : Totals) → combine (combine a b) c ≡ combine a (combine b c)
unfolding combine
combine_assoc a b c = simp (+ℤ_assoc, later_assoc)

-- Two results in a row, the exception of either one included.
abbrev pub combined : Option Totals → Option Totals → Option Totals
combined none b = none
combined (some a) b = then_add a b

pub combined_assoc : (a b c : Option Totals) → combined (combined a b) c ≡ combined a (combined b c)
combined_assoc none b c = refl
combined_assoc (some a) none c = refl
combined_assoc (some a) (some b) none = refl
combined_assoc (some a) (some b) (some c) = rw (combine_assoc a b c) refl

pub combined-no_totals : (a : Option Totals) → combined (some no_totals) a ≡ a
combined-no_totals none = refl
combined-no_totals (some a) = rw (no_totals-combine a) refl

module _ {F : Type 0} (loads : String → Option (Value F)) where
  -- The totals of a log, as a plain sum.
  unfoldable pub log_sum : List Event → Option Totals
  log_sum [] = some no_totals
  log_sum (e ∷ es) = combined (added_by_event loads e) (log_sum es)

  loop-log_sum :
      (t : Totals) (es : List Event) → project_loop loads (some t) es ≡ then_add t (log_sum es)
  unfolding project_loop log_sum
  loop-log_sum t [] = rw (combine-no_totals t) refl
  loop-log_sum t (e ∷ es) = elim (Option-cases (added_by_event loads e)) [
    | inl n ↦ rw n (loop_none es)
    | inr (b, n) ↦
        rw n (rw (loop-log_sum (combine t b) es) (combined_assoc (some t) (some b) (log_sum es)))
  ]
    where
      loop_none : (es : List Event) → project_loop loads none es ≡ none
      loop_none [] = refl
      loop_none (e ∷ es) = refl

  pub project_run_totals-eq-log_sum : (es : List Event) → project_run_totals loads es ≡ log_sum es
  unfolding project_run_totals
  project_run_totals-eq-log_sum es =
      rw (loop-log_sum no_totals es) (combined-no_totals (log_sum es))

  log_sum-append : (es fs : List Event) → log_sum (es ++ fs) ≡ combined (log_sum es) (log_sum fs)
  unfolding log_sum
  log_sum-append [] fs = sym (combined-no_totals (log_sum fs))
  log_sum-append (e ∷ es) fs =
      rw (log_sum-append es fs)
        (sym (combined_assoc (added_by_event loads e) (log_sum es) (log_sum fs)))

  -- The totals of two logs in a row are those of the first, with those of the second added.
  pub project_run_totals-append :
      (es fs : List Event)
      → project_run_totals loads (es ++ fs)
        ≡ combined (project_run_totals loads es) (project_run_totals loads fs)
  project_run_totals-append es fs =
      rw
        (
          project_run_totals-eq-log_sum (es ++ fs),
          project_run_totals-eq-log_sum es,
          project_run_totals-eq-log_sum fs,
        )
        (log_sum-append es fs)
