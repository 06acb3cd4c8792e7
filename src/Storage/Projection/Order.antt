-- ===== src/Storage/Projection/Order.antt =====
-- `project_run_totals` of inkfoot/storage/aggregator.py does not depend on the order of the events,
-- but for the outcome.
use ink_foot.Prelude.Int.{+ℤ_comm}
use ink_foot.Prelude.{String, ◌≡◌, refl, sym, ap, ◌∙◌, Option, none, some, List, ◌∷◌}
use text.Mathlib.TextEquality.{IsScalar-prop}
use mathlib.Core.Logic.{∥∥₁_elim}
use mathlib.Core.List.{Perm, Permᴰ}
use ink_foot.Value.{Value}
use ink_foot.Storage.{Totals, Event}
use ink_foot.Storage.Projection.{later, combine, added_by_event, project_run_totals}
use ink_foot.Storage.Projection.Sums.{
  combined, combined_assoc, log_sum, project_run_totals-eq-log_sum,
}

-- The counts alone, the outcome forgotten.
abbrev pub counted : Option Totals → Option Totals
counted none = none
counted (some t) = some (record t { outcome = none })

counted-combined : (a b : Option Totals) → counted (combined a b) ≡ combined (counted a) (counted b)
unfolding combine later
counted-combined none b = refl
counted-combined (some a) none = refl
counted-combined (some a) (some b) = refl

combined_comm :
    (a b : Option Totals) → combined (counted a) (counted b) ≡ combined (counted b) (counted a)
unfolding combine later
combined_comm none none = refl
combined_comm none (some b) = refl
combined_comm (some a) none = refl
combined_comm (some a) (some b) =
    rw
      (
        +ℤ_comm a.total_input_tokens b.total_input_tokens,
        +ℤ_comm a.total_output_tokens b.total_output_tokens,
        +ℤ_comm a.total_cache_read_tokens b.total_cache_read_tokens,
        +ℤ_comm a.total_cache_creation_tokens b.total_cache_creation_tokens,
        +ℤ_comm a.total_nanodollars b.total_nanodollars,
      )
      refl

Option-Totals_set : IsSet (Option Totals)
Option-Totals_set = hlevel IsScalar-prop

module _ {F : Type 0} (loads : String → Option (Value F)) where
  counted_sum : List Event → Option Totals
  counted_sum es = counted (log_sum loads es)

  counted_sum_cons :
      (e : Event) (es : List Event)
      → counted_sum (e ∷ es) ≡ combined (counted (added_by_event loads e)) (counted_sum es)
  unfolding counted_sum log_sum
  counted_sum_cons e es = counted-combined (added_by_event loads e) (log_sum loads es)

  two_swapped : (a b : Event) (l : List Event) → counted_sum (a ∷ b ∷ l) ≡ counted_sum (b ∷ a ∷ l)
  two_swapped a b l =
      rw
        (
          counted_sum_cons a (b ∷ l),
          counted_sum_cons b l,
          counted_sum_cons b (a ∷ l),
          counted_sum_cons a l,
        )
        (sym (
            combined_assoc (counted (added_by_event loads a)) (counted (added_by_event loads b))
              (counted_sum l))
          ∙ ap (λ t. combined t (counted_sum l))
              (combined_comm (added_by_event loads a) (added_by_event loads b))
          ∙ combined_assoc (counted (added_by_event loads b)) (counted (added_by_event loads a))
              (counted_sum l))

  counted_sum-Permᴰ : {es fs : List Event} → Permᴰ es fs → counted_sum es ≡ counted_sum fs
  counted_sum-Permᴰ Permᴰ.nil = refl
  counted_sum-Permᴰ (Permᴰ.cons {a} {b} {l₁} {l₂} h p) =
      rw (h, counted_sum_cons b l₁, counted_sum_cons b l₂, counted_sum-Permᴰ p) refl
  counted_sum-Permᴰ (Permᴰ.swap {a} {b} {a'} {b'} {l} h k) = rw (h, k) (two_swapped b' a' l)
  counted_sum-Permᴰ (Permᴰ.trans p q) = counted_sum-Permᴰ p ∙ counted_sum-Permᴰ q

  -- Two logs with the same events in any order give the same counts and the same exceptions.
  pub project_run_totals-Perm :
      (es fs : List Event)
      → Perm es fs
      → counted (project_run_totals loads es) ≡ counted (project_run_totals loads fs)
  unfolding counted_sum
  project_run_totals-Perm es fs p =
      rw (project_run_totals-eq-log_sum loads es, project_run_totals-eq-log_sum loads fs)
        (∥∥₁_elim p (Option-Totals_set _ _) counted_sum-Permᴰ)
