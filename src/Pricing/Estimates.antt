-- ===== src/Pricing/Estimates.antt =====
-- What the cost estimates of inkfoot/pricing.py promise.
use ink_foot.Prelude.Int.{
  ℤ, pos, ◌+ℤ◌, ◌-ℤ◌, ◌*ℤ◌, ◌≤ℤ◌, int_laws, *ℤ_sub, *ℤ_add, *ℤ_nonneg, sum, sum_from-eq-sum,
  sum-scale, sum-append, zero_+ℤ, +ℤ_nonneg, clamp_nonneg, clamp_of_nonneg,
}
use ink_foot.Prelude.{
  ℕ, String, ◌≡◌, refl, ap, sym, ◌∙◌, Option-cases, some, List, [], ◌∷◌, map, arith, inl, inr,
}
use mathlib.Core.Path.{ap₂}
use ink_foot.Ledger.{
  CausalTokenLedger, Category, input_categories, input_total, getattr, cache_read, cache_creation,
  output,
}
use ink_foot.Pricing.{
  lookup_row, fresh_input, priced, estimate_nanodollars, estimate_per_category, split_with,
}
use ink_foot.Pricing.Table.{PriceRow}

-- The structural total as a plain sum.
pub input_total-eq-sum :
    (l : CausalTokenLedger) → input_total l ≡ sum (map (getattr l) input_categories)
unfolding input_total
input_total-eq-sum l = sum_from-eq-sum (pos 0) (map (getattr l) input_categories) ∙ zero_+ℤ _

-- No field of the ledger is negative.
pub record IsNonneg (l : CausalTokenLedger) : Type 0 where
  pub at : (c : Category) → pos 0 ≤ℤ getattr l c

-- The cache overlays cover no more than the structural total.
abbrev pub IsConsistent : CausalTokenLedger → Type 0
IsConsistent l = l.cache_read_tokens +ℤ l.cache_creation_tokens ≤ℤ input_total l

fresh_input_lem :
    (l : CausalTokenLedger)
    → IsConsistent l
    → fresh_input l ≡ input_total l -ℤ l.cache_read_tokens -ℤ l.cache_creation_tokens
unfolding fresh_input
fresh_input_lem l h = clamp_of_nonneg _ (omega int_laws)

-- The sum of a split over the ledger's fields.
unfoldable pub split_total : List (Category × ℤ) → ℤ
unfolding sum
split_total xs = sum (map (λ e. e.1) xs)

-- The part of the bill that both estimates price alike.
abbrev other_charges : PriceRow → CausalTokenLedger → ℤ
other_charges row l =
    l.cache_read_tokens *ℤ row.cache_read
    +ℤ l.cache_creation_tokens *ℤ row.cache_write
    +ℤ l.output_tokens *ℤ row.output

sum_three : (a b c : ℤ) → sum (a ∷ b ∷ c ∷ []) ≡ a +ℤ b +ℤ c
unfolding sum
sum_three a b c = omega int_laws

split_total_lem :
    (row : PriceRow) (l : CausalTokenLedger)
    → split_total (split_with (some row) l) ≡ input_total l *ℤ row.input +ℤ other_charges row l
unfolding split_total split_with
split_total_lem row l =
    sum-append (map (λ c. getattr l c *ℤ row.input) input_categories) (
      l.cache_read_tokens *ℤ row.cache_read
      ∷ l.cache_creation_tokens *ℤ row.cache_write
      ∷ l.output_tokens *ℤ row.output
      ∷ [])
    ∙ ap₂ (λ a b. a +ℤ b)
        (sum-scale (getattr l) row.input input_categories
          ∙ ap (λ t. t *ℤ row.input) (sym (input_total-eq-sum l)))
        (sum_three _ _ _)

priced_lem :
    (row : PriceRow) (l : CausalTokenLedger)
    → IsConsistent l
    → input_total l *ℤ row.input +ℤ other_charges row l
      ≡ priced row l +ℤ (l.cache_read_tokens +ℤ l.cache_creation_tokens) *ℤ row.input
unfolding priced
priced_lem row l h = rw (fresh_input_lem l h) (simp (*ℤ_sub, *ℤ_add) (omega int_laws))

-- For a priced model and a consistent ledger, the per-category split adds up to the estimate and
-- the cache tokens at the full input rate.
pub split-estimate :
    (provider model : String) (l : CausalTokenLedger) {row : PriceRow}
    → lookup_row provider model ≡ some row
    → IsConsistent l
    → (e : ℤ) × (estimate_nanodollars provider model l ≡ some e)
      × (split_total (estimate_per_category provider model l)
          ≡ e +ℤ (l.cache_read_tokens +ℤ l.cache_creation_tokens) *ℤ row.input)
unfolding estimate_nanodollars estimate_per_category
split-estimate provider model l {row} found h = (
  priced row l,
  rw (found, estimate_nanodollars),
  rw found (split_total_lem row l ∙ priced_lem row l h),
)

fresh_input_nonneg : (l : CausalTokenLedger) → pos 0 ≤ℤ fresh_input l
unfolding fresh_input
fresh_input_nonneg l = clamp_nonneg _

priced_nonneg : (row : PriceRow) (l : CausalTokenLedger) → IsNonneg l → pos 0 ≤ℤ priced row l
unfolding priced
priced_nonneg row l h =
    +ℤ_nonneg _ _
      (+ℤ_nonneg _ _
        (+ℤ_nonneg _ _ (*ℤ_nonneg _ _ (fresh_input_nonneg l)) (*ℤ_nonneg _ _ (h.at cache_read)))
        (*ℤ_nonneg _ _ (h.at cache_creation)))
      (*ℤ_nonneg _ _ (h.at output))

-- The estimate of a ledger with no negative field is never negative, whether or not its overlays
-- are consistent with its structural total.
pub estimate_nonneg :
    (provider model : String) (l : CausalTokenLedger) (e : ℤ)
    → IsNonneg l
    → estimate_nanodollars provider model l ≡ some e
    → pos 0 ≤ℤ e
unfolding estimate_nanodollars
estimate_nonneg provider model l e h found = elim (Option-cases (lookup_row provider model)) [
  | inl unpriced ↦ ground arith
  | inr (row, r) ↦ ground (arith, priced_nonneg row l h)
]

abbrev pub more_cached : CausalTokenLedger → ℕ → CausalTokenLedger
more_cached l k = record l { cache_read_tokens = l.cache_read_tokens +ℤ pos k }

input_total-more_cached :
    (l : CausalTokenLedger) (k : ℕ) → input_total (more_cached l k) ≡ input_total l
unfolding input_total
input_total-more_cached l k = refl

fresh_input-more_cached :
    (l : CausalTokenLedger) (k : ℕ)
    → l.cache_read_tokens +ℤ pos k +ℤ l.cache_creation_tokens ≤ℤ input_total l
    → fresh_input (more_cached l k)
      ≡ input_total l -ℤ (l.cache_read_tokens +ℤ pos k) -ℤ l.cache_creation_tokens
unfolding fresh_input input_total
fresh_input-more_cached l k h = clamp_of_nonneg _ (omega int_laws)

-- Where `k` more of the structural tokens are read from the cache, and the overlays still fit the
-- structural total, the price changes by `k` times the difference of the two rates.
pub cache_saving :
    (row : PriceRow) (l : CausalTokenLedger) (k : ℕ)
    → l.cache_read_tokens +ℤ pos k +ℤ l.cache_creation_tokens ≤ℤ input_total l
    → priced row (more_cached l k) +ℤ pos k *ℤ row.input ≡ priced row l +ℤ pos k *ℤ row.cache_read
unfolding priced
cache_saving row l k h =
    rw (fresh_input-more_cached l k h, fresh_input_lem l (omega int_laws))
      (simp (*ℤ_sub, *ℤ_add) (omega int_laws))
