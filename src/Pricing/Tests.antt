-- ===== src/Pricing/Tests.antt =====
-- Runs of inkfoot/pricing.py, and its theorems at concrete ledgers.
use ink_foot.Prelude.Int.{ℤ, pos, negsuc, ◌+ℤ◌, ◌-ℤ◌, ◌≤ℤ◌, ◌*ℤ◌}
use ink_foot.Prelude.{◌≡◌, refl, none, some, arith}
use ink_foot.Ledger.{CausalTokenLedger, empty_ledger, input_total}
use ink_foot.Pricing.{
  lookup_row, fresh_input, estimate_nanodollars, estimate_embedding_nanodollars,
  estimate_per_category,
}
use ink_foot.Pricing.Table.{PriceRow, lookup_key}
use ink_foot.Pricing.Estimates.{IsNonneg, split_total, split-estimate, estimate_nonneg}

-- 1000 structural tokens, 800 of them read from the cache.
abbrev warm_call : CausalTokenLedger
warm_call = record empty_ledger {
  system_static_tokens = pos 900;
  user_input_tokens = pos 100;
  cache_read_tokens = pos 800;
  output_tokens = pos 10;
}

abbrev sonnet : PriceRow
sonnet = record { input = 3000; output = 15000; cache_read = 300; cache_write = 3750 }

estimate_runs : estimate_nanodollars "anthropic" "claude-sonnet-4-6" warm_call ≡ some (pos 990000)
unfolding estimate_nanodollars lookup_row lookup_key fresh_input input_total ◌+ℤ◌ ◌-ℤ◌ ◌*ℤ◌
estimate_runs = refl

unknown_model : estimate_nanodollars "anthropic" "claude-2" warm_call ≡ none
unfolding estimate_nanodollars lookup_row lookup_key
unknown_model = refl

embedding_runs : estimate_embedding_nanodollars "voyage" "voyage-3" (pos 7) ≡ some (pos 420)
unfolding estimate_embedding_nanodollars lookup_key ◌*ℤ◌
embedding_runs = refl

embedding_clamps : estimate_embedding_nanodollars "voyage" "voyage-3" (negsuc 6) ≡ some (pos 0)
unfolding estimate_embedding_nanodollars lookup_key ◌*ℤ◌
embedding_clamps = refl

-- The split of the warm call exceeds its estimate by 800 tokens at the input rate.
split-estimate_example :
    (e : ℤ) × (estimate_nanodollars "anthropic" "claude-sonnet-4-6" warm_call ≡ some e)
    × (split_total (estimate_per_category "anthropic" "claude-sonnet-4-6" warm_call)
        ≡ e +ℤ (pos 800 +ℤ pos 0) *ℤ 3000)
unfolding lookup_row lookup_key input_total ◌+ℤ◌
split-estimate_example =
    split-estimate "anthropic" "claude-sonnet-4-6" warm_call {row = sonnet} refl (omega arith)

warm_call-IsNonneg : IsNonneg warm_call
warm_call-IsNonneg = record { at = λ c. ground arith }

estimate_nonneg_example : pos 0 ≤ℤ pos 990000
unfolding estimate_nanodollars lookup_row lookup_key fresh_input input_total ◌+ℤ◌ ◌-ℤ◌ ◌*ℤ◌
estimate_nonneg_example =
    estimate_nonneg "anthropic" "claude-sonnet-4-6" warm_call (pos 990000) warm_call-IsNonneg refl
