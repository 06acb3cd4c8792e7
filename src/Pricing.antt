-- ===== src/Pricing.antt =====
-- inkfoot/pricing.py: the price table and the cost estimates. Rates are nanodollars per token; every
-- rate of the table is non-negative, so they are natural numbers.
mod Tests
pub mod Table
pub mod Estimates
use ink_foot.Prelude.{
  ℕ, String, Bool, ◌&&◌, Option, none, some, List, [], ◌∷◌, ◌++◌, map, if◌then◌else◌, str_eq,
}
use ink_foot.Prelude.Int.{ℤ, pos, ◌+ℤ◌, ◌-ℤ◌, ◌*ℤ◌, clamp}
use ink_foot.Ledger.{
  CausalTokenLedger, Category, input_categories, cache_read, cache_creation, output, getattr,
  input_total,
}
use Table.{PriceRow, PriceTable, pricing_nd_per_token, embedding_pricing_nd_per_token, lookup_key}

-- `_lookup_row`, over a table: the exact row, else the provider's wildcard.
unfoldable pub lookup_row_in : PriceTable → String → String → Option PriceRow
lookup_row_in table provider model = elim (lookup_key provider model table) [
  | some row ↦ some row
  | none ↦ lookup_key provider "*" table
]

unfoldable pub lookup_row : String → String → Option PriceRow
unfolding lookup_row_in
lookup_row = lookup_row_in pricing_nd_per_token

-- The part of the input that no cache overlay covers, clamped at 0.
unfoldable pub fresh_input : CausalTokenLedger → ℤ
fresh_input l = clamp (input_total l -ℤ l.cache_read_tokens -ℤ l.cache_creation_tokens)

-- The body of `estimate_nanodollars` once the row is found.
unfoldable pub priced : PriceRow → CausalTokenLedger → ℤ
priced row l =
    fresh_input l *ℤ row.input
    +ℤ l.cache_read_tokens *ℤ row.cache_read
    +ℤ l.cache_creation_tokens *ℤ row.cache_write
    +ℤ l.output_tokens *ℤ row.output

unfoldable pub estimate_nanodollars : String → String → CausalTokenLedger → Option ℤ
unfolding priced
estimate_nanodollars provider model l = elim (lookup_row provider model) [
  | none ↦ none
  | some row ↦ some (priced row l)
]

unfoldable pub estimate_embedding_nanodollars : String → String → ℤ → Option ℤ
estimate_embedding_nanodollars provider model tokens =
    elim (lookup_key provider model embedding_pricing_nd_per_token) [
      | none ↦ none
      | some rate ↦ some (clamp tokens *ℤ rate)
    ]

-- The names that the split of `estimate_per_category` lists, in its order.
abbrev pub split_categories : List Category
split_categories = input_categories ++ cache_read ∷ cache_creation ∷ output ∷ []

-- The rate that `estimate_per_category` applies to a field.
abbrev pub rate_of : PriceRow → Category → ℕ
rate_of row cache_read = row.cache_read
rate_of row cache_creation = row.cache_write
rate_of row output = row.output
rate_of row _ = row.input

unfoldable pub split_with : Option PriceRow → CausalTokenLedger → List (Category × ℤ)
split_with none l = map (λ c. (c, pos 0)) split_categories
split_with (some row) l = map (λ c. (c, getattr l c *ℤ rate_of row c)) split_categories

unfoldable pub estimate_per_category : String → String → CausalTokenLedger → List (Category × ℤ)
unfolding split_with
estimate_per_category provider model = split_with (lookup_row provider model)
