-- ===== src/Pricing/Table.antt =====
-- The price snapshot of inkfoot/pricing.py, and the lookup of a `(provider, model)` pair.
use ink_foot.Prelude.{ℕ, String, Option, none, some, List, [], ◌∷◌, if◌then◌else◌, str_eq, ◌&&◌}

pub record PriceRow : Type 0 where
  pub input : ℕ
  pub output : ℕ
  pub cache_read : ℕ
  pub cache_write : ℕ

abbrev pub PriceTable : Type 0
PriceTable = List ((String × String) × PriceRow)

-- `table.get((provider, model))`
unfoldable pub lookup_key {ℓ} :
    {V : Type ℓ} → String → String → List ((String × String) × V) → Option V
lookup_key p m [] = none
lookup_key p m (((q, n), v) ∷ t) = if str_eq q p && str_eq n m then some v else lookup_key p m t

abbrev row : ℕ → ℕ → ℕ → ℕ → PriceRow
row i o r w = record { input = i; output = o; cache_read = r; cache_write = w }

abbrev pub pricing_nd_per_token : PriceTable
pricing_nd_per_token =
    (("anthropic", "claude-opus-4-7"), row 15000 75000 1500 18750)
    ∷ (("anthropic", "claude-sonnet-4-6"), row 3000 15000 300 3750)
    ∷ (("anthropic", "claude-haiku-4-5"), row 800 4000 80 1000)
    ∷ (("openai", "gpt-4o"), row 2500 10000 1250 0)
    ∷ (("openai", "gpt-4o-mini"), row 150 600 75 0)
    ∷ (("openai", "o1"), row 15000 60000 7500 0)
    ∷ (("gemini", "gemini-1.5-pro"), row 1250 5000 312 1250)
    ∷ (("gemini", "gemini-1.5-flash"), row 75 300 18 75)
    ∷ (("bedrock", "anthropic.claude-3-5-sonnet-20241022-v2:0"), row 3000 15000 300 3750)
    ∷ (("bedrock", "anthropic.claude-3-5-haiku-20241022-v1:0"), row 800 4000 80 1000)
    ∷ (("openai_compat", "*"), row 0 0 0 0)
    ∷ []

abbrev pub embedding_pricing_nd_per_token : List ((String × String) × ℕ)
embedding_pricing_nd_per_token =
    (("openai", "text-embedding-3-small"), 20)
    ∷ (("openai", "text-embedding-3-large"), 130)
    ∷ (("openai", "text-embedding-ada-002"), 100)
    ∷ (("gemini", "text-embedding-004"), 0)
    ∷ (("gemini", "gemini-embedding-001"), 150)
    ∷ (("voyage", "voyage-3"), 60)
    ∷ (("voyage", "voyage-3-lite"), 20)
    ∷ []
