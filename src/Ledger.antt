-- ===== src/Ledger.antt =====
-- inkfoot/ledger.py: the causal token ledger of one LLM call, its structural total, and the reader
-- that rebuilds it from an event payload. Token counts are Python ints, so they may be negative.
mod Tests
pub mod Usage
pub mod Payload
use ink_foot.Prelude.{String, List, [], ◌∷◌, ◌++◌, map}
use ink_foot.Prelude.Int.{ℤ, pos, sum_from}

-- The names of the dataclass's fields, in declaration order.
pub data Category : Type 0 where
  system_static system_dynamic user_input tool_schema tool_result retrieved_context memory
        retry_overhead summariser reasoning guardrail :
      Category
  cache_creation cache_read output : Category

pub record CausalTokenLedger : Type 0 where
  pub system_static_tokens : ℤ
  pub system_dynamic_tokens : ℤ
  pub user_input_tokens : ℤ
  pub tool_schema_tokens : ℤ
  pub tool_result_tokens : ℤ
  pub retrieved_context_tokens : ℤ
  pub memory_tokens : ℤ
  pub retry_overhead_tokens : ℤ
  pub summariser_tokens : ℤ
  pub reasoning_tokens : ℤ
  pub guardrail_tokens : ℤ
  pub cache_creation_tokens : ℤ
  pub cache_read_tokens : ℤ
  pub output_tokens : ℤ

-- `INPUT_CATEGORIES`
abbrev pub input_categories : List Category
input_categories =
    system_static ∷ system_dynamic ∷ user_input ∷ tool_schema ∷ tool_result ∷ retrieved_context
    ∷ memory ∷ retry_overhead ∷ summariser ∷ reasoning ∷ guardrail ∷ []

-- `CACHE_CATEGORIES`
abbrev pub cache_categories : List Category
cache_categories = cache_read ∷ cache_creation ∷ []

-- The spelling of a field in Python and in the payloads.
abbrev pub field_name : Category → String
field_name system_static = "system_static_tokens"
field_name system_dynamic = "system_dynamic_tokens"
field_name user_input = "user_input_tokens"
field_name tool_schema = "tool_schema_tokens"
field_name tool_result = "tool_result_tokens"
field_name retrieved_context = "retrieved_context_tokens"
field_name memory = "memory_tokens"
field_name retry_overhead = "retry_overhead_tokens"
field_name summariser = "summariser_tokens"
field_name reasoning = "reasoning_tokens"
field_name guardrail = "guardrail_tokens"
field_name cache_creation = "cache_creation_tokens"
field_name cache_read = "cache_read_tokens"
field_name output = "output_tokens"

-- `getattr(ledger, name)`
abbrev pub getattr : CausalTokenLedger → Category → ℤ
getattr l system_static = l.system_static_tokens
getattr l system_dynamic = l.system_dynamic_tokens
getattr l user_input = l.user_input_tokens
getattr l tool_schema = l.tool_schema_tokens
getattr l tool_result = l.tool_result_tokens
getattr l retrieved_context = l.retrieved_context_tokens
getattr l memory = l.memory_tokens
getattr l retry_overhead = l.retry_overhead_tokens
getattr l summariser = l.summariser_tokens
getattr l reasoning = l.reasoning_tokens
getattr l guardrail = l.guardrail_tokens
getattr l cache_creation = l.cache_creation_tokens
getattr l cache_read = l.cache_read_tokens
getattr l output = l.output_tokens

-- `CausalTokenLedger(**values)`
abbrev pub build : (Category → ℤ) → CausalTokenLedger
build v = record {
  system_static_tokens = v system_static;
  system_dynamic_tokens = v system_dynamic;
  user_input_tokens = v user_input;
  tool_schema_tokens = v tool_schema;
  tool_result_tokens = v tool_result;
  retrieved_context_tokens = v retrieved_context;
  memory_tokens = v memory;
  retry_overhead_tokens = v retry_overhead;
  summariser_tokens = v summariser;
  reasoning_tokens = v reasoning;
  guardrail_tokens = v guardrail;
  cache_creation_tokens = v cache_creation;
  cache_read_tokens = v cache_read;
  output_tokens = v output;
}

-- `CausalTokenLedger()`: every field defaults to 0.
abbrev pub empty_ledger : CausalTokenLedger
empty_ledger = build (λ _. pos 0)

unfoldable pub input_total : CausalTokenLedger → ℤ
unfolding sum_from
input_total l = sum_from (pos 0) (map (getattr l) input_categories)

unfoldable pub output_total : CausalTokenLedger → ℤ
output_total l = l.output_tokens

-- `field_names()`
abbrev pub field_names : List Category
field_names = input_categories ++ cache_creation ∷ cache_read ∷ output ∷ []
