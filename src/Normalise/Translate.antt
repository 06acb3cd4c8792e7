-- ===== src/Normalise/Translate.antt =====
-- `AnthropicTranslator.translate` of inkfoot/normalise/anthropic.py. The tokenisers and Python's `int`
-- are parameters; a run's state is changed before what raises later.
use ink_foot.Prelude.Int.{ℤ, pos}
use ink_foot.Prelude.{String, Bool, Option, none, some, List, [], ◌∷◌, ◌++◌, str_eq, if◌then◌else◌}
use mathlib.Core.Option
use ink_foot.Prelude.Dict.{Dict}
use ink_foot.Value.{Value, text, list, Fields, find, get, nil}
use ink_foot.Value.Truth.{to_list, is_text, attr, iterated, truthy}
use ink_foot.Ledger.{CausalTokenLedger}
use ink_foot.Pricing.{estimate_nanodollars}
use ink_foot.Normalise.{
  NeutralCall, NeutralError, InMemoryRunState, update_stable_prefix, drop_length,
  collect_runtime_metadata,
}
use ink_foot.Normalise.Usage.{Casts, TokenUsage, map_usage}
use ink_foot.Normalise.Anthropic.{
  extract_system_block, current_user_text, tool_results_text, memory_text,
}

-- `TokenCount`
pub record TokenCount : Type 0 where
  pub value : ℤ
  pub estimated : Bool

pub record Tokeniser (F : Type 0) : Type 0 where
  -- `tokenise_with_flags`
  pub tokenise_with_flags : String → String → TokenCount
  -- `tokenise_tools`, where `none` stands for what it raises on a value that is no list of tools
  pub tokenise_tools : Value F → String → Option TokenCount

module _ {F : Type 0} where
  abbrev pub nonempty_name : Value F → List String
  nonempty_name (text s) = if str_eq s "" then [] else s ∷ []
  nonempty_name _ = []

  abbrev pub listed_blocks : Value F → List (Value F)
  listed_blocks (list bs) = to_list bs
  listed_blocks _ = []

  -- `_tool_calls_in_response`
  pub tool_calls_in : List (Value F) → List String
  unfolding find
  tool_calls_in [] = []
  tool_calls_in (b ∷ bs) =
      (if is_text "tool_use" (attr "type" b) then nonempty_name (attr "name" b) else [])
      ++ tool_calls_in bs

  abbrev pub as_texts : Dict String → Dict (Value F)
  as_texts [] = []
  as_texts ((k, s) ∷ d) = (k, text s) ∷ as_texts d

  -- The names of the offered tools, as they stand in the request.
  abbrev pub offered_name : (F → Bool) → Value F → List (Value F)
  offered_name is_zero tool =
      let name = attr "name" tool in if truthy is_zero name then name ∷ [] else []

  pub offered_names : (F → Bool) → List (Value F) → List (Value F)
  unfolding find
  offered_names is_zero [] = []
  offered_names is_zero (tool ∷ tools) = offered_name is_zero tool ++ offered_names is_zero tools

-- The counts of one request.
pub record Counts : Type 0 where
  pub system_static : TokenCount
  pub system_dynamic : TokenCount
  pub user_input : TokenCount
  pub tool_schema : TokenCount
  pub tool_result : TokenCount
  pub memory : TokenCount

-- The names of the categories that were estimated.
abbrev pub flag : String → TokenCount → List String
flag name c = if c.estimated then name ∷ [] else []

pub estimation_flags_of : Counts → List String
estimation_flags_of c =
    flag "system_static_tokens" c.system_static
    ++ flag "system_dynamic_tokens" c.system_dynamic
    ++ flag "user_input_tokens" c.user_input
    ++ flag "tool_schema_tokens" c.tool_schema
    ++ flag "tool_result_tokens" c.tool_result
    ++ flag "memory_tokens" c.memory

unfoldable pub ledger_from : Counts → TokenUsage → ℤ → CausalTokenLedger
ledger_from c usage retrieved = record {
  system_static_tokens = c.system_static.value;
  system_dynamic_tokens = c.system_dynamic.value;
  user_input_tokens = c.user_input.value;
  tool_schema_tokens = c.tool_schema.value;
  tool_result_tokens = c.tool_result.value;
  retrieved_context_tokens = retrieved;
  memory_tokens = c.memory.value;
  retry_overhead_tokens = pos 0;
  summariser_tokens = pos 0;
  reasoning_tokens = usage.reasoning_tokens;
  guardrail_tokens = pos 0;
  cache_creation_tokens = usage.cache_creation_tokens;
  cache_read_tokens = usage.cache_read_tokens;
  output_tokens = usage.output_tokens;
}

-- What the caller passes besides the request and the response.
pub record Timing : Type 0 where
  pub started_at : ℤ
  pub ended_at : ℤ
  pub sequence : ℤ
  pub parent_run_id : Option String
  pub error : Option NeutralError

module _ {F : Type 0} (is_zero : F → Bool) (casts : Casts F) (tok : Tokeniser F) where
  -- The counts, or `none` where the messages cannot be iterated or the tools not be tokenised.
  abbrev pub counts_with : String → String → String → List (Value F) → TokenCount → Counts
  counts_with model static system messages schema = record {
    system_static = tok.tokenise_with_flags static model;
    system_dynamic = tok.tokenise_with_flags (drop_length static system) model;
    user_input = tok.tokenise_with_flags (current_user_text messages) model;
    tool_schema = schema;
    tool_result = tok.tokenise_with_flags (tool_results_text messages) model;
    memory = tok.tokenise_with_flags (memory_text messages) model;
  }

  -- `request.get("tools") or []`
  abbrev pub or_no_tools : Value F → Value F
  or_no_tools v = if truthy is_zero v then v else list nil

  unfoldable pub counts_of : String → String → Fields F → Option Counts
  unfolding drop_length extract_system_block current_user_text tool_results_text memory_text find
  counts_of model static request = elim (iterated is_zero (get "messages" request)) [
    | none ↦ none
    | some messages ↦
        Option.map (counts_with model static (extract_system_block request) messages)
          (tok.tokenise_tools (or_no_tools (get "tools" request)) model)
  ]

  unfoldable pub call_of :
      String
      → Fields F
      → Value F
      → Timing
      → TokenUsage
      → Counts
      → InMemoryRunState
      → List (Value F)
      → NeutralCall F
  unfolding ledger_from estimation_flags_of estimate_nanodollars collect_runtime_metadata
      tool_calls_in offered_names
  call_of model request response timing usage c state tools =
      let ledger = ledger_from c usage state.pending_retrieved_context_tokens in
      record {
        provider = "anthropic";
        model = model;
        started_at = timing.started_at;
        ended_at = timing.ended_at;
        ledger = ledger;
        estimated_nanodollars = estimate_nanodollars "anthropic" model ledger;
        tools_offered = offered_names is_zero tools;
        tools_called = tool_calls_in (listed_blocks (attr "content" response));
        error = timing.error;
        cache_status = usage.cache_status;
        parent_run_id = timing.parent_run_id;
        sequence = timing.sequence;
        estimation_flags = estimation_flags_of c;
        metadata = as_texts (collect_runtime_metadata state);
      }

  -- From the tokenised request on: the pending retrieval is consumed before the offered tools are read.
  abbrev pub finish :
      String
      → Fields F
      → Value F
      → Timing
      → TokenUsage
      → Option Counts
      → InMemoryRunState
      → InMemoryRunState × Option (NeutralCall F)
  finish model request response timing usage none state = (state, none)
  finish model request response timing usage (some c) state = (
    record state { pending_retrieved_context_tokens = pos 0 },
    Option.map (call_of model request response timing usage c state)
        (iterated is_zero (get "tools" request)),
  )

  abbrev pub with_prefix : String → InMemoryRunState → InMemoryRunState
  with_prefix system state = record state {
    stable_system_prefix = update_stable_prefix state.stable_system_prefix system;
  }

  abbrev pub with_usage :
      String
      → Fields F
      → Value F
      → Timing
      → Option TokenUsage
      → InMemoryRunState
      → InMemoryRunState × Option (NeutralCall F)
  with_usage model request response timing none state = (state, none)
  with_usage model request response timing (some usage) state =
      let state' = with_prefix (extract_system_block request) state in
      finish model request response timing usage
        (counts_of model state'.stable_system_prefix request) state'

  -- The model has to be a text that is not empty.
  abbrev pub for_model :
      Fields F
      → Value F
      → Timing
      → InMemoryRunState
      → Value F
      → InMemoryRunState × Option (NeutralCall F)
  for_model request response timing state (text model) =
      if str_eq model ""
      then (state, none)
      else with_usage model request response timing (map_usage casts response) state
  for_model request response timing state _ = (state, none)

  -- `translate`; `none` where it raises.
  unfoldable pub translate :
      Fields F → Value F → Timing → InMemoryRunState → InMemoryRunState × Option (NeutralCall F)
  unfolding counts_of call_of map_usage update_stable_prefix extract_system_block find
  translate request response timing state =
      for_model request response timing state (get "model" request)
