-- ===== src/Normalise/Tests.antt =====
-- A request and a response of inkfoot/normalise/anthropic.py, and the theorems there.
use ink_foot.Prelude.Int.{ℤ, pos, ◌+ℤ◌}
use ink_foot.Prelude.{◌≡◌, refl, true, false, Option, none, some, List, [], ◌∷◌}
use Prim.Native.String.{String}
use Prim.Native.String.{count as chars}
use ink_foot.Value.{find, Value, text, list, dict, nil, cons, Fields, end, field, Key, int}
use ink_foot.Normalise.{hit, NeutralCall, update_stable_prefix, InMemoryRunState}
use ink_foot.Normalise.Prefix.{Splits, update_stable_prefix-Splits}
use ink_foot.Normalise.Anthropic.{current_user_text, tool_results_text, memory_text}
use ink_foot.Normalise.Anthropic.Partition.Conversation.{
  Turn, whole, blocks, saying, image, tool_use, result_of, words, picture, results_in, said_in,
  asked_in,
}
use ink_foot.Normalise.Translate.{Tokeniser, translate, Timing}
use ink_foot.Ledger.{CausalTokenLedger, empty_ledger}
use ink_foot.Value.Truth.{to_items}
use ink_foot.Normalise.Usage.{Casts, TokenUsage, IsValid, map_usage, map_usage-IsValid}

abbrev pub message : String → Value ℤ → Value ℤ
message role content =
    dict (field (Key.name "role") (text role) (field (Key.name "content") content end))

abbrev result_block : String → Value ℤ
result_block s =
    dict (field (Key.name "type") (text "tool_result") (field (Key.name "content") (text s) end))

abbrev text_block : String → Value ℤ
text_block s = dict (field (Key.name "type") (text "text") (field (Key.name "text") (text s) end))

-- An earlier turn with a tool, and the turn that asks now.
abbrev pub conversation : List (Value ℤ)
conversation =
    message "user" (text "find it")
    ∷ message "assistant" (text "searching")
    ∷ message "user" (list (cons (result_block "42 hits") (cons (text_block "go on") nil)))
    ∷ []

splits_turns :
    (current_user_text conversation ≡ "go on")
    × (tool_results_text conversation ≡ "42 hits")
    × (memory_text conversation ≡ "find itsearching")
unfolding current_user_text tool_results_text memory_text
splits_turns = (refl, refl, refl)

abbrev turns : List Turn
turns =
    record { role = "user"; content = blocks (saying "find it" ∷ image ∷ []) }
    ∷ record { role = "assistant"; content = blocks (saying "searching" ∷ tool_use "search" ∷ []) }
    ∷ record {
      role = "user";
      content = blocks (result_of (words "42 hits" ∷ picture ∷ []) ∷ saying "go on" ∷ []);
    }
    ∷ record { role = "assistant"; content = whole "done" }
    ∷ []

counts_turns : (results_in turns ≡ 7) × (asked_in turns ≡ 5) × (said_in turns ≡ 25)
counts_turns = (refl, refl, refl)

-- An empty prefix takes the next block as it is.
reseeds :
    update_stable_prefix (update_stable_prefix "Be brief." "Hello") "Now: 12:01" ≡ "Now: 12:01"
unfolding update_stable_prefix
reseeds = refl

update_stable_prefix-Splits_example :
    Splits (update_stable_prefix "Now: 12:00" "Now: 12:01") "Now: 12:01"
    × Splits (update_stable_prefix "Now: 12:00" "Now: 12:01") "Now: 12:00"
update_stable_prefix-Splits_example = update_stable_prefix-Splits "Now: 12:00" "Now: 12:01"

abbrev pub casts : Casts ℤ
casts = record { int_of_text = λ s. none; int_of_float = λ x. some x }

-- A response with a cached prompt, and a count that is no number.
abbrev response : Value ℤ
response = dict (
    field (Key.name "usage")
      (dict (
        field (Key.name "input_tokens") (int (pos 10)) (
          field (Key.name "cache_read_input_tokens") (int (pos 90))
            (field (Key.name "output_tokens") (text "many") end))))
      end)

abbrev usage : TokenUsage
usage = record {
  input_tokens = pos 100;
  output_tokens = pos 0;
  cache_read_tokens = pos 90;
  cache_creation_tokens = pos 0;
  reasoning_tokens = pos 0;
  cache_status = hit;
}

maps_usage : map_usage casts response ≡ some usage
unfolding map_usage find ◌+ℤ◌
maps_usage = refl

map_usage-IsValid_example : IsValid usage
map_usage-IsValid_example = map_usage-IsValid casts response usage maps_usage

-- Tokens are characters here.
abbrev pub tokeniser : Tokeniser ℤ
tokeniser = record {
  tokenise_with_flags = λ s model. record { value = pos (chars s); estimated = false };
  tokenise_tools = λ tools model. some (record { value = pos 0; estimated = true });
}

abbrev pub request : Fields ℤ
request = field (Key.name "model") (text "claude-haiku-4-5") (
    field (Key.name "system") (text "Now: 12:01")
      (field (Key.name "messages") (list (to_items conversation)) end))

abbrev live : InMemoryRunState
live = record {
  stable_system_prefix = "Now: 12:00";
  pending_retrieved_context_tokens = pos 7;
  node_name = some "plan";
  tools_fingerprint = none;
  agent_name = none;
  task_name = none;
}

abbrev timing : Timing
timing = record {
  started_at = pos 1;
  ended_at = pos 2;
  sequence = pos 0;
  parent_run_id = none;
  error = none;
}

abbrev ledger_in : Option (NeutralCall ℤ) → Option CausalTokenLedger
ledger_in none = none
ledger_in (some c) = some c.ledger

-- Ten characters of system text of which nine are stable, and the pending retrieval is consumed.
translates :
    ((translate (λ x. false) casts tokeniser request response timing live).0 ≡ record live {
      stable_system_prefix = "Now: 12:0";
      pending_retrieved_context_tokens = pos 0;
    })
    × (ledger_in (translate (λ x. false) casts tokeniser request response timing live).1
        ≡ some (record empty_ledger {
          system_static_tokens = pos 9;
          system_dynamic_tokens = pos 1;
          user_input_tokens = pos 5;
          tool_result_tokens = pos 7;
          memory_tokens = pos 16;
          retrieved_context_tokens = pos 7;
          cache_read_tokens = pos 90;
        }))
unfolding translate find map_usage ◌+ℤ◌
translates = (refl, refl)
