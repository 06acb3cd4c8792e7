-- ===== src/Smells/SizeTests.antt =====
-- A log whose calls carry a long history and a large tool result, under the two smells on sizes.
use ink_foot.Prelude.Int.{ℤ, pos, ◌+ℤ◌, ◌-ℤ◌, ◌*ℤ◌}
use ink_foot.Prelude.{ℕ, String, ◌≡◌, refl, Option, none, some, List, [], ◌∷◌}
use mathlib.Core.Option
use ink_foot.Value.{Value, text, int, dict, end, field, Key, find}
use ink_foot.Pricing.{lookup_row}
use ink_foot.Pricing.Table.{lookup_key}
use ink_foot.Ledger.Payload.{ledger_from_payload}
use ink_foot.Storage.{Event}
use ink_foot.Smells.{DetectionResult, iter_llm_calls, price_row_for, last_payload}
use ink_foot.Smells.UnboundedHistory
use ink_foot.Smells.OversizedToolResult

abbrev sizes : Value ℤ
sizes = dict (
    field (Key.name "memory_tokens") (int (pos 60000))
      (field (Key.name "tool_result_tokens") (int (pos 2500)) end))

abbrev payload : Value ℤ
payload = dict (
    field (Key.name "provider") (text "anthropic")
      (field (Key.name "model") (text "claude-sonnet-4-6") (field (Key.name "ledger") sizes end)))

abbrev loads : String → Option (Value ℤ)
loads raw = some payload

abbrev event : ℕ → Event
event n = record {
  event_id = "e";
  run_id = "r";
  kind = "llm_call";
  occurred_at = pos n;
  payload_json = some "{}";
  sequence = pos n;
  capture_mode = "metadata";
}

abbrev turns : List Event
turns = event 4 ∷ event 7 ∷ event 9 ∷ []

abbrev found : {E : Type 0} → DetectionResult E → ℤ × ℤ
found r = (r.triggered_at_sequence, r.estimated_cost_impact_nd)

abbrev history : Option (ℤ × ℤ)
history = some (pos 4, pos 9000000)

abbrev result : Option (ℤ × ℤ)
result = some (pos 4, pos 15000000)

-- Each turn exceeds the history by 10,000 tokens, at the cache-read rate.
history_runs : Option.map found (UnboundedHistory.detect loads turns) ≡ history
unfolding UnboundedHistory.detect ledger_from_payload iter_llm_calls price_row_for lookup_row
    lookup_key find last_payload ◌+ℤ◌ ◌-ℤ◌ ◌*ℤ◌
history_runs = refl

-- The result is paid for on two more turns.
result_runs : Option.map found (OversizedToolResult.detect loads turns) ≡ result
unfolding OversizedToolResult.detect ledger_from_payload iter_llm_calls price_row_for lookup_row
    lookup_key find last_payload ◌+ℤ◌ ◌-ℤ◌ ◌*ℤ◌
result_runs = refl

-- Two turns are too few.
silent_runs : OversizedToolResult.detect loads (event 4 ∷ event 7 ∷ []) ≡ none
unfolding OversizedToolResult.detect ledger_from_payload iter_llm_calls find
silent_runs = refl
