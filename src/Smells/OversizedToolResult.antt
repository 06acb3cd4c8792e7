-- ===== src/Smells/OversizedToolResult.antt =====
-- `oversized-tool-result-recycled`, inkfoot/smells/oversized_tool_result_recycled.py.
use ink_foot.Prelude.Int.{ℤ, pos, ◌*ℤ◌, ltb_ℤ, leb_ℤ}
use ink_foot.Prelude.{
  ℕ, ◌+◌, ◌-◌, String, Option, none, some, List, [], ◌∷◌, map, ltb, if◌then◌else◌,
}
use mathlib.Core.Option
use ink_foot.Value.{Value, Fields}
use ink_foot.Ledger.Payload.{ledger_from_payload}
use ink_foot.Storage.{Event}
use ink_foot.Smells.{
  DetectionResult, warn, iter_llm_calls, priced_at, row_of_last, price_row_for, last_payload,
}

-- `_OVERSIZED_THRESHOLD_TOKENS`
abbrev pub oversized_threshold : ℤ
oversized_threshold = pos 2000

-- `_MIN_TURNS_TO_FIRE`
abbrev pub min_turns : ℕ
min_turns = 3

-- The first oversized result, and where.
pub record Oversized : Type 0 where
  pub tokens : ℤ
  pub sequence : ℤ

pub record State : Type 0 where
  pub turns_with_tool_results : ℕ
  pub total_turns : ℕ
  pub oversized : Option Oversized

pub record Evidence : Type 0 where
  pub tool_result_tokens_at_breach : ℤ
  pub turns_with_tool_results : ℕ
  pub total_turns : ℕ

abbrev pub first_oversized : Option Oversized → ℤ → ℤ → Option Oversized
first_oversized (some o) sequence tokens = some o
first_oversized none sequence tokens =
    if leb_ℤ oversized_threshold tokens
    then some (record { tokens = tokens; sequence = sequence })
    else none

-- One call, by its tokens of tool results.
unfoldable pub see : ℤ × ℤ → State → State
see (sequence, tokens) s = record {
  turns_with_tool_results =
      if ltb_ℤ (pos 0) tokens then s.turns_with_tool_results + 1 else s.turns_with_tool_results;
  total_turns = s.total_turns + 1;
  oversized = first_oversized s.oversized sequence tokens;
}

unfoldable pub see_all : List (ℤ × ℤ) → State → State
unfolding see
see_all [] s = s
see_all (c ∷ cs) s = see_all cs (see c s)

module _ {F : Type 0} where
  -- A call's sequence number and tokens of tool results.
  unfoldable pub results_of : ℤ × Fields F → ℤ × ℤ
  unfolding ledger_from_payload
  results_of (sequence, payload) = (sequence, (ledger_from_payload payload).tool_result_tokens)

  abbrev pub report : List (ℤ × Fields F) → State → Oversized → DetectionResult Evidence
  report calls s o = record {
    smell = "oversized-tool-result-recycled";
    triggered_at_sequence = o.sequence;
    severity = warn;
    evidence = record {
      tool_result_tokens_at_breach = o.tokens;
      turns_with_tool_results = s.turns_with_tool_results;
      total_turns = s.total_turns;
    };
    estimated_cost_impact_nd =
        priced_at (λ row. row.input) (o.tokens *ℤ (s.turns_with_tool_results - 1))
          (row_of_last (last_payload calls));
  }

  unfoldable pub detect_in : List (ℤ × Fields F) → Option (DetectionResult Evidence)
  unfolding see_all results_of last_payload price_row_for
  detect_in calls =
      let s =
        see_all (map results_of calls)
          (record { turns_with_tool_results = 0; total_turns = 0; oversized = none }) in
      if ltb s.turns_with_tool_results min_turns
      then none
      else Option.map (report calls s) s.oversized

  -- `_detect`
  unfoldable pub detect :
      (String → Option (Value F)) → List Event → Option (DetectionResult Evidence)
  unfolding detect_in iter_llm_calls
  detect loads events = detect_in (iter_llm_calls loads events)
