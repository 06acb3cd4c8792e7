-- ===== src/Smells/UnboundedHistory.antt =====
-- `unbounded-conversation-history`, inkfoot/smells/unbounded_conversation_history.py.
use ink_foot.Prelude.Int.{ℤ, pos, ◌+ℤ◌, ◌-ℤ◌, ltb_ℤ}
use ink_foot.Prelude.{ℕ, ◌+◌, String, Option, none, some, List, [], ◌∷◌, map, if◌then◌else◌}
use mathlib.Core.Option
use ink_foot.Value.{Value, Fields}
use ink_foot.Ledger.Payload.{ledger_from_payload}
use ink_foot.Storage.{Event}
use ink_foot.Smells.{
  DetectionResult, warn, iter_llm_calls, priced_at, row_of_last, price_row_for, last_payload,
}

-- `_MEMORY_TOKENS_THRESHOLD`
abbrev pub memory_threshold : ℤ
memory_threshold = pos 50000

pub record Evidence : Type 0 where
  pub max_memory_tokens : ℤ
  pub breaching_calls : ℕ
  pub excess_memory_tokens : ℤ

pub record State : Type 0 where
  pub evidence : Evidence
  pub first_breach_sequence : Option ℤ

abbrev pub nothing_seen : State
nothing_seen = record {
  evidence = record {
    max_memory_tokens = pos 0;
    breaching_calls = 0;
    excess_memory_tokens = pos 0;
  };
  first_breach_sequence = none;
}

abbrev pub first_or : Option ℤ → ℤ → Option ℤ
first_or none sequence = some sequence
first_or (some n) sequence = some n

abbrev pub greater : ℤ → ℤ → ℤ
greater memory most = if ltb_ℤ most memory then memory else most

-- One call, by its memory tokens.
unfoldable pub see : ℤ × ℤ → State → State
see (sequence, memory) s =
    let most = greater memory s.evidence.max_memory_tokens in
    if ltb_ℤ memory_threshold memory
    then record {
      evidence = record {
        max_memory_tokens = most;
        breaching_calls = s.evidence.breaching_calls + 1;
        excess_memory_tokens = s.evidence.excess_memory_tokens +ℤ (memory -ℤ memory_threshold);
      };
      first_breach_sequence = first_or s.first_breach_sequence sequence;
    }
    else record s { evidence = record (s.evidence) { max_memory_tokens = most } }

unfoldable pub see_all : List (ℤ × ℤ) → State → State
unfolding see
see_all [] s = s
see_all (c ∷ cs) s = see_all cs (see c s)

module _ {F : Type 0} where
  -- A call's sequence number and memory tokens.
  unfoldable pub memory_of : ℤ × Fields F → ℤ × ℤ
  unfolding ledger_from_payload
  memory_of (sequence, payload) = (sequence, (ledger_from_payload payload).memory_tokens)

  abbrev pub report : List (ℤ × Fields F) → Evidence → ℤ → DetectionResult Evidence
  report calls e sequence = record {
    smell = "unbounded-conversation-history";
    triggered_at_sequence = sequence;
    severity = warn;
    evidence = e;
    estimated_cost_impact_nd =
        priced_at (λ row. row.cache_read) e.excess_memory_tokens (row_of_last (last_payload calls));
  }

  unfoldable pub detect_in : List (ℤ × Fields F) → Option (DetectionResult Evidence)
  unfolding see_all memory_of last_payload price_row_for
  detect_in calls =
      let s = see_all (map memory_of calls) nothing_seen in
      Option.map (report calls s.evidence) s.first_breach_sequence

  -- `_detect`
  unfoldable pub detect :
      (String → Option (Value F)) → List Event → Option (DetectionResult Evidence)
  unfolding detect_in iter_llm_calls
  detect loads events = detect_in (iter_llm_calls loads events)
