-- ===== src/Smells/RunawayRetryLoop.antt =====
-- `runaway-retry-loop`, inkfoot/smells/runaway_retry_loop.py.
pub mod Fires
use ink_foot.Prelude.Int.{ℤ, pos, negsuc, ◌+ℤ◌, ◌-ℤ◌, ◌≤ℤ◌, ltb_ℤ, leb_ℤ, sum_from}
use ink_foot.Prelude.{
  ℕ, zero, suc, ◌+◌, ◌-◌, ◌*◌, ◌/◌, ◌%◌, ◌≤◌, ◌<◌, String, ◌≡◌, refl, sym, ap, ◌∙◌, ◌≢◌, ◌⊎◌, inl,
  inr, Bool, true, false, not, ◌&&◌, ◌||◌, Option, none, some, List, [], ◌∷◌, ◌++◌, map, arith,
  eq_iff, eq_refl, ltb, leb, ◌==◌, str_eq, if◌then◌else◌, Bool-cases, Option-cases,
}
use mathlib.Core.Option
use ink_foot.Prelude.Dict.{Dict, lookup, insert}
use ink_foot.Value.{Value, text, list, Fields, find, get}
use ink_foot.Value.Truth.{to_list}
use ink_foot.Ledger.{CausalTokenLedger}
use ink_foot.Ledger.Payload.{ledger_from_payload}
use ink_foot.Storage.{Event}
use ink_foot.Smells.{
  DetectionResult, critical, or_first, iter_llm_calls, priced_at, row_of_last, price_row_for,
  last_payload,
}

-- `_MAX_CALLS_PER_TOOL`
abbrev pub max_calls_per_tool : ℕ
max_calls_per_tool = 5

pub record Evidence : Type 0 where
  pub tool_name : String
  pub call_count : ℕ
  pub tool_call_distribution : Dict ℕ
  pub retry_overhead_tokens : ℤ

-- The first tool whose count goes beyond the limit, and where.
pub record Breach : Type 0 where
  pub tool : String
  pub sequence : ℤ

pub record State : Type 0 where
  pub tool_counts : Dict ℕ
  pub breach : Option Breach

abbrev pub or_none_yet : Option ℕ → ℕ
or_none_yet none = 0
or_none_yet (some n) = n

-- `tool_counts[name]` of a `Counter`
unfoldable pub count_of : String → Dict ℕ → ℕ
unfolding lookup
count_of name counts = or_none_yet (lookup name counts)

abbrev pub first_breach : Option Breach → Bool → String → ℤ → Option Breach
first_breach (some b) over name sequence = some b
first_breach none over name sequence =
    if over then some (record { tool = name; sequence = sequence }) else none

-- One name of one event.
unfoldable pub count_call : ℤ → String → State → State
unfolding count_of insert
count_call sequence name s =
    let n = count_of name s.tool_counts + 1 in
    record {
      tool_counts = insert name n s.tool_counts;
      breach = first_breach s.breach (ltb max_calls_per_tool n) name sequence;
    }

unfoldable pub count_calls : ℤ → List String → State → State
unfolding count_call
count_calls sequence [] s = s
count_calls sequence (name ∷ names) s = count_calls sequence names (count_call sequence name s)

module _ {F : Type 0} where
  abbrev pub name_in : Value F → List String
  name_in (text s) = if str_eq s "" then [] else s ∷ []
  name_in _ = []

  abbrev pub names_in : List (Value F) → List String
  names_in [] = []
  names_in (v ∷ vs) = name_in v ++ names_in vs

  -- The names of `tools_called` that are texts and not empty, if it is a list.
  abbrev pub names_of : Value F → List String
  names_of (list vs) = names_in (to_list vs)
  names_of _ = []

  unfoldable pub tools_called : Fields F → List String
  unfolding find
  tools_called payload = names_of (get "tools_called" payload)

  -- The loop of `_detect`, with the overhead and the last payload so far.
  unfoldable pub scan_calls : List (ℤ × Fields F) → State → State
  unfolding count_calls tools_called
  scan_calls [] s = s
  scan_calls ((sequence, payload) ∷ calls) s =
      scan_calls calls (count_calls sequence (tools_called payload) s)

  unfoldable pub total_retry_overhead : List (ℤ × Fields F) → ℤ
  unfolding ledger_from_payload sum_from
  total_retry_overhead calls =
      sum_from (pos 0) (map (λ c. (ledger_from_payload c.1).retry_overhead_tokens) calls)

  abbrev pub impact : List (ℤ × Fields F) → ℤ
  impact calls =
      let overhead = total_retry_overhead calls in
      if ltb_ℤ (pos 0) overhead
      then priced_at (λ row. row.input) overhead (row_of_last (last_payload calls))
      else pos 0

  abbrev pub report : List (ℤ × Fields F) → Dict ℕ → Breach → DetectionResult Evidence
  report calls counts b = record {
    smell = "runaway-retry-loop";
    triggered_at_sequence = b.sequence;
    severity = critical;
    evidence = record {
      tool_name = b.tool;
      call_count = count_of b.tool counts;
      tool_call_distribution = counts;
      retry_overhead_tokens = total_retry_overhead calls;
    };
    estimated_cost_impact_nd = impact calls;
  }

  unfoldable pub detect_in : List (ℤ × Fields F) → Option (DetectionResult Evidence)
  unfolding scan_calls total_retry_overhead last_payload price_row_for
  detect_in calls =
      let s = scan_calls calls (record { tool_counts = []; breach = none }) in
      Option.map (report calls s.tool_counts) s.breach

  -- `_detect`
  unfoldable pub detect :
      (String → Option (Value F)) → List Event → Option (DetectionResult Evidence)
  unfolding detect_in iter_llm_calls
  detect loads events = detect_in (iter_llm_calls loads events)
