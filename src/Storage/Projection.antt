-- ===== src/Storage/Projection.antt =====
-- The projection of inkfoot/storage/aggregator.py: a run's event log collapsed into its totals.
-- The JSON parser of Python's library is the parameter `loads`, `none` where it raises.
pub mod Sums
pub mod Order
pub mod Silent
use ink_foot.Prelude.Int.{ℤ, pos, negsuc, ◌+ℤ◌, ◌-ℤ◌, ◌≤ℤ◌, ltb_ℤ, leb_ℤ}
use ink_foot.Prelude.{
  ℕ, zero, suc, ◌+◌, ◌-◌, ◌*◌, ◌/◌, ◌%◌, ◌≤◌, ◌<◌, String, ◌≡◌, refl, sym, ap, ◌∙◌, ◌≢◌, ◌⊎◌, inl,
  inr, Bool, true, false, not, ◌&&◌, ◌||◌, Option, none, List, [], ◌∷◌, ◌++◌, map, arith, eq_iff,
  eq_refl, ltb, leb, ◌==◌, str_eq, if◌then◌else◌, Bool-cases, Option-cases, some,
}
use ink_foot.Value.{Value, null, int, text, dict, Fields, end, get}
use ink_foot.Ledger.{input_total, CausalTokenLedger}
use ink_foot.Ledger.Payload.{ledger_from_payload}
use ink_foot.Storage.{Totals, no_totals, Event}

-- The later claim, if there is one.
unfoldable pub later : Option String → Option String → Option String
later a none = a
later a (some o) = some o

-- The counts of two totals added, and the later outcome where there is one.
unfoldable pub combine : Totals → Totals → Totals
combine a b = record {
  total_input_tokens = a.total_input_tokens +ℤ b.total_input_tokens;
  total_output_tokens = a.total_output_tokens +ℤ b.total_output_tokens;
  total_cache_read_tokens = a.total_cache_read_tokens +ℤ b.total_cache_read_tokens;
  total_cache_creation_tokens = a.total_cache_creation_tokens +ℤ b.total_cache_creation_tokens;
  total_nanodollars = a.total_nanodollars +ℤ b.total_nanodollars;
  outcome = later a.outcome b.outcome;
}

abbrev pub then_add : Totals → Option Totals → Option Totals
then_add t none = none
then_add t (some b) = some (combine t b)

module _ {F : Type 0} where
  -- `_coerce_int`
  abbrev pub coerce_int : Value F → ℤ
  coerce_int (int n) = n
  coerce_int _ = pos 0

  -- `estimated_nanodollars` if it is an int, else its alias
  abbrev pub cost_of : Value F → Value F → ℤ
  cost_of (int n) alias = n
  cost_of _ alias = coerce_int alias

  abbrev pub nested_counts : Fields F → Totals
  nested_counts payload =
      let l : CausalTokenLedger = ledger_from_payload payload in
      record no_totals {
        total_input_tokens = input_total l;
        total_output_tokens = l.output_tokens;
        total_cache_read_tokens = l.cache_read_tokens;
        total_cache_creation_tokens = l.cache_creation_tokens;
      }

  abbrev pub flat_counts : Fields F → Totals
  flat_counts payload = record no_totals {
    total_input_tokens = coerce_int (get "input_tokens" payload);
    total_output_tokens = coerce_int (get "output_tokens" payload);
    total_cache_read_tokens = coerce_int (get "cache_read_tokens" payload);
    total_cache_creation_tokens = coerce_int (get "cache_creation_tokens" payload);
  }

  abbrev pub counts : Fields F → Value F → Totals
  counts payload (dict fs) = nested_counts payload
  counts payload _ = flat_counts payload

  -- `_billed_from_payload`
  unfoldable pub billed_from_payload : Fields F → Totals
  billed_from_payload payload = record (counts payload (get "ledger" payload)) {
    total_nanodollars = cost_of (get "estimated_nanodollars" payload) (get "nanodollars" payload);
  }

  -- What an outcome event claims, if it is a text.
  abbrev pub claim : String → Value F → Option String
  claim kind (text o) = if str_eq kind "outcome" then some o else none
  claim kind _ = none

  -- What an event with this payload adds. A payload that is JSON but no object has no `get`: the
  -- `AttributeError` is `none`.
  abbrev pub added : String → Value F → Option Totals
  added kind (dict payload) =
      some (record (billed_from_payload payload) { outcome = claim kind (get "outcome" payload) })
  added kind _ = none

  -- A text that is no JSON is skipped.
  abbrev pub added_if_parsed : String → Option (Value F) → Option Totals
  added_if_parsed kind none = some no_totals
  added_if_parsed kind (some v) = added kind v

  abbrev pub added_by_text : (String → Option (Value F)) → String → Option String → Option Totals
  added_by_text loads kind none = added kind (dict end)
  added_by_text loads kind (some s) =
      if str_eq s "" then added kind (dict end) else added_if_parsed kind (loads s)

module _ {F : Type 0} (loads : String → Option (Value F)) where
  unfoldable pub added_by_event : Event → Option Totals
  unfolding billed_from_payload
  added_by_event e =
      if str_eq e.kind "embedding_call"
      then some no_totals
      else added_by_text loads e.kind e.payload_json

  -- The loop of `project_run_totals` over the events.
  unfoldable pub project_loop : Option Totals → List Event → Option Totals
  project_loop t [] = t
  project_loop none (e ∷ es) = none
  project_loop (some t) (e ∷ es) = project_loop (then_add t (added_by_event e)) es

  -- `project_run_totals`; `none` is the exception it raises.
  unfoldable pub project_run_totals : List Event → Option Totals
  unfolding project_loop
  project_run_totals = project_loop (some no_totals)
