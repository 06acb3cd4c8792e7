-- ===== src/Smells.antt =====
-- The smells of inkfoot/smells: what a detector finds, the calls that it goes through
-- (inkfoot/smells/__init__.py, inkfoot/smells/_helpers.py), and the engine (inkfoot/smells/engine.py).
-- The JSON parser of Python's library is the parameter `loads`, `none` where it raises.
pub mod RunawayRetryLoop
pub mod UnboundedHistory
pub mod OversizedToolResult
pub mod Engine
mod Tests
mod SizeTests
use ink_foot.Prelude.Int.{ℤ, pos, negsuc, ◌+ℤ◌, ◌-ℤ◌, ◌≤ℤ◌, ltb_ℤ, leb_ℤ, ◌*ℤ◌}
use ink_foot.Prelude.{
  ℕ, zero, suc, ◌+◌, ◌-◌, ◌*◌, ◌/◌, ◌%◌, ◌≤◌, ◌<◌, String, ◌≡◌, refl, sym, ap, ◌∙◌, ◌≢◌, ◌⊎◌, inl,
  inr, Bool, true, false, not, ◌&&◌, ◌||◌, Option, none, some, List, [], ◌∷◌, ◌++◌, map, arith,
  eq_iff, eq_refl, ltb, leb, ◌==◌, str_eq, if◌then◌else◌, Bool-cases, Option-cases,
}
use ink_foot.Value.{Value, text, dict, Fields, get}
use ink_foot.Pricing.Table.{PriceRow}
use ink_foot.Pricing.{lookup_row}
use ink_foot.Storage.{Event}

pub data Severity : Type 0 where
  info warn critical : Severity

-- `DetectionResult`, with the smell's id; the evidence is the detector's own record.
pub record DetectionResult (E : Type 0) : Type 0 where
  pub smell : String
  pub triggered_at_sequence : ℤ
  pub severity : Severity
  pub evidence : E
  pub estimated_cost_impact_nd : ℤ

-- `first or 0`
abbrev pub or_first : Option ℤ → ℤ
or_first none = pos 0
or_first (some n) = n

-- Tokens at a rate of the last call's row, or 0 where no call or no row is known.
abbrev pub priced_at : (PriceRow → ℕ) → ℤ → Option PriceRow → ℤ
priced_at rate tokens none = pos 0
priced_at rate tokens (some row) = tokens *ℤ rate row

module _ {F : Type 0} where
  abbrev pub payload_of : Option (Value F) → List (Fields F)
  payload_of (some (dict fs)) = fs ∷ []
  payload_of _ = []

  module _ (loads : String → Option (Value F)) where
    abbrev pub payloads_in : Option String → List (Fields F)
    payloads_in none = []
    payloads_in (some raw) = if str_eq raw "" then [] else payload_of (loads raw)

    -- `iter_llm_calls`: the sequence number of each call's event, and its payload
    unfoldable pub iter_llm_calls : List Event → List (ℤ × Fields F)
    iter_llm_calls [] = []
    iter_llm_calls (e ∷ es) =
        (if str_eq e.kind "llm_call"
          then map (λ p. (e.sequence, p)) (payloads_in e.payload_json)
          else [])
        ++ iter_llm_calls es

  abbrev pub row_for : Value F → Value F → Option PriceRow
  row_for (text provider) (text model) = lookup_row provider model
  row_for _ _ = none

  -- `price_row_for`
  unfoldable pub price_row_for : Fields F → Option PriceRow
  price_row_for payload = row_for (get "provider" payload) (get "model" payload)

  abbrev pub row_of_last : Option (Fields F) → Option PriceRow
  row_of_last none = none
  row_of_last (some payload) = price_row_for payload

  unfoldable pub last_payload : List (ℤ × Fields F) → Option (Fields F)
  last_payload [] = none
  last_payload (c ∷ []) = some c.1
  last_payload (_ ∷ c ∷ calls) = last_payload (c ∷ calls)
