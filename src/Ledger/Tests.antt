-- ===== src/Ledger/Tests.antt =====
-- Runs of inkfoot/ledger.py, and its theorems at concrete ledgers.
use ink_foot.Prelude.Int.{pos, ◌+ℤ◌, ◌-ℤ◌, ◌*ℤ◌}
use ink_foot.Prelude.{ℕ, ◌≡◌, refl, true}
use ink_foot.Float.Fixed.{millionths, fixed_div}
use ink_foot.Value.{int, text, list, boolean, nil, dict, Fields, end, field, Key}
use ink_foot.Ledger.{CausalTokenLedger, field_names, empty_ledger, input_total, output_total}
use ink_foot.Ledger.Payload.{ledger_from_payload, as_dict_of, ledger_from_payload-as_dict}
use ink_foot.Ledger.Usage.{valid, input_deviates, validate_against_usage}

abbrev sample : CausalTokenLedger
sample = record empty_ledger {
  system_static_tokens = pos 60;
  user_input_tokens = pos 40;
  cache_read_tokens = pos 50;
  output_tokens = pos 7;
}

input_total_runs : input_total sample ≡ pos 100
unfolding input_total ◌+ℤ◌
input_total_runs = refl

-- An error of exactly 2% is rejected, as the gate is strict.
validate_boundary : validate_against_usage millionths sample (pos 98) (pos 7) (pos 20409) ≡ valid
unfolding validate_against_usage input_total output_total ◌+ℤ◌ ◌-ℤ◌ ◌*ℤ◌ fixed_div
validate_boundary = refl

validate_rejects :
    validate_against_usage millionths sample (pos 98) (pos 7) (pos 20408) ≡ input_deviates
unfolding validate_against_usage input_total output_total ◌+ℤ◌ ◌-ℤ◌ ◌*ℤ◌ fixed_div
validate_rejects = refl

-- A bool or a text under a field's name counts 0, and so does a ledger that is no mapping.
corrupt_payload :
    ledger_from_payload {F = ℕ} (
      field
        (Key.name "ledger")
        (dict (
          field
            (Key.name "output_tokens")
            (boolean true)
            (field (Key.name "cache_read_tokens") (int (pos 5)) end)))
        end)
    ≡ record empty_ledger { cache_read_tokens = pos 5 }
unfolding ledger_from_payload
corrupt_payload = refl

ledger_no_mapping :
    ledger_from_payload {F = ℕ} (field (Key.name "ledger") (list nil) end) ≡ empty_ledger
unfolding ledger_from_payload
ledger_no_mapping = refl

abbrev trailing : Fields ℕ
trailing = field (Key.name "model") (text "gpt-4o") end

ledger_from_payload-as_dict_example :
    ledger_from_payload
      (field (Key.name "ledger") (dict (as_dict_of field_names sample trailing)) trailing)
    ≡ sample
ledger_from_payload-as_dict_example = ledger_from_payload-as_dict sample trailing trailing
