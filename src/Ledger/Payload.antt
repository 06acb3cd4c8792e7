-- ===== src/Ledger/Payload.antt =====
-- `ledger_from_payload` of inkfoot/ledger.py, against the payload that `emit_llm_call` writes with
-- `dataclasses.asdict`.
use ink_foot.Prelude.{◌≡◌, refl, Option, none, some, List, [], ◌∷◌}
use ink_foot.Prelude.Int.{ℤ, pos}
use ink_foot.Value.{Value, int, dict, Fields, end, field, Key, find, get}
use ink_foot.Ledger.{
  CausalTokenLedger, Category, field_name, field_names, getattr, build, empty_ledger,
}

-- What `ledger_dict.get(name, 0)` counts: 0 unless it is an int and no bool.
abbrev pub count_of : {F : Type 0} → Option (Value F) → ℤ
count_of none = pos 0
count_of (some (int n)) = n
count_of (some _) = pos 0

module _ {F : Type 0} where
  -- The reader on the value under "ledger"; what is no mapping, `{}` included, gives the empty ledger.
  unfoldable pub ledger_of : Value F → CausalTokenLedger
  unfolding find
  ledger_of (dict fs) = build (λ c. count_of (find (field_name c) fs))
  ledger_of _ = empty_ledger

  unfoldable pub ledger_from_payload : Fields F → CausalTokenLedger
  unfolding ledger_of
  ledger_from_payload payload = ledger_of (get "ledger" payload)

  -- `dataclasses.asdict(ledger)`
  abbrev pub as_dict_of : List Category → CausalTokenLedger → Fields F → Fields F
  as_dict_of [] l rest = rest
  as_dict_of (c ∷ cs) l rest =
      field (Key.name (field_name c)) (int (getattr l c)) (as_dict_of cs l rest)

  abbrev pub as_dict : CausalTokenLedger → Fields F
  as_dict l = as_dict_of field_names l end

  -- A ledger that is written to a payload is read back unchanged, whatever else the payload and the
  -- ledger's mapping hold behind it.
  pub ledger_from_payload-as_dict :
      (l : CausalTokenLedger) (more rest : Fields F)
      → ledger_from_payload (field (Key.name "ledger") (dict (as_dict_of field_names l more)) rest)
        ≡ l
  unfolding ledger_from_payload
  ledger_from_payload-as_dict l more rest = refl
