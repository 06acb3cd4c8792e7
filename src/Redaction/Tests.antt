-- ===== src/Redaction/Tests.antt =====
-- Runs of inkfoot/storage/redaction.py, and its theorem at a concrete event.
use ink_foot.Prelude.Int.{ℤ, pos}
use ink_foot.Prelude.{
  String, ◌≡◌, refl, Bool, true, false, Option, none, some, List, [], ◌∷◌, str_eq, if◌then◌else◌,
}
use ink_foot.Value.{Value, null, text, dict, list, nil, cons, Fields, end, field, Key}
use ink_foot.Redaction.{
  Pattern, RedactionContext, Hook, Json, Contents, dropped, resolve_redaction_hook, content_row,
}
use ink_foot.Redaction.Floor.{RowIsSafe, content_row-RowIsSafe}

-- A pattern that knows one key.
abbrev key : String
key = "sk-ant-0123456789abcdef"

abbrev one_key : List Pattern
one_key = ("anthropic_key", λ r t. if str_eq t key then (r, 1) else (t, 0)) ∷ []

abbrev leaking : Fields ℤ
leaking = field (Key.name "role") (text "user") (field (Key.name "content") (text key) end)

abbrev plain : Value ℤ
plain = list (cons (text "ok") nil)

-- Two documents are known to the parser, and a document is written by its first text.
abbrev json : Json ℤ
json = record {
  loads = λ raw.
      if str_eq raw "leaking"
      then some (dict leaking)
      else if str_eq raw "plain"
      then some plain
      else none;
  dumps = λ v. written v;
  dumps_text = λ s. s;
  str = λ v. "";
}
  where
    written : Value ℤ → Option String
    written (text s) = some s
    written (dict (field k v (field j (text s) fs))) = some s
    written _ = none

abbrev number_eq : Value ℤ → Value ℤ → Bool
number_eq v w = false

abbrev event : RedactionContext
event = record {
  run_id = "r1";
  event_id = "e1";
  kind = "llm_call";
  capture_mode = "replay";
  sequence = pos 1;
}

abbrev given : Contents
given = record {
  request_json = some "leaking";
  response_json = some "plain";
  tool_result_json = none;
  content_redacted = false;
}

-- A custom hook that puts the key into the answer, and one that returns no mapping.
abbrev widening : Hook ℤ
widening payload ctx = some (dict (field (Key.name "response") (text key) end))

abbrev broken : Hook ℤ
broken payload ctx = some null

abbrev row_under : Option (Hook ℤ) → Option Contents
row_under custom =
    content_row json number_eq (resolve_redaction_hook one_key "replay" custom) event given

abbrev widened : Contents
widened = record {
  request_json = none;
  response_json = some "[REDACTED:anthropic_key]";
  tool_result_json = none;
  content_redacted = true;
}

widening_runs : row_under (some widening) ≡ some widened
unfolding content_row resolve_redaction_hook
widening_runs = refl

-- The floor alone masks the request, and leaves the response as it is.
abbrev masked : Contents
masked = record {
  request_json = some "[REDACTED:anthropic_key]";
  response_json = none;
  tool_result_json = none;
  content_redacted = true;
}

abbrev only_request : Contents
only_request = record given { response_json = none }

floor_runs :
    content_row json number_eq (resolve_redaction_hook one_key "replay" none) event only_request
    ≡ some masked
unfolding content_row resolve_redaction_hook
floor_runs = refl

-- Contents without a key are stored as they are.
abbrev clean : Contents
clean = record {
  request_json = some "plain";
  response_json = none;
  tool_result_json = none;
  content_redacted = false;
}

clean_runs :
    content_row json number_eq (resolve_redaction_hook one_key "replay" none) event clean
    ≡ some clean
unfolding content_row resolve_redaction_hook
clean_runs = refl

broken_runs : row_under (some broken) ≡ some dropped
unfolding content_row resolve_redaction_hook
broken_runs = refl

content_row-RowIsSafe_example : RowIsSafe one_key json number_eq given widened
unfolding content_row resolve_redaction_hook
content_row-RowIsSafe_example =
    content_row-RowIsSafe one_key json number_eq (some widening) event given widened refl
