-- ===== src/Smells/Tests.antt =====
-- Event logs of a run with a tool that is called again and again, and the theorem on the detector.
use ink_foot.Prelude.Int.{ℤ, pos}
use ink_foot.Prelude.{
  ℕ, String, ◌≡◌, refl, Option, none, some, List, [], ◌∷◌, str_eq, if◌then◌else◌,
}
use mathlib.Core.Option
use ink_foot.Value.{Value, text, list, dict, Items, nil, cons, end, field, Key}
use ink_foot.Storage.{Event}
use ink_foot.Smells.Engine.{
  CostSmell, raised, returned, evaluate_aggregate, members, is_found, elem-evaluate_aggregate,
}
use ink_foot.Prelude.Lists.{elem}
use ink_foot.Smells.{iter_llm_calls, DetectionResult}
use ink_foot.Smells.RunawayRetryLoop.{detect, Evidence}
use ink_foot.Smells.RunawayRetryLoop.Fires.{all_called, Explains, detect-Explains}

abbrev thrice : Items ℤ
thrice = cons (text "grep") (cons (text "grep") (cons (text "grep") nil))

abbrev calls_grep : Value ℤ
calls_grep = dict (field (Key.name "tools_called") (list thrice) end)

-- Every payload of the log is that one.
abbrev loads : String → Option (Value ℤ)
loads raw = if str_eq raw "{}" then some calls_grep else none

abbrev event : ℕ → Event
event n = record {
  event_id = "e";
  run_id = "r";
  kind = "llm_call";
  occurred_at = pos n;
  payload_json = some "{}";
  sequence = pos n;
  capture_mode = "metadata";
}

abbrev log : List Event
log = event 1 ∷ event 2 ∷ []

abbrev summary : DetectionResult Evidence → String × ℕ × ℤ
summary r = (r.evidence.tool_name, r.evidence.call_count, r.triggered_at_sequence)

-- The sixth call is the first one too many.
names_the_second_event : Option.map summary (detect loads log) ≡ some ("grep", 6, pos 2)
unfolding detect iter_llm_calls
names_the_second_event = refl

silent_on_one_event : detect loads (event 1 ∷ []) ≡ none
unfolding detect iter_llm_calls
silent_on_one_event = refl

detect-Explains_example : Explains (all_called (iter_llm_calls loads log)) (detect loads log)
detect-Explains_example = detect-Explains loads log

-- The detector as a smell, and one that always raises.
abbrev smells : List (CostSmell ℤ Evidence)
smells =
    record { id = "broken"; detect = λ run events. raised }
    ∷ record { id = "runaway-retry-loop"; detect = λ run events. returned (detect loads events) }
    ∷ []

abbrev with_id : String → Value ℤ
with_id s = dict (field (Key.name "id") (text s) end)

abbrev all_runs : List (Value ℤ × List Event)
all_runs = (with_id "r1", log) ∷ (with_id "r2", event 1 ∷ []) ∷ (with_id "", log) ∷ []

finds_the_first_run : evaluate_aggregate smells all_runs ≡ ("runaway-retry-loop", "r1" ∷ []) ∷ []
unfolding evaluate_aggregate detect iter_llm_calls
finds_the_first_run = refl

elem-evaluate_aggregate_example :
    elem "r1" (members "runaway-retry-loop" (evaluate_aggregate smells all_runs))
    ≡ is_found smells "runaway-retry-loop" "r1" all_runs
elem-evaluate_aggregate_example =
    elem-evaluate_aggregate smells "runaway-retry-loop" "r1" all_runs refl
