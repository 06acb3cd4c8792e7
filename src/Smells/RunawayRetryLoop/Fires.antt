-- ===== src/Smells/RunawayRetryLoop/Fires.antt =====
-- When `runaway-retry-loop` fires: against the number of times that a run calls each tool.
use ink_foot.Prelude.Int.{ℤ}
use ink_foot.Prelude.{
  ℕ, ◌+◌, ◌≤◌, ◌<◌, String, ◌≡◌, refl, ap, inl, inr, false, Option, none, some, List, [], ◌∷◌, ◌++◌,
  arith, eq_iff, eq_refl, ltb, str_eq, if◌then◌else◌, Bool-cases, ltb→lt,
}
use mathlib.Core.List.{append-nil, append_assoc}
use mathlib.Core.Option
use ink_foot.Prelude.Dict.{Dict, insert, lookup-insert}
use ink_foot.Prelude.Lists.{count, count-append}
use ink_foot.Value.{Value, Fields}
use ink_foot.Storage.{Event}
use ink_foot.Smells.{DetectionResult, iter_llm_calls}
use ink_foot.Smells.RunawayRetryLoop.{
  Evidence, Breach, State, count_of, count_call, count_calls, tools_called, scan_calls, detect_in,
  detect, max_calls_per_tool, first_breach, report,
}

-- All names that the calls use, in their order.
unfoldable pub all_called : {F : Type 0} → List (ℤ × Fields F) → List String
all_called [] = []
all_called ((sequence, payload) ∷ calls) = tools_called payload ++ all_called calls

-- What a breach says of the names so far: it is a tool beyond the limit, and without one no tool is.
unfoldable pub Agrees : List String → Option Breach → Type 0
Agrees names none = (k : String) → count k names ≤ max_calls_per_tool
Agrees names (some b) = max_calls_per_tool < count b.tool names

abbrev Right : List String → State → Type 0
Right names s = ((k : String) → count_of k s.tool_counts ≡ count k names) × Agrees names s.breach

count_of-insert :
    (k name : String) (n : ℕ) (counts : Dict ℕ)
    → count_of k (insert name n counts) ≡ (if str_eq name k then n else count_of k counts)
unfolding count_of
count_of-insert k name n counts = ground (arith, lookup-insert k name n counts)

within :
    (names : List String) (name k : String) (n : ℕ)
    → ((j : String) → count j names ≤ max_calls_per_tool)
    → n ≡ count name names + 1
    → ltb max_calls_per_tool n ≡ false
    → count k (names ++ name ∷ []) ≤ max_calls_per_tool
within names name k n h e few = elim (Bool-cases (str_eq name k)) [
  | inl same ↦
      ground
        (arith, count-append k names (name ∷ []), ap (λ j. count j names) ((eq_iff name k).0 same))
  | inr other ↦ ground (arith, count-append k names (name ∷ []), h k)
]

first_breach-Agrees :
    (names : List String) (name : String) (sequence : ℤ) (n : ℕ) (b : Option Breach)
    → n ≡ count name names + 1
    → Agrees names b
    → Agrees (names ++ name ∷ []) (first_breach b (ltb max_calls_per_tool n) name sequence)
unfolding Agrees
first_breach-Agrees names name sequence n (some b) e h =
    omega (arith, count-append b.tool names (name ∷ []))
first_breach-Agrees names name sequence n none e h = elim (Bool-cases (ltb max_calls_per_tool n)) [
  | inl many ↦ rw many (
      omega
        (arith, ltb→lt max_calls_per_tool n many, count-append name names (name ∷ []), one_more))
  | inr few ↦ rw few (λ k. within names name k n h e few)
]
  where
    one_more : count name (name ∷ []) ≡ 1
    one_more = rw (eq_refl name) refl

count_call-Right :
    (sequence : ℤ) (name : String) (names : List String) (s : State)
    → Right names s
    → Right (names ++ name ∷ []) (count_call sequence name s)
unfolding count_call
count_call-Right sequence name names s h = (
  λ k. ground (
    arith,
    count_of-insert k name (count_of name s.tool_counts + 1) s.tool_counts,
    count-append k names (name ∷ []),
    h.0 k,
    eq_iff name k,
  ),
  first_breach-Agrees names name sequence (count_of name s.tool_counts + 1) s.breach
      (ap (λ (c : ℕ). c + 1) (h.0 name)) h.1,
)

count_calls-Right :
    (sequence : ℤ) (more names : List String) (s : State)
    → Right names s
    → Right (names ++ more) (count_calls sequence more s)
unfolding count_calls
count_calls-Right sequence [] names s h = rw (append-nil names) h
count_calls-Right sequence (name ∷ more) names s h = rw (← append_assoc names (name ∷ []) more) (
    count_calls-Right sequence more (names ++ name ∷ []) (count_call sequence name s)
      (count_call-Right sequence name names s h))

scan_calls-Right :
    {F : Type 0} (calls : List (ℤ × Fields F)) (names : List String) (s : State)
    → Right names s
    → Right (names ++ all_called calls) (scan_calls calls s)
unfolding scan_calls all_called
scan_calls-Right [] names s h = rw (append-nil names) h
scan_calls-Right ((sequence, payload) ∷ calls) names s h =
    rw (← append_assoc names (tools_called payload) (all_called calls)) (
      scan_calls-Right calls (names ++ tools_called payload)
        (count_calls sequence (tools_called payload) s)
        (count_calls-Right sequence (tools_called payload) names s h))

-- A finding names a tool beyond the limit with its number of calls; no finding means that no tool is
-- beyond it.
unfoldable pub Explains : List String → Option (DetectionResult Evidence) → Type 0
Explains names none = (k : String) → count k names ≤ max_calls_per_tool
Explains names (some r) =
    (r.evidence.call_count ≡ count r.evidence.tool_name names)
    × (max_calls_per_tool < r.evidence.call_count)

report-Explains :
    {F : Type 0} (calls : List (ℤ × Fields F)) (names : List String) (counts : Dict ℕ)
    (b : Option Breach)
    → ((k : String) → count_of k counts ≡ count k names)
    → Agrees names b
    → Explains names (Option.map (report calls counts) b)
unfolding Agrees Explains
report-Explains calls names counts none right agrees = agrees
report-Explains calls names counts (some b) right agrees =
    (right b.tool, omega (arith, right b.tool))

start-Right : Right [] (record { tool_counts = []; breach = none })
unfolding Agrees count_of
start-Right = (λ k. refl, λ k. omega arith)

-- The smell fires exactly when some tool is called more than five times in the run: without a finding
-- every tool's calls are at most five, and a finding names a tool with its number of calls in the run,
-- which is more than five.
pub detect-Explains :
    {F : Type 0} (loads : String → Option (Value F)) (events : List Event)
    → Explains (all_called (iter_llm_calls loads events)) (detect loads events)
unfolding detect detect_in
detect-Explains loads events =
    let calls = iter_llm_calls loads events in
    let s = scan_calls-Right calls [] (record { tool_counts = []; breach = none }) start-Right in
    report-Explains calls (all_called calls) _ _ s.0 s.1
