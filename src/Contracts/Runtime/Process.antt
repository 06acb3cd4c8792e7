-- ===== src/Contracts/Runtime/Process.antt =====
-- A process under inkfoot/contracts/runtime.py: runs that start and end, and their LLM calls, in any
-- order. `runtime_call` is a call as the shims wrap it: `enforce_before_call`, the request unless it
-- was blocked, and `record_call` with what the request turned out to cost, where it comes to that: a
-- request that fails, whose response another layer has seen or whose translation raises goes out and
-- is not recorded. No call overlaps with another one.
use ink_foot.Prelude.Int.{ℤ}
use ink_foot.Prelude.{
  ◌+◌, ◌≡◌, Bool, true, false, ℕ, String, not, ◌&&◌, Option, none, some, List, [], ◌∷◌, str_eq,
  if◌then◌else◌,
}
use ink_foot.Float.{Float}
use ink_foot.Contracts.Estimator.{Tokens}
use ink_foot.Value.{Value, Fields}
use ink_foot.Contracts.Enforcer.{ContractViolation}
use ink_foot.Storage.{Store, Event}
use ink_foot.Contracts.Runtime.{
  policy_blocked, enforce_before_call, Enforced, on_run_start, Runtime, on_run_end,
  record_runtime_call, CallContext, proceeds,
}

-- The cost and the output tokens of a recorded call, as far as they became known.
abbrev pub Actuals : Type 0
Actuals = Option ℤ × Option ℤ

pub data Happening (F : Type 0) : Type 0 where
  started : String → Option String → Option (Fields F) → Happening F
  ended : String → Happening F
  called : CallContext F → Option Actuals → Happening F

abbrev pub is_recorded : Option Actuals → Bool
is_recorded none = false
is_recorded (some actuals) = true

-- Whether a request is made.
abbrev pub goes_through : {F : Type 0} → Enforced F → Bool
goes_through (proceeds ctx) = true
goes_through (policy_blocked v) = false

-- Neither starts nor ends the run.
abbrev pub WithinRun : {F : Type 0} → String → Happening F → Type 0
WithinRun run_id (started r task metadata) = str_eq r run_id ≡ false
WithinRun run_id (ended r) = str_eq r run_id ≡ false
WithinRun run_id (called ctx actuals) = Unit

abbrev pub AllWithin : {F : Type 0} → String → List (Happening F) → Type 0
AllWithin run_id [] = Unit
AllWithin run_id (h ∷ hs) = WithinRun run_id h × AllWithin run_id hs

module _ (f : Float) (t : Tokens (f.F)) (loads : String → Option (Value (f.F)))
    (event_of : String → ContractViolation (f.F) → Store → Event) where
  open f use {F}

  abbrev pub after_decision : Option Actuals → Runtime F × Enforced F → Runtime F
  after_decision none (rt, proceeds ctx) = rt
  after_decision (some actuals) (rt, proceeds ctx) =
      record_runtime_call f t loads event_of (record ctx { estimated_nanodollars = actuals.0 })
        actuals.1 rt
  after_decision none (rt, policy_blocked v) = rt
  after_decision (some actuals) (rt, policy_blocked v) = rt

  unfoldable pub runtime_call : CallContext F → Option Actuals → Runtime F → Runtime F
  unfolding enforce_before_call record_runtime_call
  runtime_call ctx actuals rt =
      after_decision actuals (enforce_before_call f t loads event_of ctx rt)

  unfoldable pub happen : Happening F → Runtime F → Runtime F
  unfolding on_run_start on_run_end runtime_call
  happen (started run_id task metadata) rt = on_run_start run_id task metadata rt
  happen (ended run_id) rt = on_run_end run_id rt
  happen (called ctx actuals) rt = runtime_call ctx actuals rt

  unfoldable pub happen_all : List (Happening F) → Runtime F → Runtime F
  unfolding happen
  happen_all [] rt = rt
  happen_all (h ∷ hs) rt = happen_all hs (happen h rt)

  -- How many requests of the run that a policy did not make a happening makes and records.
  abbrev pub makes : String → Happening F → Runtime F → ℕ
  makes run_id (called ctx actuals) rt =
      if str_eq ctx.run_id run_id && not ctx.is_helper && is_recorded actuals
      then if goes_through (enforce_before_call f t loads event_of ctx rt).1 then 1 else 0
      else 0
  makes run_id _ rt = 0

  unfoldable pub made : String → List (Happening F) → Runtime F → ℕ
  unfolding enforce_before_call happen
  made run_id [] rt = 0
  made run_id (h ∷ hs) rt = makes run_id h rt + made run_id hs (happen h rt)
