-- ===== src/Contracts/Runtime/Counting.antt =====
-- The enforcer behind the hooks of inkfoot/contracts/runtime.py counts the requests that are recorded
-- for a run, and each once.
use ink_foot.Contracts.Runtime.BeforeCall.{
  SameCall, enforced, enforce_before_call-Quiet, enforce_before_call-SameCall,
}
use ink_foot.Prelude.Int.{ℤ}
use ink_foot.Prelude.{
  Bool, true, sym, ◌+◌, ◌≡◌, ap, ◌∙◌, ℕ, not, ◌&&◌, String, Option, none, some, arith, str_eq,
  if◌then◌else◌,
}
use ink_foot.Float.{Float}
use ink_foot.Value.{Value}
use ink_foot.Storage.{Store, Event}
use ink_foot.Prelude.Dict.{lookup}
use ink_foot.Contracts.Estimator.{Tokens}
use ink_foot.Contracts.Runtime.{
  Facts, policy_blocked, proceeds, Runtime, CallContext, facts_for_run, record_runtime_call,
}
use ink_foot.Contracts.Runtime.Process.{
  Happening, started, ended, called, happen, makes, WithinRun, goes_through, runtime_call,
}
use ink_foot.Contracts.Enforcer.{ContractViolation}
use ink_foot.Contracts.Enforcer.Accounts.{
  record_call-calls, record_call-tracked, record_call-contracts,
}
use ink_foot.Contracts.Runtime.{Enforced}
use ink_foot.Contracts.Runtime.Process.{Actuals, after_decision, is_recorded}
use ink_foot.Contracts.Runtime.Quiet.{
  Tracks, calls_of, Quiet, Quiet-refl, facts_for_run-Quiet, on_run_start-Quiet, on_run_end-Quiet,
}

-- One for a recorded call of the run that a policy did not make, and that is not blocked.
abbrev counts : {F : Type 0} → String → CallContext F → Option Actuals → Enforced F → ℕ
counts run_id ctx actuals d =
    if str_eq ctx.run_id run_id && not ctx.is_helper && is_recorded actuals
    then if goes_through d then 1 else 0
    else 0

and_true : (x y : Bool) → x && y && true ≡ x && y
and_true x y = ground arith

module _ (f : Float) (t : Tokens (f.F)) (loads : String → Option (Value (f.F)))
    (event_of : String → ContractViolation (f.F) → Store → Event) (run_id : String) where
  open f use {F}

  record_runtime_call-calls :
      (ctx : CallContext F) (output : Option ℤ) (rt : Runtime F)
      → Tracks run_id rt.enforcer
      → calls_of run_id (record_runtime_call f t loads event_of ctx output rt).enforcer
        ≡ (if str_eq ctx.run_id run_id && not ctx.is_helper then 1 else 0)
          + calls_of run_id rt.enforcer
  unfolding record_runtime_call
  record_runtime_call-calls ctx output rt known =
      let quiet = facts_for_run-Quiet run_id loads ctx.run_id rt in
      record_call-calls f run_id ctx.run_id ctx.estimated_nanodollars
        (if ctx.is_helper then none else output) (facts_for_run loads ctx.run_id rt).0.0
        (not ctx.is_helper) (facts_for_run loads ctx.run_id rt).1.enforcer (quiet.tracked known)
      ∙ ap (λ k. (if str_eq ctx.run_id run_id && not ctx.is_helper then 1 else 0) + k) quiet.calls

  -- All but the number of calls that the enforcer keeps for the run is kept.
  pub record Kept (rt rt' : Runtime F) : Type 0 where
    pub facts :
        (known : Facts)
        → lookup run_id rt.run_facts ≡ some known
        → lookup run_id rt'.run_facts ≡ some known
    pub contracts : rt'.enforcer.contracts ≡ rt.enforcer.contracts
    pub tracked : Tracks run_id rt.enforcer → Tracks run_id rt'.enforcer

  Kept-of_Quiet : {rt rt' : Runtime F} → Quiet run_id rt rt' → Kept rt rt'
  Kept-of_Quiet q = record { facts = q.facts; contracts = q.contracts; tracked = q.tracked }

  record_runtime_call-Kept :
      (ctx : CallContext F) (output : Option ℤ) (rt : Runtime F)
      → Kept rt (record_runtime_call f t loads event_of ctx output rt)
  unfolding record_runtime_call
  record_runtime_call-Kept ctx output rt =
      let quiet = facts_for_run-Quiet run_id loads ctx.run_id rt in
      record {
        facts = quiet.facts;
        contracts =
            record_call-contracts f ctx.run_id ctx.estimated_nanodollars
              (if ctx.is_helper then none else output) (facts_for_run loads ctx.run_id rt).0.0
              (not ctx.is_helper) (facts_for_run loads ctx.run_id rt).1.enforcer
            ∙ quiet.contracts;
        tracked = λ h.
            record_call-tracked f run_id ctx.run_id ctx.estimated_nanodollars
              (if ctx.is_helper then none else output) (facts_for_run loads ctx.run_id rt).0.0
              (not ctx.is_helper) (facts_for_run loads ctx.run_id rt).1.enforcer (quiet.tracked h);
      }

  after_decision-calls :
      (ctx : CallContext F) (actuals : Option Actuals) (d : Enforced F) (rt : Runtime F)
      → SameCall ctx d
      → Tracks run_id rt.enforcer
      → calls_of run_id (after_decision f t loads event_of actuals (rt, d)).enforcer
        ≡ counts run_id ctx actuals d + calls_of run_id rt.enforcer
  after_decision-calls ctx none (policy_blocked v) rt same known = ground arith
  after_decision-calls ctx (some actuals) (policy_blocked v) rt same known = ground arith
  after_decision-calls ctx none (proceeds ctx') rt same known = ground arith
  after_decision-calls ctx (some actuals) (proceeds ctx') rt (run, helper) known =
      rw (← run, ← helper)
        (record_runtime_call-calls (record ctx' { estimated_nanodollars = actuals.0 }) actuals.1 rt
            known
          ∙ ap (λ b. (if b then 1 else 0) + calls_of run_id rt.enforcer)
              (sym (and_true (str_eq ctx'.run_id run_id) (not ctx'.is_helper))))

  after_decision-Kept :
      (actuals : Option Actuals) (d : Enforced F) (rt : Runtime F)
      → Kept rt (after_decision f t loads event_of actuals (rt, d))
  after_decision-Kept none (policy_blocked v) rt = Kept-of_Quiet (Quiet-refl run_id rt)
  after_decision-Kept (some actuals) (policy_blocked v) rt = Kept-of_Quiet (Quiet-refl run_id rt)
  after_decision-Kept none (proceeds ctx') rt = Kept-of_Quiet (Quiet-refl run_id rt)
  after_decision-Kept (some actuals) (proceeds ctx') rt =
      record_runtime_call-Kept (record ctx' { estimated_nanodollars = actuals.0 }) actuals.1 rt

  Kept-trans : {a b c : Runtime F} → Kept a b → Kept b c → Kept a c
  Kept-trans h k = record {
    facts = λ known e. k.facts known (h.facts known e);
    contracts = k.contracts ∙ h.contracts;
    tracked = λ e. k.tracked (h.tracked e);
  }

  pub happen-Kept :
      (h : Happening F) (rt : Runtime F)
      → WithinRun run_id h
      → Kept rt (happen f t loads event_of h rt)
  unfolding happen runtime_call
  happen-Kept (started r task metadata) rt other =
      Kept-of_Quiet (on_run_start-Quiet run_id r task metadata rt other)
  happen-Kept (ended r) rt other = Kept-of_Quiet (on_run_end-Quiet run_id r rt other)
  happen-Kept (called ctx actuals) rt within =
      Kept-trans (Kept-of_Quiet (enforce_before_call-Quiet f t loads event_of run_id ctx rt)) (
        after_decision-Kept actuals (enforced f t loads event_of run_id ctx rt).1
          (enforced f t loads event_of run_id ctx rt).0)

  -- The enforcer counts what is made, and nothing else.
  pub happen-calls :
      (h : Happening F) (rt : Runtime F)
      → WithinRun run_id h
      → Tracks run_id rt.enforcer
      → calls_of run_id (happen f t loads event_of h rt).enforcer
        ≡ makes f t loads event_of run_id h rt + calls_of run_id rt.enforcer
  unfolding happen runtime_call
  happen-calls (started r task metadata) rt other known =
      rw (on_run_start-Quiet run_id r task metadata rt other).calls (omega arith)
  happen-calls (ended r) rt other known =
      rw (on_run_end-Quiet run_id r rt other).calls (omega arith)
  happen-calls (called ctx actuals) rt within known =
      let quiet = enforce_before_call-Quiet f t loads event_of run_id ctx rt in
      let d : Enforced F = (enforced f t loads event_of run_id ctx rt).1 in
      after_decision-calls ctx actuals d (enforced f t loads event_of run_id ctx rt).0
        (enforce_before_call-SameCall f t loads event_of run_id ctx rt) (quiet.tracked known)
      ∙ ap (λ k. counts run_id ctx actuals d + k) quiet.calls
