-- ===== src/Contracts/Runtime/BeforeCall.antt =====
-- `enforce_before_call` of inkfoot/contracts/runtime.py moves no account, and keeps the call's run.
use ink_foot.Prelude.{
  ◌≡◌, refl, Bool, true, false, String, Option, none, some, List, inl, inr, str_eq, if◌then◌else◌,
  Bool-cases,
}
use ink_foot.Float.{Float}
use ink_foot.Value.{Value}
use ink_foot.Storage.{Store, Event}
use ink_foot.Contracts.Estimator.{Tokens}
use ink_foot.Contracts.Runtime.{
  Facts, policy_blocked, proceeds, Runtime, CallContext, facts_for_run, has_contract,
  enforce_before_call, enforce_known,
}
use ink_foot.Contracts.Enforcer.{ContractViolation, blocked}
use ink_foot.Contracts.Enforcer.Isolation.{before_call-SameAccounts}
use ink_foot.Contracts.Runtime.{Enforced, acted, with_model}
use ink_foot.Contracts.Runtime.Quiet.{Quiet, Quiet-refl, Quiet-trans, facts_for_run-Quiet}
use ink_foot.Contracts.Enforcer.{Decision, allow, warned, switched}

-- The same run's call, and still a policy's own one if it was.
abbrev pub SameCall : {F : Type 0} → CallContext F → Enforced F → Type 0
SameCall ctx (proceeds ctx') = (ctx'.run_id ≡ ctx.run_id) × (ctx'.is_helper ≡ ctx.is_helper)
SameCall ctx (policy_blocked v) = Unit

with_model-SameCall :
    {F : Type 0} (model : Option String) (ctx : CallContext F)
    → SameCall ctx (proceeds (with_model model ctx))
with_model-SameCall none ctx = (refl, refl)
with_model-SameCall (some model) ctx = elim (Bool-cases (str_eq model "")) [
  | inl empty ↦ (rw empty refl, rw empty refl)
  | inr named ↦ (rw named refl, rw named refl)
]

acted-SameCall :
    {F : Type 0} (action : Decision) (model : Option String) (vs : List (ContractViolation F))
    (ctx : CallContext F)
    → SameCall ctx (acted action model vs ctx)
acted-SameCall allow model vs ctx = (refl, refl)
acted-SameCall warned model vs ctx = (refl, refl)
acted-SameCall switched model vs ctx = with_model-SameCall model ctx
acted-SameCall blocked model vs ctx = tt

module _ (f : Float) (t : Tokens (f.F)) (loads : String → Option (Value (f.F)))
    (event_of : String → ContractViolation (f.F) → Store → Event) (run_id : String) where
  open f use {F}

  abbrev pub enforced : CallContext F → Runtime F → Runtime F × Enforced F
  enforced ctx rt = enforce_before_call f t loads event_of ctx rt

  enforce_known-Quiet :
      (ctx : CallContext F) (facts : Facts) (rt : Runtime F)
      → Quiet run_id rt (enforce_known f t loads event_of ctx facts rt).0
  enforce_known-Quiet ctx (task, tier) rt =
      let same =
        before_call-SameAccounts f t ctx.run_id task ctx.provider ctx.model ctx.request_kwargs tier
          rt.enforcer in
      elim (Bool-cases (has_contract task rt.enforcer)) [
        | inl governed ↦ rw governed (record {
          facts = λ known h. h;
          contracts = same.contracts;
          tracked = same.tracked run_id;
          calls = same.calls run_id;
        })
        | inr free ↦ rw free (Quiet-refl run_id rt)
      ]

  pub enforce_before_call-Quiet :
      (ctx : CallContext F) (rt : Runtime F) → Quiet run_id rt (enforced ctx rt).0
  unfolding enforce_before_call
  enforce_before_call-Quiet ctx rt = exempt_or_not ctx.is_helper
    where
      exempt_or_not :
          (helper : Bool)
          → Quiet run_id rt
              (if helper
                then (rt, proceeds ctx)
                else enforce_known f t loads event_of ctx
                    (facts_for_run loads ctx.run_id rt).0
                    (facts_for_run loads ctx.run_id rt).1).0
      exempt_or_not true = Quiet-refl run_id rt
      exempt_or_not false = Quiet-trans run_id (facts_for_run-Quiet run_id loads ctx.run_id rt) (
          enforce_known-Quiet ctx (facts_for_run loads ctx.run_id rt).0
            (facts_for_run loads ctx.run_id rt).1)

  enforce_known-SameCall :
      (ctx : CallContext F) (facts : Facts) (rt : Runtime F)
      → SameCall ctx (enforce_known f t loads event_of ctx facts rt).1
  enforce_known-SameCall ctx (task, tier) rt = elim (Bool-cases (has_contract task rt.enforcer)) [
    | inl governed ↦ rw governed (acted-SameCall _ _ _ ctx)
    | inr free ↦ rw free (refl, refl)
  ]

  pub enforce_before_call-SameCall :
      (ctx : CallContext F) (rt : Runtime F) → SameCall ctx (enforced ctx rt).1
  unfolding enforce_before_call
  enforce_before_call-SameCall ctx rt = exempt_or_not ctx.is_helper
    where
      exempt_or_not :
          (helper : Bool)
          → SameCall ctx
              (if helper
                then (rt, proceeds ctx)
                else enforce_known f t loads event_of ctx
                    (facts_for_run loads ctx.run_id rt).0
                    (facts_for_run loads ctx.run_id rt).1).1
      exempt_or_not true = (refl, refl)
      exempt_or_not false =
          enforce_known-SameCall ctx (facts_for_run loads ctx.run_id rt).0
            (facts_for_run loads ctx.run_id rt).1
