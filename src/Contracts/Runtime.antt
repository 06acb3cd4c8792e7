-- ===== src/Contracts/Runtime.antt =====
-- inkfoot/contracts/runtime.py: the active enforcer with its storage, the facts of runs, and the hooks
-- that the shims call around each LLM call. The id, the time, the sequence number and the JSON text of
-- an event come from outside, as `event_of`; `json.loads` is the parameter `loads`.
mod Tests
pub mod Outcomes
pub mod OutcomeRace
pub mod Process
pub mod Quiet
pub mod BeforeCall
pub mod Counting
pub mod CallLimit
use ink_foot.Prelude.Int.{ℤ, pos, negsuc, ◌+ℤ◌, ◌-ℤ◌, ◌≤ℤ◌, ltb_ℤ, leb_ℤ}
use ink_foot.Prelude.{
  ℕ, zero, suc, ◌+◌, ◌-◌, ◌*◌, ◌/◌, ◌%◌, ◌≤◌, ◌<◌, String, ◌≡◌, refl, sym, ap, ◌∙◌, ◌≢◌, ◌⊎◌, inl,
  inr, Bool, true, false, not, ◌&&◌, ◌||◌, Option, none, some, List, [], ◌∷◌, ◌++◌, map, arith,
  eq_iff, eq_refl, ltb, leb, ◌==◌, str_eq, if◌then◌else◌, Bool-cases, Option-cases,
}
use ink_foot.Prelude.Dict.{Dict, lookup, insert, remove}
use ink_foot.Prelude.Sort.{sort_by}
use ink_foot.Value.{Value, text, dict, Fields, find, get}
use ink_foot.Value.Truth.{replace}
use ink_foot.Storage.{Store, Run, Event, get_run, insert_event}
use ink_foot.Contracts.Schema.{Contract, resolved_outcome}
use ink_foot.Contracts.Estimator.{Tokens}
use ink_foot.Contracts.Enforcer.{
  ContractEnforcer, ContractViolation, EnforcementOutcome, Decision, allow, warned, switched,
  blocked, before_call, register_run, release_run,
}
use ink_foot.Contracts.Enforcer.Record.{record_call, evaluate_outcome_window}
use ink_foot.Float.{Float}

-- A run's task and tier.
abbrev pub Facts : Type 0
Facts = Option String × Option String

-- The module's globals, once an enforcer is active.
pub record Runtime (F : Type 0) : Type 0 where
  pub enforcer : ContractEnforcer F
  pub storage : Store
  pub run_facts : Dict Facts

-- `set_active_enforcer`, and `clear_active_enforcer`
abbrev pub set_active_enforcer :
    {F : Type 0} → ContractEnforcer F → Store → Option (Runtime F) → Option (Runtime F)
set_active_enforcer e s rt = some (record { enforcer = e; storage = s; run_facts = [] })

abbrev pub clear_active_enforcer : {F : Type 0} → Option (Runtime F) → Option (Runtime F)
clear_active_enforcer rt = none

-- The parts of a `CallContext`; `is_helper` is the mark of a policy's own call in its metadata.
pub record CallContext (F : Type 0) : Type 0 where
  pub run_id : String
  pub provider : String
  pub model : String
  pub request_kwargs : Fields F
  pub is_helper : Bool
  pub estimated_nanodollars : Option ℤ

-- The call goes on with its context, or `PolicyBlocked` is raised for a violation.
pub data Enforced (F : Type 0) : Type 0 where
  proceeds : CallContext F → Enforced F
  policy_blocked : Option (ContractViolation F) → Enforced F

module _ {F : Type 0} where
  abbrev pub nonempty_text : Value F → Option String
  nonempty_text (text s) = if str_eq s "" then none else some s
  nonempty_text _ = none

  -- `_tier_from_metadata`
  unfoldable pub tier_from_metadata : Option (Fields F) → Option String
  unfolding find
  tier_from_metadata none = none
  tier_from_metadata (some fs) = nonempty_text (get "tenant_tier" fs)

  abbrev pub mapping : Option (Value F) → Option (Fields F)
  mapping (some (dict fs)) = some fs
  mapping _ = none

  -- `_load_metadata`
  unfoldable pub load_metadata : (String → Option (Value F)) → Option String → Option (Fields F)
  load_metadata loads none = none
  load_metadata loads (some raw) = if str_eq raw "" then none else mapping (loads raw)

  abbrev pub facts_of_row : (String → Option (Value F)) → Option Run → Facts
  facts_of_row loads none = (none, none)
  facts_of_row loads (some row) =
      (row.task, tier_from_metadata (load_metadata loads row.metadata_json))

  -- `_facts_for_run`: what is not known is read once.
  unfoldable pub facts_for_run :
      (String → Option (Value F)) → String → Runtime F → Facts × Runtime F
  unfolding lookup insert get_run load_metadata tier_from_metadata
  facts_for_run loads run_id rt = elim (lookup run_id rt.run_facts) [
    | some facts ↦ (facts, rt)
    | none ↦
        let facts : Facts = facts_of_row loads (get_run run_id rt.storage) in
        (facts, record rt { run_facts = insert run_id facts rt.run_facts })
  ]

  abbrev pub is_known : Option (Contract F) → Bool
  is_known none = false
  is_known (some c) = true

  -- `has_contract`
  unfoldable pub has_contract : Option String → ContractEnforcer F → Bool
  unfolding lookup
  has_contract none e = false
  has_contract (some task) e = is_known (lookup task e.contracts)

  abbrev pub register_if :
      Bool → String → String → Option String → ContractEnforcer F → ContractEnforcer F
  register_if b run_id task tier e = if b then register_run run_id task tier e else e

  -- `on_run_start`, with an active enforcer
  unfoldable pub on_run_start : String → Option String → Option (Fields F) → Runtime F → Runtime F
  unfolding has_contract register_run tier_from_metadata insert
  on_run_start run_id none metadata rt = rt
  on_run_start run_id (some task) metadata rt =
      let tier = tier_from_metadata metadata in
      record rt {
        enforcer = register_if (has_contract (some task) rt.enforcer) run_id task tier rt.enforcer;
        run_facts = insert run_id (some task, tier) rt.run_facts;
      }

  -- `on_run_end`
  unfoldable pub on_run_end : String → Runtime F → Runtime F
  unfolding release_run remove
  on_run_end run_id rt = record rt {
    enforcer = release_run run_id rt.enforcer;
    run_facts = remove run_id rt.run_facts;
  }

  module _ (event_of : String → ContractViolation F → Store → Event) where
    abbrev pub stored : Option Store → Store → Store
    stored none s = s
    stored (some s') s = s'

    -- `_emit_violations`: a row that cannot be written is given up.
    unfoldable pub emit_violations : String → List (ContractViolation F) → Store → Store
    unfolding insert_event
    emit_violations run_id [] s = s
    emit_violations run_id (v ∷ vs) s =
        emit_violations run_id vs (stored (insert_event (event_of run_id v s) s) s)

  abbrev pub first_of : List (ContractViolation F) → Option (ContractViolation F)
  first_of [] = none
  first_of (v ∷ vs) = some v

  abbrev pub with_model : Option String → CallContext F → CallContext F
  with_model none ctx = ctx
  with_model (some model) ctx = if str_eq model "" then ctx else record ctx {
    model = model;
    request_kwargs = replace "model" (text model) ctx.request_kwargs;
  }

  -- What the outcome's action does to the call.
  abbrev pub acted :
      Decision → Option String → List (ContractViolation F) → CallContext F → Enforced F
  acted blocked model violations ctx = policy_blocked (first_of violations)
  acted switched model violations ctx = proceeds (with_model model ctx)
  acted _ model violations ctx = proceeds ctx

module _ (f : Float) (t : Tokens (f.F)) (loads : String → Option (Value (f.F)))
    (event_of : String → ContractViolation (f.F) → Store → Event) where
  open f use {F}

  -- From the facts on.
  abbrev pub enforce_with : CallContext F → Facts → Runtime F → Runtime F × Enforced F
  enforce_with ctx (task, tier) rt =
      let (e, o) =
        before_call f t ctx.run_id task ctx.provider ctx.model ctx.request_kwargs tier
          rt.enforcer in
      (
        record rt {
          enforcer = e;
          storage = emit_violations event_of ctx.run_id o.violations rt.storage;
        },
        acted o.action o.new_model o.violations ctx,
      )

  abbrev pub enforce_known : CallContext F → Facts → Runtime F → Runtime F × Enforced F
  enforce_known ctx facts rt =
      if has_contract facts.0 rt.enforcer then enforce_with ctx facts rt else (rt, proceeds ctx)

  -- `enforce_before_call`, with an active enforcer; a policy's own call is exempt.
  unfoldable pub enforce_before_call : CallContext F → Runtime F → Runtime F × Enforced F
  unfolding facts_for_run has_contract before_call emit_violations
  enforce_before_call ctx rt =
      if ctx.is_helper
      then (rt, proceeds ctx)
      else let (facts, rt') = facts_for_run loads ctx.run_id rt in enforce_known ctx facts rt'

  -- `record_call`, with the output tokens of the call's ledger
  unfoldable pub record_runtime_call : CallContext F → Option ℤ → Runtime F → Runtime F
  unfolding facts_for_run record_call
  record_runtime_call ctx output rt =
      let (facts, rt') = facts_for_run loads ctx.run_id rt in
      record rt' {
        enforcer =
            record_call f ctx.run_id ctx.estimated_nanodollars
              (if ctx.is_helper then none else output) facts.0 (not ctx.is_helper) rt'.enforcer;
      }
