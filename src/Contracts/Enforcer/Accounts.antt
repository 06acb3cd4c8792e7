-- ===== src/Contracts/Enforcer/Accounts.antt =====
-- What `record_call` of inkfoot/contracts/enforcer.py does to the accounts of the runs.
use ink_foot.Prelude.Int.{ℤ}
use ink_foot.Prelude.{
  ◌+◌, ◌≡◌, refl, ◌∙◌, inl, inr, Bool, Bool-cases, Option-cases, true, false, String, Option, none,
  some, arith, eq_iff, str_eq, if◌then◌else◌, ◌&&◌,
}
use ink_foot.Float.{Float}
use ink_foot.Prelude.Dict.{lookup, lookup-insert}
use ink_foot.Contracts.Enforcer.{ContractEnforcer, RunState}
use ink_foot.Contracts.Enforcer.Record.{
  record_call, charge, charge_run, observe-runs, observe-contracts,
}
use ink_foot.Contracts.Enforcer.Ceiling.{calls_in}
use ink_foot.Contracts.Enforcer.Isolation.{is_tracked}

module _ (f : Float) where
  open f use {F}

  charge_run-contracts :
      (run_id : String) (nd : Option ℤ) (count : Bool) (o : Option RunState)
      (e : ContractEnforcer F)
      → (charge_run f run_id nd count o e).contracts ≡ e.contracts
  charge_run-contracts r nd count none e = refl
  charge_run-contracts r nd count (some s) e = refl

  -- No call changes a contract.
  pub record_call-contracts :
      (r : String) (nd output : Option ℤ) (task : Option String) (count : Bool)
      (e : ContractEnforcer F)
      → (record_call f r nd output task count e).contracts ≡ e.contracts
  unfolding record_call
  record_call-contracts r nd output task count e =
      observe-contracts f _ _ _ ∙ charge_run-contracts r nd count (lookup r e.runs) e

  pub record_call-tracked :
      (run_id r : String) (nd output : Option ℤ) (task : Option String) (count : Bool)
      (e : ContractEnforcer F)
      → is_tracked (lookup run_id e.runs) ≡ true
      → is_tracked (lookup run_id (record_call f r nd output task count e).runs) ≡ true
  unfolding record_call
  record_call-tracked run_id r nd output task count e known =
      elim (Option-cases (lookup r e.runs)) [
        | inl untracked ↦ rw (observe-runs f _ _ _, untracked) known
        | inr (s, tracked) ↦ rw (observe-runs f _ _ _, tracked, lookup-insert) (ground arith)
      ]

  untracked_other :
      (run_id r : String) (e : ContractEnforcer F)
      → is_tracked (lookup run_id e.runs) ≡ true
      → lookup r e.runs ≡ none
      → str_eq r run_id ≡ false
  untracked_other run_id r e known untracked = ground (arith, eq_iff r run_id)

  counted :
      (count : Bool) (s : RunState) (n : Option ℤ)
      → (charge n count s).call_count ≡ (if count then 1 else 0) + s.call_count
  unfolding charge
  counted count s n = ground arith

  -- A completed call counts once, for its own run, if it is to be counted at all.
  pub record_call-calls :
      (run_id r : String) (nd output : Option ℤ) (task : Option String) (count : Bool)
      (e : ContractEnforcer F)
      → is_tracked (lookup run_id e.runs) ≡ true
      → calls_in (lookup run_id (record_call f r nd output task count e).runs)
        ≡ (if str_eq r run_id && count then 1 else 0) + calls_in (lookup run_id e.runs)
  unfolding record_call
  record_call-calls run_id r nd output task count e known = elim (Option-cases (lookup r e.runs)) [
    | inl untracked ↦
        rw (observe-runs f _ _ _, untracked, untracked_other run_id r e known untracked)
          (omega arith)
    | inr (s, tracked) ↦ rw (observe-runs f _ _ _, tracked, lookup-insert) (at_run s tracked)
  ]
    where
      at_run :
          (s : RunState)
          → lookup r e.runs ≡ some s
          → calls_in (if str_eq r run_id then some (charge nd count s) else lookup run_id e.runs)
            ≡ (if str_eq r run_id && count then 1 else 0) + calls_in (lookup run_id e.runs)
      at_run s tracked = elim (Bool-cases (str_eq r run_id)) [
        | inl same ↦ rw (same, ← (eq_iff r run_id).0 same, tracked) (counted count s nd)
        | inr other ↦ rw other (omega arith)
      ]
