-- ===== src/Contracts/Runtime/Quiet.antt =====
-- What inkfoot/contracts/runtime.py does for one run and what it knows of another.
use ink_foot.Prelude.{
  ◌≡◌, refl, ap, ◌∙◌, ℕ, true, false, String, Option, none, some, arith, eq_iff, inl, inr, str_eq,
  Bool-cases, Option-cases,
}
use ink_foot.Value.{Value, Fields}
use ink_foot.Prelude.Dict.{lookup, insert, lookup-insert, lookup-remove}
use ink_foot.Contracts.Runtime.{
  Facts, Runtime, facts_for_run, has_contract, on_run_start, on_run_end,
}
use ink_foot.Contracts.Enforcer.{ContractEnforcer, register_run, release_run}
use ink_foot.Contracts.Enforcer.Ceiling.{calls_in}
use ink_foot.Contracts.Enforcer.Isolation.{is_tracked}

-- An enforcer that has the run on record.
abbrev pub Tracks : {F : Type 0} → String → ContractEnforcer F → Type 0
Tracks run_id e = is_tracked (lookup run_id e.runs) ≡ true

abbrev pub calls_of : {F : Type 0} → String → ContractEnforcer F → ℕ
calls_of run_id e = calls_in (lookup run_id e.runs)

module _ {F : Type 0} (run_id : String) where
  facts_for_run-kept :
      (loads : String → Option (Value F)) (r : String) (rt : Runtime F) {facts : Facts}
      → lookup run_id rt.run_facts ≡ some facts
      → lookup run_id (facts_for_run loads r rt).1.run_facts ≡ some facts
  unfolding facts_for_run
  facts_for_run-kept loads r rt h = elim (Option-cases (lookup r rt.run_facts)) [
    | inl unknown ↦
        rw (unknown, facts_for_run, lookup-insert) (ground (arith, eq_iff r run_id, h, unknown))
    | inr (fs, known) ↦ rw (known, facts_for_run) h
  ]

  facts_for_run-enforcer :
      (loads : String → Option (Value F)) (r : String) (rt : Runtime F)
      → (facts_for_run loads r rt).1.enforcer ≡ rt.enforcer
  unfolding facts_for_run
  facts_for_run-enforcer loads r rt = ground arith

  pub facts_for_run-known :
      (loads : String → Option (Value F)) (rt : Runtime F) {facts : Facts}
      → lookup run_id rt.run_facts ≡ some facts
      → facts_for_run loads run_id rt ≡ (facts, rt)
  unfolding facts_for_run
  facts_for_run-known loads rt h = rw (h, facts_for_run) refl

  register_run-other :
      (r task : String) (tier : Option String) (e : ContractEnforcer F)
      → str_eq r run_id ≡ false
      → lookup run_id (register_run r task tier e).runs ≡ lookup run_id e.runs
  unfolding register_run
  register_run-other r task tier e other = elim (Option-cases (lookup r e.runs)) [
    | inl untracked ↦ rw (untracked, register_run, lookup-insert, other) refl
    | inr (s, tracked) ↦ rw (tracked, register_run) refl
  ]

  pub register_run-contracts :
      (r task : String) (tier : Option String) (e : ContractEnforcer F)
      → (register_run r task tier e).contracts ≡ e.contracts
  unfolding register_run
  register_run-contracts r task tier e = ground arith

  -- Nothing that is known of the run is lost or counted again.
  pub record Quiet (rt rt' : Runtime F) : Type 0 where
    pub facts :
        (known : Facts)
        → lookup run_id rt.run_facts ≡ some known
        → lookup run_id rt'.run_facts ≡ some known
    pub contracts : rt'.enforcer.contracts ≡ rt.enforcer.contracts
    pub tracked : Tracks run_id rt.enforcer → Tracks run_id rt'.enforcer
    pub calls : calls_of run_id rt'.enforcer ≡ calls_of run_id rt.enforcer

  pub Quiet-refl : (rt : Runtime F) → Quiet rt rt
  Quiet-refl rt = record { facts = λ known h. h; contracts = refl; tracked = λ h. h; calls = refl }

  pub Quiet-trans : {a b c : Runtime F} → Quiet a b → Quiet b c → Quiet a c
  Quiet-trans h k = record {
    facts = λ known e. k.facts known (h.facts known e);
    contracts = k.contracts ∙ h.contracts;
    tracked = λ e. k.tracked (h.tracked e);
    calls = k.calls ∙ h.calls;
  }

  pub facts_for_run-Quiet :
      (loads : String → Option (Value F)) (r : String) (rt : Runtime F)
      → Quiet rt (facts_for_run loads r rt).1
  facts_for_run-Quiet loads r rt = record {
    facts = λ known h. facts_for_run-kept loads r rt h;
    contracts = ap (λ e. e.contracts) (facts_for_run-enforcer loads r rt);
    tracked = λ h. rw (facts_for_run-enforcer loads r rt) h;
    calls = ap (calls_of run_id) (facts_for_run-enforcer loads r rt);
  }

  insert-other :
      (r : String) (x : Facts) (rt : Runtime F) (known : Facts)
      → str_eq r run_id ≡ false
      → lookup run_id rt.run_facts ≡ some known
      → lookup run_id (insert r x rt.run_facts) ≡ some known
  insert-other r x rt known other h = rw (lookup-insert, other) h

  pub on_run_start-Quiet :
      (r : String) (task : Option String) (metadata : Option (Fields F)) (rt : Runtime F)
      → str_eq r run_id ≡ false
      → Quiet rt (on_run_start r task metadata rt)
  unfolding on_run_start
  on_run_start-Quiet r none metadata rt other = Quiet-refl rt
  on_run_start-Quiet r (some task) metadata rt other =
      elim (Bool-cases (has_contract (some task) rt.enforcer)) [
        | inl governed ↦ rw governed (record {
          facts = λ known h. insert-other r _ rt known other h;
          contracts = register_run-contracts r task _ rt.enforcer;
          tracked = λ h. rw (register_run-other r task _ rt.enforcer other) h;
          calls = ap calls_in (register_run-other r task _ rt.enforcer other);
        })
        | inr free ↦ rw free (record {
          facts = λ known h. insert-other r _ rt known other h;
          contracts = refl;
          tracked = λ h. h;
          calls = refl;
        })
      ]

  pub on_run_end-Quiet :
      (r : String) (rt : Runtime F) → str_eq r run_id ≡ false → Quiet rt (on_run_end r rt)
  unfolding on_run_end release_run
  on_run_end-Quiet r rt other = record {
    facts = λ known h. rw (lookup-remove, other) h;
    contracts = refl;
    tracked = λ h. rw (lookup-remove, other) h;
    calls = rw (lookup-remove, other) refl;
  }
