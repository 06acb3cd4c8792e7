-- ===== src/Lifecycle/Handle/Released.antt =====
-- `_release_run_state` and `on_run_end` leave nothing of a run that ended, inkfoot/_run_lifecycle.py.
use ink_foot.Prelude.{
  ◌∙◌, ap, ℕ, String, ◌≡◌, refl, false, Option, none, some, arith, eq_refl, str_eq, inl, inr,
  Bool-cases,
}
use ink_foot.Prelude.Dict.{Dict, lookup, insert, remove, lookup-insert, lookup-remove}
use ink_foot.Value.{Value}
use ink_foot.Storage.{Store, end_run}
use ink_foot.Contracts.Runtime.{Facts, Runtime, on_run_end}
use ink_foot.Contracts.Enforcer.{RunState, release_run}
use ink_foot.Lifecycle.{
  Process, Stamp, returned, emit_event, written, under_contracts, next_sequence,
}
use ink_foot.Lifecycle.Handle.{
  restored, Handle, end_handle, ended_in, after_last_event, release_run_state, valid_status,
}

forgotten : {A : Type 0} (r : String) (d : Dict A) → lookup r (remove r d) ≡ none
forgotten r d = simp (lookup-remove, eq_refl)

kept :
    {A : Type 0} (r k : String) (d : Dict A)
    → str_eq r k ≡ false
    → lookup k (remove r d) ≡ lookup k d
kept r k d other = rw (lookup-remove, other) refl

kept_insert :
    {A : Type 0} (r k : String) (a : A) (d : Dict A)
    → str_eq r k ≡ false
    → lookup k (remove r (insert r a d)) ≡ lookup k d
kept_insert r k a d other = rw (lookup-remove, other, lookup-insert, other) refl

module _ {F : Type 0} (k : String) where
  -- What an active enforcer keeps for a run: its facts and its account.
  abbrev pub facts_in : Option (Runtime F) → Option Facts
  facts_in none = none
  facts_in (some rt) = lookup k rt.run_facts

  abbrev pub account_in : Option (Runtime F) → Option RunState
  account_in none = none
  account_in (some rt) = lookup k rt.enforcer.runs

module _ {F : Type 0} (r : String) where
  abbrev pub ContractsForget : Option (Runtime F) → Type 0
  ContractsForget none = Unit
  ContractsForget (some rt) = (lookup r rt.run_facts ≡ none) × (lookup r rt.enforcer.runs ≡ none)

  -- The process holds nothing of the run, and all of the others.
  pub record Released (p p' : Process F) : Type 0 where
    pub counter : lookup r p'.sequence_counters ≡ none
    pub state : lookup r p'.run_states ≡ none
    pub responses : lookup r p'.response_ids ≡ none
    pub errors : lookup r p'.error_keys ≡ none
    pub contract : ContractsForget p'.contracts
    pub other_counters :
        (k : String)
        → str_eq r k ≡ false
        → lookup k p'.sequence_counters ≡ lookup k p.sequence_counters
    pub other_states :
        (k : String) → str_eq r k ≡ false → lookup k p'.run_states ≡ lookup k p.run_states
    pub other_responses :
        (k : String) → str_eq r k ≡ false → lookup k p'.response_ids ≡ lookup k p.response_ids
    pub other_errors :
        (k : String) → str_eq r k ≡ false → lookup k p'.error_keys ≡ lookup k p.error_keys
    pub other_facts :
        (k : String) → str_eq r k ≡ false → facts_in k p'.contracts ≡ facts_in k p.contracts
    pub other_accounts :
        (k : String) → str_eq r k ≡ false → account_in k p'.contracts ≡ account_in k p.contracts

  contracts_forget : (p : Process F) → ContractsForget (under_contracts (on_run_end r) p).contracts
  unfolding under_contracts on_run_end release_run
  contracts_forget p = told p.contracts
    where
      told :
          (o : Option (Runtime F))
          → ContractsForget (under_contracts (on_run_end r) (record p { contracts = o })).contracts
      told none = tt
      told (some rt) = (forgotten r rt.run_facts, forgotten r rt.enforcer.runs)

  ended_facts :
      (k : String) (p : Process F)
      → str_eq r k ≡ false
      → facts_in k (under_contracts (on_run_end r) p).contracts ≡ facts_in k p.contracts
  unfolding under_contracts on_run_end
  ended_facts k p other = told p.contracts
    where
      told :
          (o : Option (Runtime F))
          → facts_in k (under_contracts (on_run_end r) (record p { contracts = o })).contracts
            ≡ facts_in k o
      told none = refl
      told (some rt) = kept r k rt.run_facts other

  ended_accounts :
      (k : String) (p : Process F)
      → str_eq r k ≡ false
      → account_in k (under_contracts (on_run_end r) p).contracts ≡ account_in k p.contracts
  unfolding under_contracts on_run_end release_run
  ended_accounts k p other = told p.contracts
    where
      told :
          (o : Option (Runtime F))
          → account_in k (under_contracts (on_run_end r) (record p { contracts = o })).contracts
            ≡ account_in k o
      told none = refl
      told (some rt) = kept r k rt.enforcer.runs other

  restored-contracts :
      (token : Option (Option String)) (p : Process F) → (restored token p).contracts ≡ p.contracts
  restored-contracts none p = refl
  restored-contracts (some prior) p = refl

  abbrev counted : ℕ → Process F → Process F
  counted n p = record p { sequence_counters = insert r n p.sequence_counters }

  -- A change of the contracts alone.
  fields-Released :
      (n : ℕ) (p q : Process F)
      → q.sequence_counters ≡ remove r (insert r n p.sequence_counters)
      → q.run_states ≡ remove r p.run_states
      → q.response_ids ≡ remove r p.response_ids
      → q.error_keys ≡ remove r p.error_keys
      → ContractsForget q.contracts
      → ((k : String) → str_eq r k ≡ false → facts_in k q.contracts ≡ facts_in k p.contracts)
      → ((k : String) → str_eq r k ≡ false → account_in k q.contracts ≡ account_in k p.contracts)
      → Released p q
  fields-Released n p q counters states responses errors contract facts accounts = record {
    counter = rw counters (forgotten r (insert r n p.sequence_counters));
    state = rw states (forgotten r p.run_states);
    responses = rw responses (forgotten r p.response_ids);
    errors = rw errors (forgotten r p.error_keys);
    contract = contract;
    other_counters = λ k other. rw counters (kept_insert r k n p.sequence_counters other);
    other_states = λ k other. rw states (kept r k p.run_states other);
    other_responses = λ k other. rw responses (kept r k p.response_ids other);
    other_errors = λ k other. rw errors (kept r k p.error_keys other);
    other_facts = facts;
    other_accounts = accounts;
  }

  ended_in-Released :
      (dumps : Value F → String) (h : Handle F) (n : ℕ) (p : Process F) (before : Store)
      (o : Option Store)
      → (ended_in dumps r h (record (counted n p) { store = before }) o).1.1 ≡ returned
      → Released p (ended_in dumps r h (record (counted n p) { store = before }) o).1.0
  unfolding under_contracts release_run_state
  ended_in-Released dumps h n p before none fine = cc fine
  ended_in-Released dumps h n p before (some s) fine =
      fields-Released n p _ (ground arith) (ground arith) (ground arith) (ground arith)
        (contracts_forget _)
        (λ k other. ended_facts k _ other ∙ ap (facts_in k) (restored-contracts h.token _))
        (λ k other. ended_accounts k _ other ∙ ap (account_in k) (restored-contracts h.token _))

  after_last_event-Released :
      (dumps : Value F → String) (stamp : Stamp) (status : String) (h : Handle F) (n : ℕ)
      (p : Process F) (o : Option Store)
      → (after_last_event dumps stamp r status h (written (counted n p) o)).1.1 ≡ returned
      → Released p (after_last_event dumps stamp r status h (written (counted n p) o)).1.0
  after_last_event-Released dumps stamp status h n p none fine = cc fine
  after_last_event-Released dumps stamp status h n p (some s) fine =
      ended_in-Released dumps h n p s (end_run r stamp.now status s) fine

  -- Once `end` returns for a handle whose run was started and not ended yet, the process holds for the run no
  -- sequence counter, no in-memory state, no seen responses or errors, no facts and no account of the
  -- enforcer, and for every other run each of these is what it was. What policies keep is no part of it.
  pub end_handle-Released :
      (dumps : Value F → String) (stamp : Stamp) (status : String) (message : Option String)
      (h : Handle F) (p : Process F)
      → h.run_id ≡ some r
      → h.ended ≡ false
      → (end_handle dumps stamp status message h p).1.1 ≡ returned
      → Released p (end_handle dumps stamp status message h p).1.0
  unfolding end_handle emit_event next_sequence
  end_handle-Released dumps stamp status message h p run open_ fine =
      elim (Bool-cases (valid_status status)) [
        | inl valid ↦
            rw (open_, run, valid)
              (after_last_event-Released dumps stamp status h _ p _
                (rw (open_, run, valid) at fine))
        | inr invalid ↦ cc (rw (open_, run, invalid) at fine)
      ]
