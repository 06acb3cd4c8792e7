-- ===== src/Contracts/Enforcer/Session.antt =====
-- A run under a contract whose calls are made one after another: each asks `before_call`, is made unless
-- it is blocked, and is folded back by `record_call` before the next one asks
-- (inkfoot/contracts/enforcer.py, as inkfoot/contracts/runtime.py calls it). The calls of policies, which
-- are charged without being asked about, are none of them.
use ink_foot.Prelude.Int.{ℤ, pos, ◌+ℤ◌, ◌≤ℤ◌, int_laws}
use ink_foot.Prelude.{
  ℕ, ◌+◌, ◌≤◌, ◌<◌, String, ◌≡◌, ap, ◌∙◌, ◌≢◌, inl, inr, Bool, true, false, Option, some, List, [],
  ◌∷◌, arith, eq_refl, if◌then◌else◌, Bool-cases, Option-cases,
}
use ink_foot.Float.{Float}
use ink_foot.Prelude.Dict.{lookup, lookup-insert}
use ink_foot.Value.{Fields}
use ink_foot.Contracts.Schema.{BudgetClause, Contract}
use ink_foot.Contracts.Estimator.{Tokens}
use ink_foot.Contracts.Enforcer.{ContractEnforcer, Decision, blocked, before_call}
use ink_foot.Contracts.Enforcer.Record.{record_call, observe-runs}
use ink_foot.Contracts.Enforcer.Ceiling.{
  spent_in, calls_in, Governs, Governs-same, estimate_in, blocks_at_spend, blocks_at_calls,
}
use ink_foot.Contracts.Enforcer.Accounts.{record_call-contracts}
use ink_foot.Contracts.Enforcer.Isolation.{SameAccounts, before_call-SameAccounts}

-- One call of the agent: what it asks for, and what it turns out to cost.
pub record Request (F : Type 0) : Type 0 where
  pub provider : String
  pub model : String
  pub kwargs : Fields F
  pub cost : ℤ
  pub output_tokens : ℤ

abbrev pub is_blocked : Decision → Bool
is_blocked blocked = true
is_blocked _ = false

not_blocked : (d : Decision) → is_blocked d ≡ false → d ≢ blocked
not_blocked d h e = cc (ap is_blocked e)

module _ (f : Float) (t : Tokens (f.F)) (run_id task : String) (tier : Option String) where
  open f use {F}

  abbrev pub decide : ContractEnforcer F → Request F → ContractEnforcer F × Decision
  decide e r =
      let (e', o) = before_call f t run_id (some task) r.provider r.model r.kwargs tier e in
      (e', o.action)

  abbrev pub settle : ContractEnforcer F → Request F → ContractEnforcer F
  settle e r = record_call f run_id (some r.cost) (some r.output_tokens) (some task) true e

  unfoldable pub attempt : ContractEnforcer F → Request F → ContractEnforcer F
  attempt e r = let (e', d) = decide e r in if is_blocked d then e' else settle e' r

  unfoldable pub attempts : ContractEnforcer F → List (Request F) → ContractEnforcer F
  unfolding attempt
  attempts e [] = e
  attempts e (r ∷ rs) = attempts (attempt e r) rs

  abbrev pub spent : ContractEnforcer F → ℤ
  spent e = spent_in (lookup run_id e.runs)

  abbrev pub calls : ContractEnforcer F → ℕ
  calls e = calls_in (lookup run_id e.runs)

  -- No call costs more than the estimate that was made for it.
  abbrev pub WithinEstimates : ContractEnforcer F → List (Request F) → Type 0
  WithinEstimates e [] = Unit
  WithinEstimates e (r ∷ rs) =
      (r.cost ≤ℤ estimate_in f t run_id task r.provider r.model r.kwargs tier e)
      × WithinEstimates (attempt e r) rs

  -- A number that has not reached the limit.
  abbrev pub Under : ℕ → ℤ → Type 0
  Under n a = ¬ (pos n ≤ℤ a)

  settle_spent :
      (e : ContractEnforcer F) (r : Request F) (n : ℕ)
      → Under n (spent e)
      → Under n (spent e +ℤ r.cost)
      → Under n (spent (settle e r))
  unfolding record_call
  settle_spent e r n h k = elim (Option-cases (lookup run_id e.runs)) [
    | inl untracked ↦ rw (observe-runs f _ _ _, untracked) h
    | inr (s, tracked) ↦
        rw (observe-runs f _ _ _, tracked, lookup-insert, eq_refl) (rw tracked at k)
  ]

  settle_calls :
      (e : ContractEnforcer F) (r : Request F) (n : ℕ) → calls e + 1 < n → calls (settle e r) < n
  unfolding record_call
  settle_calls e r n h = elim (Option-cases (lookup run_id e.runs)) [
    | inl untracked ↦ rw (observe-runs f _ _ _, untracked) (omega arith)
    | inr (s, tracked) ↦
        rw (observe-runs f _ _ _, tracked, lookup-insert, eq_refl) (rw tracked at h)
  ]

  -- A call that is let through under such a contract would stay below the limits.
  allowed_spend :
      (e : ContractEnforcer F) (r : Request F) (c : Contract F) (b : BudgetClause F) (n : ℕ)
      → Governs f e task tier c b
      → b.max_nanodollars ≡ some n
      → 0 < n
      → is_blocked (decide e r).1 ≡ false
      → Under n (spent e +ℤ estimate_in f t run_id task r.provider r.model r.kwargs tier e)
  allowed_spend e r c b n g set p passed reaches =
      not_blocked _ passed
        (blocks_at_spend f t run_id task r.provider r.model r.kwargs tier e c b n g set p reaches)

  attempt-Under :
      (e : ContractEnforcer F) (r : Request F) (c : Contract F) (b : BudgetClause F) (n : ℕ)
      → Governs f e task tier c b
      → b.max_nanodollars ≡ some n
      → 0 < n
      → (r.cost ≤ℤ estimate_in f t run_id task r.provider r.model r.kwargs tier e)
      → Under n (spent e)
      → Under n (spent (attempt e r))
  unfolding attempt
  attempt-Under e r c b n g set p within h =
      let e' : ContractEnforcer F = (decide e r).0 in
      let same : SameAccounts run_id e e' =
        before_call-SameAccounts f t run_id (some task) r.provider r.model r.kwargs tier e in
      let kept : Under n (spent e') = rw (same.spent run_id) h in
      elim (Bool-cases (is_blocked (decide e r).1)) [
        | inl refused ↦ rw refused kept
        | inr passed ↦ rw passed (
            settle_spent e' r n kept
              (rw (same.spent run_id) (omega (int_laws, allowed_spend e r c b n g set p passed))))
      ]

  settle-contracts : (e : ContractEnforcer F) (r : Request F) → (settle e r).contracts ≡ e.contracts
  settle-contracts e r =
      record_call-contracts f run_id (some r.cost) (some r.output_tokens) (some task) true e

  attempt-contracts :
      (e : ContractEnforcer F) (r : Request F) → (attempt e r).contracts ≡ e.contracts
  unfolding attempt
  attempt-contracts e r =
      let same =
        before_call-SameAccounts f t run_id (some task) r.provider r.model r.kwargs tier e in
      elim (Bool-cases (is_blocked (decide e r).1)) [
        | inl refused ↦ rw refused same.contracts
        | inr passed ↦ rw passed (settle-contracts (decide e r).0 r ∙ same.contracts)
      ]

  attempt-Governs :
      (e : ContractEnforcer F) (r : Request F) {c : Contract F} {b : BudgetClause F}
      → Governs f e task tier c b
      → Governs f (attempt e r) task tier c b
  attempt-Governs e r g = Governs-same f (attempt-contracts e r) g

  -- When a run makes its calls one after another, each recorded before the next one is checked, under a
  -- contract whose ladder ends in a block, and no call costs more than its estimate, these calls do not
  -- bring its recorded spend from below the spend limit to the limit, however many they are.
  pub attempts-below_spend :
      (e : ContractEnforcer F) (rs : List (Request F)) (c : Contract F) (b : BudgetClause F) (n : ℕ)
      → Governs f e task tier c b
      → b.max_nanodollars ≡ some n
      → 0 < n
      → WithinEstimates e rs
      → Under n (spent e)
      → Under n (spent (attempts e rs))
  unfolding attempts
  attempts-below_spend e [] c b n g set p within h = h
  attempts-below_spend e (r ∷ rs) c b n g set p within h =
      attempts-below_spend (attempt e r) rs c b n (attempt-Governs e r g) set p within.1
        (attempt-Under e r c b n g set p within.0 h)

  attempt-calls :
      (e : ContractEnforcer F) (r : Request F) (c : Contract F) (b : BudgetClause F) (n : ℕ)
      → Governs f e task tier c b
      → b.max_llm_calls ≡ some n
      → 0 < n
      → calls e < n
      → calls (attempt e r) < n
  unfolding attempt
  attempt-calls e r c b n g set p h =
      let e' : ContractEnforcer F = (decide e r).0 in
      let same : SameAccounts run_id e e' =
        before_call-SameAccounts f t run_id (some task) r.provider r.model r.kwargs tier e in
      let room = λ (passed : is_blocked (decide e r).1 ≡ false) (reaches : n ≤ calls e + 1).
        not_blocked _ passed (
          blocks_at_calls f t run_id task r.provider r.model r.kwargs tier e c b n g set p
            reaches) in
      elim (Bool-cases (is_blocked (decide e r).1)) [
        | inl refused ↦ rw refused (rw (same.calls run_id) h)
        | inr passed ↦
            rw passed (settle_calls e' r n (rw (same.calls run_id) (lt_of_not (room passed))))
      ]
    where
      lt_of_not : {a : ℕ} → ¬ (n ≤ a) → a < n
      lt_of_not h = omega arith

  -- However many calls a run makes under such a contract one after another, fewer than `max_llm_calls`
  -- go through.
  pub attempts-below_calls :
      (e : ContractEnforcer F) (rs : List (Request F)) (c : Contract F) (b : BudgetClause F) (n : ℕ)
      → Governs f e task tier c b
      → b.max_llm_calls ≡ some n
      → 0 < n
      → calls e < n
      → calls (attempts e rs) < n
  unfolding attempts
  attempts-below_calls e [] c b n g set p h = h
  attempts-below_calls e (r ∷ rs) c b n g set p h =
      attempts-below_calls (attempt e r) rs c b n (attempt-Governs e r g) set p
        (attempt-calls e r c b n g set p h)
