-- ===== src/Contracts/Runtime/CallLimit.antt =====
-- The hooks of inkfoot/contracts/runtime.py keep the call limit of a run's contract in a process where
-- the starts, ends and calls of other runs, and the calls of policies, come between its own.
use ink_foot.Contracts.Runtime.Counting.{happen-Kept, happen-calls}
use ink_foot.Contracts.Runtime.BeforeCall.{enforced}
use ink_foot.Prelude.{
  ◌+◌, ◌<◌, ◌≤◌, ◌≡◌, refl, sym, ap, ◌∙◌, ℕ, Bool, true, false, not, ◌&&◌, String, Option, none,
  some, List, [], ◌∷◌, arith, eq_iff, eq_refl, str_eq, if◌then◌else◌,
}
use ink_foot.Float.{Float}
use ink_foot.Value.{Value, Fields}
use ink_foot.Storage.{Store, Event}
use ink_foot.Prelude.Dict.{lookup, lookup-insert}
use ink_foot.Contracts.Schema.{Contract, BudgetClause}
use ink_foot.Contracts.Estimator.{Tokens}
use ink_foot.Contracts.Runtime.{
  proceeds, Runtime, CallContext, has_contract, tier_from_metadata, on_run_start,
  enforce_before_call, enforce_known,
}
use ink_foot.Contracts.Runtime.Process.{
  Happening, started, ended, called, happen, makes, made, WithinRun, AllWithin, goes_through,
  is_recorded,
}
use ink_foot.Contracts.Enforcer.{ContractViolation, register_run}
use ink_foot.Contracts.Enforcer.Ceiling.{Governs, Governs-same, blocks_at_calls}
use ink_foot.Contracts.Runtime.Quiet.{Tracks, calls_of, facts_for_run-known}

module _ (f : Float) (t : Tokens (f.F)) (loads : String → Option (Value (f.F)))
    (event_of : String → ContractViolation (f.F) → Store → Event) (run_id : String) where
  open f use {F}

  module _ (task : String) (tier : Option String) (c : Contract F) (b : BudgetClause F)
      (n : ℕ) where
    -- The run is known with its task and tier, tracked, and below the contract's limit of `n` calls.
    record Bound (rt : Runtime F) : Type 0 where
      facts : lookup run_id rt.run_facts ≡ some (some task, tier)
      governs : Governs f rt.enforcer task tier c b
      tracked : Tracks run_id rt.enforcer
      below : calls_of run_id rt.enforcer < n

    blocked_or_room :
        (ctx : CallContext F) (rt : Runtime F)
        → Governs f rt.enforcer task tier c b
        → b.max_llm_calls ≡ some n
        → 0 < n
        → ctx.run_id ≡ run_id
        → goes_through (enforce_known f t loads event_of ctx (some task, tier) rt).1 ≡ true
        → calls_of run_id rt.enforcer + 1 < n
    unfolding has_contract
    blocked_or_room ctx rt g set p run passes = lt_of_not λ full. cc (refused full, passes)
      where
        refused :
            n ≤ calls_of run_id rt.enforcer + 1
            → goes_through (enforce_known f t loads event_of ctx (some task, tier) rt).1 ≡ false
        refused full =
            rw
              (
                g.found,
                blocks_at_calls f t ctx.run_id task ctx.provider ctx.model ctx.request_kwargs tier
                    rt.enforcer c b n g set p (rw run full),
              )
              refl

        lt_of_not : {a : ℕ} → ¬ (n ≤ a) → a < n
        lt_of_not h = omega arith

    own_call :
        (ctx : CallContext F) (rt : Runtime F)
        → lookup run_id rt.run_facts ≡ some (some task, tier)
        → ctx.run_id ≡ run_id
        → ctx.is_helper ≡ false
        → enforced f t loads event_of run_id ctx rt
          ≡ enforce_known f t loads event_of ctx (some task, tier) rt
    unfolding enforce_before_call
    own_call ctx rt facts run own =
        pick (rt, proceeds ctx) _ ctx.is_helper own
        ∙ ap (λ known. enforce_known f t loads event_of ctx known.0 known.1)
            (facts_for_run-known ctx.run_id loads rt {facts = (some task, tier)} (rw run facts))
      where
        pick :
            {A : Type 0} (a d : A) (helper : Bool) → helper ≡ false → (if helper then a else d) ≡ d
        pick a d helper h = rw h refl

    both : (x y z : Bool) → x && not y && z ≡ true → (x ≡ true) × (y ≡ false)
    both x y z h = ground arith

    makes_room :
        (h : Happening F) (rt : Runtime F)
        → Bound rt
        → b.max_llm_calls ≡ some n
        → 0 < n
        → makes f t loads event_of run_id h rt + calls_of run_id rt.enforcer < n
    makes_room (started r task metadata) rt bound set p = omega (arith, bound.below)
    makes_room (ended r) rt bound set p = omega (arith, bound.below)
    makes_room (called ctx actuals) rt bound set p =
        counted (str_eq ctx.run_id run_id && not ctx.is_helper && is_recorded actuals)
          (goes_through (enforced f t loads event_of run_id ctx rt).1)
          (λ own passes.
            let (same, not_helper) =
              both (str_eq ctx.run_id run_id) ctx.is_helper (is_recorded actuals) own in
            let run : ctx.run_id ≡ run_id = (eq_iff ctx.run_id run_id).0 same in
            blocked_or_room ctx rt bound.governs set p run (
              ap (λ d. goes_through d.1) (sym (own_call ctx rt bound.facts run not_helper))
              ∙ passes))
      where
        counted :
            (x y : Bool)
            → (x ≡ true → y ≡ true → calls_of run_id rt.enforcer + 1 < n)
            → (if x then if y then 1 else 0 else 0) + calls_of run_id rt.enforcer < n
        counted true true room = omega (arith, room refl refl)
        counted true false room = omega (arith, bound.below)
        counted false y room = omega (arith, bound.below)

    happen-Bound :
        (h : Happening F) (rt : Runtime F)
        → Bound rt
        → WithinRun run_id h
        → b.max_llm_calls ≡ some n
        → 0 < n
        → Bound (happen f t loads event_of h rt)
    happen-Bound h rt bound within set p =
        let kept = happen-Kept f t loads event_of run_id h rt within in
        record {
          facts = kept.facts (some task, tier) bound.facts;
          governs = Governs-same f kept.contracts bound.governs;
          tracked = kept.tracked bound.tracked;
          below =
              rw (happen-calls f t loads event_of run_id h rt within bound.tracked)
                (makes_room h rt bound set p);
        }

    made-below :
        (hs : List (Happening F)) (rt : Runtime F)
        → Bound rt
        → AllWithin run_id hs
        → b.max_llm_calls ≡ some n
        → 0 < n
        → made f t loads event_of run_id hs rt + calls_of run_id rt.enforcer < n
    unfolding made
    made-below [] rt bound within set p = omega (arith, bound.below)
    made-below (h ∷ hs) rt bound (here, rest) set p = omega (
      arith,
      happen-calls f t loads event_of run_id h rt here bound.tracked,
      made-below hs (happen f t loads event_of h rt) (happen-Bound h rt bound here set p) rest set
          p,
    )

  on_run_start-Bound :
      (task : String) (metadata : Option (Fields F)) (rt : Runtime F) (c : Contract F)
      (b : BudgetClause F) (n : ℕ)
      → Governs f rt.enforcer task (tier_from_metadata metadata) c b
      → 0 < n
      → lookup run_id rt.enforcer.runs ≡ none
      → Bound task (tier_from_metadata metadata) c b n (on_run_start run_id (some task) metadata rt)
  unfolding on_run_start has_contract register_run
  on_run_start-Bound task metadata rt c b n g p fresh =
      rw (g.found, fresh, register_run)
        (record {
          facts = rw (lookup-insert, eq_refl) refl;
          governs = Governs-same f refl g;
          tracked = rw (lookup-insert, eq_refl) refl;
          below = rw (lookup-insert, eq_refl) p;
        })

  -- Where a run that the enforcer has nothing on record for starts on a task whose contract, at the
  -- run's tier, limits it to `n` calls and ends its ladder in a block, and no call is checked while another is
  -- under way, fewer than `n` requests of the run are made and recorded until it ends or is started
  -- again. What else happens in between does not matter: other runs and their calls, requests of the run
  -- that go out and are not recorded, and the calls that policies make for it. Neither of the latter two is
  -- counted or limited.
  pub made-below_limit :
      (task : String) (metadata : Option (Fields F)) (rt : Runtime F) (hs : List (Happening F))
      (c : Contract F) (b : BudgetClause F) (n : ℕ)
      → Governs f rt.enforcer task (tier_from_metadata metadata) c b
      → b.max_llm_calls ≡ some n
      → 0 < n
      → lookup run_id rt.enforcer.runs ≡ none
      → AllWithin run_id hs
      → made f t loads event_of run_id hs (on_run_start run_id (some task) metadata rt) < n
  made-below_limit task metadata rt hs c b n g set p fresh within = omega (
    arith,
    made-below task (tier_from_metadata metadata) c b n hs
        (on_run_start run_id (some task) metadata rt)
        (on_run_start-Bound task metadata rt c b n g p fresh) within set p,
  )
