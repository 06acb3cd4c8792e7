-- ===== src/Policy/Registry/Dispatch.antt =====
-- The hooks that the registry of inkfoot/policy/registry.py dispatches to. A hook changes the state that
-- policies and the call's context share, and may raise, which `safely_run` absorbs.
use ink_foot.Prelude.{◌≡◌, refl, Option, none, some, List, [], ◌∷◌}
use ink_foot.Policy.Registry.{PolicyObject, PolicyRegistry}

-- `D` is `PolicyDecision`, and `none` is a hook that raises.
abbrev pub decided : {D : Type 0} → D → Option D → D
decided allowed none = allowed
decided allowed (some d) = d

module _ {S D : Type 0} (allowed : D) where
  abbrev pub before_loop : (PolicyObject → S → S × Option D) → List PolicyObject → S → S × List D
  before_loop hook [] s = (s, [])
  before_loop hook (p ∷ ps) s =
      let (s', o) = hook p s in
      let (end, ds) = before_loop hook ps s' in (end, decided allowed o ∷ ds)

  -- `_Registry.before_call`
  abbrev pub dispatch_before : (PolicyObject → S → S × Option D) → PolicyRegistry → S → S × List D
  dispatch_before hook r s = before_loop hook r.policies s

  -- A raising hook stands for one that allows: neither the state nor the decisions tell them apart.
  pub before_loop_isolated :
      (hook quiet : PolicyObject → S → S × Option D) (ps : List PolicyObject) (s : S)
      → ((p : PolicyObject) (s : S)
          → ((quiet p s).0 ≡ (hook p s).0) × ((quiet p s).1 ≡ some (decided allowed (hook p s).1)))
      → before_loop quiet ps s ≡ before_loop hook ps s
  before_loop_isolated hook quiet [] s alike = refl
  before_loop_isolated hook quiet (p ∷ ps) s alike =
      let (state, decision) = alike p s in
      rw (state, decision, before_loop_isolated hook quiet ps (hook p s).0 alike) refl

module _ {S : Type 0} where
  -- `_Registry.after_call`
  abbrev pub after_loop : (PolicyObject → S → S) → List PolicyObject → S → S
  after_loop hook [] s = s
  after_loop hook (p ∷ ps) s = after_loop hook ps (hook p s)

  abbrev pub dispatch_after : (PolicyObject → S → S) → PolicyRegistry → S → S
  dispatch_after hook r s = after_loop hook r.policies s
