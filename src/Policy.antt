-- ===== src/Policy.antt =====
-- The observing policies of inkfoot/policy: what `before_call` returns, and sets of run ids.
pub mod BudgetCap
pub mod RetryThrottle
pub mod Registry
pub mod Tools
pub mod LazyToolExposure
pub mod Tests
use ink_foot.Prelude.Int.{ℤ, pos, negsuc, ◌+ℤ◌, ◌-ℤ◌, ◌≤ℤ◌, ltb_ℤ, leb_ℤ}
use ink_foot.Prelude.{
  ℕ, zero, suc, ◌+◌, ◌-◌, ◌*◌, ◌/◌, ◌%◌, ◌≤◌, ◌<◌, String, ◌≡◌, refl, sym, ap, ◌∙◌, ◌≢◌, ◌⊎◌, inl,
  inr, Bool, true, false, not, ◌&&◌, ◌||◌, Option, none, some, List, [], ◌∷◌, ◌++◌, map, arith,
  eq_iff, eq_refl, ltb, leb, ◌==◌, str_eq, if◌then◌else◌, Bool-cases, Option-cases,
}
use ink_foot.Prelude.Lists.{elem}

-- `PolicyDecision.action`
pub data Action : Type 0 where
  allow : Action
  warn : Action
  block : Action

-- `PolicyDecision`, with the numbers of its metadata: a count and its limit.
pub record PolicyDecision : Type 0 where
  pub action : Action
  pub observed : ℤ
  pub limit : ℕ
  pub emit_event_kind : Option String

abbrev pub allowed : PolicyDecision
allowed = record { action = allow; observed = pos 0; limit = 0; emit_event_kind = none }

-- `set.add`
abbrev pub add_member : String → List String → List String
add_member k ks = if elem k ks then ks else k ∷ ks

-- `set.discard`
abbrev pub discard : String → List String → List String
discard k [] = []
discard k (j ∷ js) = let rest = discard k js in if str_eq j k then rest else j ∷ rest

pub elem-discard :
    (j k : String) (ks : List String) → elem j (discard k ks) ≡ not (str_eq k j) && elem j ks
elem-discard j k [] = ground arith
elem-discard j k (i ∷ ks) = ground (arith, eq_iff i k, eq_iff i j, eq_iff k j, elem-discard j k ks)
