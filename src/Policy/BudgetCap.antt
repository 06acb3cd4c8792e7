-- ===== src/Policy/BudgetCap.antt =====
-- `BudgetCap` of inkfoot/policy/budget_cap.py. The lock makes each hook one step.
use ink_foot.Prelude.Int.{+ℤ_zero, +ℤ_assoc, ℤ, pos, negsuc, ◌+ℤ◌, ltb_ℤ}
use ink_foot.Prelude.{
  ℕ, ◌+◌, ◌≤◌, String, ◌≡◌, refl, sym, ap, ◌∙◌, inl, inr, Bool, true, false, not, ◌&&◌, Option,
  none, some, List, [], ◌∷◌, arith, eq_iff, str_eq, if◌then◌else◌, Bool-cases,
}
use ink_foot.Prelude.Dict.{Dict, lookup, insert, lookup-insert}
use ink_foot.Policy.{PolicyDecision, Action, warn, allowed, elem}

pub record BudgetCap : Type 0 where
  pub max_nd : ℕ
  pub totals : Dict ℤ
  pub has_fired : List String

-- `BudgetCap.__init__` for an int that is not negative; its two exceptions are `none`.
abbrev pub budget_cap : ℤ → Option BudgetCap
budget_cap (pos n) = some (record { max_nd = n; totals = []; has_fired = [] })
budget_cap (negsuc n) = none

abbrev pub or_zero_nd : Option ℤ → ℤ
or_zero_nd none = pos 0
or_zero_nd (some n) = n

-- `current_total`
unfoldable pub current_total : String → BudgetCap → ℤ
unfolding lookup
current_total run_id p = or_zero_nd (lookup run_id p.totals)

-- The warning of `before_call`, once per run, or no decision.
abbrev pub warn_if : Bool → String → BudgetCap → BudgetCap × PolicyDecision
warn_if true run_id p = (
  record p { has_fired = run_id ∷ p.has_fired },
  record {
    action = warn;
    observed = current_total run_id p;
    limit = p.max_nd;
    emit_event_kind = some "budget_warning";
  },
)
warn_if false run_id p = (p, allowed)

-- `before_call`
unfoldable pub before_call : String → BudgetCap → BudgetCap × PolicyDecision
before_call run_id p =
    warn_if (ltb_ℤ (pos p.max_nd) (current_total run_id p) && not (elem run_id p.has_fired)) run_id
      p

-- `after_call`, with the cost that the shim estimated
unfoldable pub after_call : String → Option ℤ → BudgetCap → BudgetCap
unfolding current_total insert
after_call run_id cost p = record p {
  totals = insert run_id (current_total run_id p +ℤ or_zero_nd cost) p.totals;
}

-- `reset`
abbrev pub reset : BudgetCap → BudgetCap
reset p = record p { totals = []; has_fired = [] }

-- The hooks that the calls of a process run, in their order.
pub data Hook : Type 0 where
  before : String → Hook
  after : String → Option ℤ → Hook

-- How often a run is warned of.
abbrev pub is_warning : Action → ℕ
is_warning warn = 1
is_warning _ = 0

unfoldable pub warnings : String → BudgetCap → List Hook → ℕ
unfolding before_call after_call
warnings k p [] = 0
warnings k p (before j ∷ hs) =
    (if str_eq j k then is_warning (before_call j p).1.action else 0)
    + warnings k (before_call j p).0 hs
warnings k p (after j cost ∷ hs) = warnings k (after_call j cost p) hs

unfoldable pub after_hooks : BudgetCap → List Hook → BudgetCap
after_hooks p [] = p
after_hooks p (before j ∷ hs) = after_hooks (before_call j p).0 hs
after_hooks p (after j cost ∷ hs) = after_hooks (after_call j cost p) hs

-- How many warnings a run may still have.
abbrev left : String → BudgetCap → ℕ
left k p = if elem k p.has_fired then 0 else 1

warn_if-left :
    (b : Bool) (j k : String) (p : BudgetCap)
    → (b ≡ true → elem j p.has_fired ≡ false)
    → (if str_eq j k then is_warning (warn_if b j p).1.action else 0) + left k (warn_if b j p).0
      ≤ left k p
warn_if-left true j k p h = elim (Bool-cases (str_eq j k)) [
  | inl e ↦ rw (e, ap (λ i. elem i p.has_fired) (sym ((eq_iff j k).0 e)), h refl) (omega arith)
  | inr e ↦ rw e (omega arith)
]
warn_if-left false j k p h = ground arith

only_new : (a b : Bool) → a && not b ≡ true → b ≡ false
only_new a true h = ground arith
only_new a false h = refl

before_call-left :
    (j k : String) (p : BudgetCap)
    → (if str_eq j k then is_warning (before_call j p).1.action else 0) + left k (before_call j p).0
      ≤ left k p
unfolding before_call
before_call-left j k p =
    warn_if-left (ltb_ℤ (pos p.max_nd) (current_total j p) && not (elem j p.has_fired)) j k p
      (only_new (ltb_ℤ (pos p.max_nd) (current_total j p)) (elem j p.has_fired))

warnings-left : (k : String) (p : BudgetCap) (hs : List Hook) → warnings k p hs ≤ left k p
unfolding warnings after_call
warnings-left k p [] = ground arith
warnings-left k p (before j ∷ hs) =
    omega (arith, before_call-left j k p, warnings-left k (before_call j p).0 hs)
warnings-left k p (after j cost ∷ hs) = warnings-left k (after_call j cost p) hs

-- Whatever the order of the hooks of all runs, a run is warned of at most once.
pub warnings_once : (k : String) (p : BudgetCap) (hs : List Hook) → warnings k p hs ≤ 1
warnings_once k p hs = ground (arith, warnings-left k p hs)

-- What the run's calls cost, as the shim reported it.
unfoldable pub reported : String → List Hook → ℤ
reported k [] = pos 0
reported k (before j ∷ hs) = reported k hs
reported k (after j cost ∷ hs) = (if str_eq j k then or_zero_nd cost else pos 0) +ℤ reported k hs

current_total-warn_if :
    (b : Bool) (j k : String) (p : BudgetCap)
    → current_total k (warn_if b j p).0 ≡ current_total k p
unfolding current_total
current_total-warn_if true j k p = refl
current_total-warn_if false j k p = refl

current_total-before_call :
    (j k : String) (p : BudgetCap) → current_total k (before_call j p).0 ≡ current_total k p
unfolding before_call
current_total-before_call j k p =
    current_total-warn_if (ltb_ℤ (pos p.max_nd) (current_total j p) && not (elem j p.has_fired)) j k
      p

current_total-after_call :
    (j k : String) (cost : Option ℤ) (p : BudgetCap)
    → current_total k (after_call j cost p)
      ≡ current_total k p +ℤ (if str_eq j k then or_zero_nd cost else pos 0)
unfolding current_total after_call
current_total-after_call j k cost p = elim (Bool-cases (str_eq j k)) [
  | inl e ↦
      ap or_zero_nd (lookup-insert k j (current_total j p +ℤ or_zero_nd cost) p.totals)
      ∙ rw (e, (eq_iff j k).0 e) refl
  | inr e ↦
      ap or_zero_nd (lookup-insert k j (current_total j p +ℤ or_zero_nd cost) p.totals)
      ∙ rw e (sym (+ℤ_zero (or_zero_nd (lookup k p.totals))))
]

-- A run's total is what was reported of its calls, in whatever order the hooks of all runs came.
pub current_total-after_hooks :
    (k : String) (p : BudgetCap) (hs : List Hook)
    → current_total k (after_hooks p hs) ≡ current_total k p +ℤ reported k hs
unfolding after_hooks reported
current_total-after_hooks k p [] = sym (+ℤ_zero (current_total k p))
current_total-after_hooks k p (before j ∷ hs) =
    current_total-after_hooks k (before_call j p).0 hs
    ∙ ap (λ n. n +ℤ reported k hs) (current_total-before_call j k p)
current_total-after_hooks k p (after j cost ∷ hs) =
    current_total-after_hooks k (after_call j cost p) hs
    ∙ ap (λ n. n +ℤ reported k hs) (current_total-after_call j k cost p)
    ∙ +ℤ_assoc (current_total k p) (if str_eq j k then or_zero_nd cost else pos 0) (reported k hs)
