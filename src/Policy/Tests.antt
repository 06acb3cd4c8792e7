-- ===== src/Policy/Tests.antt =====
-- Runs of inkfoot/policy/budget_cap.py and inkfoot/policy/retry_throttle.py, and their theorems there.
use ink_foot.Prelude.Int.{ℤ, pos, ◌+ℤ◌}
use ink_foot.Prelude.{
  ◌≤◌, String, ◌≡◌, refl, inl, inr, true, none, some, List, [], ◌∷◌, str_eq, Bool-cases,
}
use ink_foot.Float.Fixed.{millionths}
use ink_foot.Prelude.Lists.{All}
use ink_foot.Prelude.Dict.{lookup, insert}
use ink_foot.Policy.BudgetCap.{
  BudgetCap, Hook, before, after, warnings, warnings_once, current_total, before_call, after_call,
}
use ink_foot.Policy.RetryThrottle as RetryThrottle
use ink_foot.Policy.RetryThrottle.{
  UpTo, times, window_start, recent, drop_old, le, before_call-UpTo, before_call_refires,
}

abbrev cap : BudgetCap
cap = record { max_nd = 10; totals = []; has_fired = [] }

-- The run "a" passes its budget with its second call, and a call of "b" comes between.
abbrev hooks : List Hook
hooks =
    before "a"
    ∷ after "a" (some (pos 7))
    ∷ before "b"
    ∷ before "a"
    ∷ after "a" (some (pos 4))
    ∷ after "b" none
    ∷ before "a"
    ∷ before "a"
    ∷ []

warns_after_the_breach : warnings "a" cap hooks ≡ 1
unfolding warnings before_call after_call current_total lookup insert ◌+ℤ◌
warns_after_the_breach = refl

warnings_once_example : warnings "a" cap hooks ≤ 1
warnings_once_example = warnings_once "a" cap hooks

-- Three retries, at 1, 2 and 8 seconds, of which two may fall into 10 seconds.
abbrev throttle : RetryThrottle.RetryThrottle ℤ
throttle = record {
  window_s = 10;
  max = 2;
  events = ("a", pos 1000000 ∷ pos 2000000 ∷ []) ∷ [];
  has_fired = "a" ∷ [];
}

throttle-UpTo : (k : String) → UpTo millionths (pos 8000000) (times k throttle)
unfolding UpTo times lookup
throttle-UpTo k = elim (Bool-cases (str_eq "a" k)) [
  | inl e ↦ rw e ((refl, tt), refl, (tt, refl, tt))
  | inr e ↦ rw e tt
]

before_call-UpTo_example :
    ((k : String)
      → UpTo millionths
          (pos 12000000)
          (times k (RetryThrottle.before_call millionths "a" true (pos 12000000) throttle).0))
    × All
        (λ (t : ℤ). le millionths (window_start millionths (pos 12000000) throttle) t ≡ true)
        (times "a" (RetryThrottle.before_call millionths "a" true (pos 12000000) throttle).0)
before_call-UpTo_example =
    before_call-UpTo millionths "a" (pos 8000000) (pos 12000000) throttle refl throttle-UpTo
