-- ===== src/Contracts/Result.antt =====
-- What validation returns: a value, or the check that raised `ContractValidationError`.
use ink_foot.Prelude.{String, Bool, true, false, ◌≡◌, refl, ◌⊎◌, inl, inr}
use mathlib.Core.Path.{subst}

pub data Fault : Type 0 where
  not_mapping not_list : Fault
  unknown_field : Fault
  missing mistyped : String → Fault
  percent_range percent_duplicate unknown_action : Fault
  no_cheap_model bad_tier : Fault

pub data Result (A : Type 0) : Type 0 where
  ok : A → Result A
  err : Fault → Result A

infixl 5 ◌>>=◌ ◌>>◌
unfoldable pub ◌>>=◌ : {A B : Type 0} → Result A → (A → Result B) → Result B
ok a >>= k = k a
err e >>= k = err e

abbrev pub ◌>>◌ : {B : Type 0} → Result (Unit {0}) → Result B → Result B
m >> k = m >>= λ _. k

unfoldable pub require : Bool → Fault → Result (Unit {0})
require true e = ok tt
require false e = err e

-- A successful block succeeded in its first step.
pub >>=-eq-ok :
    {A B : Type 0} (m : Result A) (k : A → Result B) {b : B}
    → (m >>= k) ≡ ok b
    → (a : A) × (m ≡ ok a) × (k a ≡ ok b)
unfolding ◌>>=◌
>>=-eq-ok (ok a) k h = (a, refl, h)
>>=-eq-ok (err e) k h = cc

pub require-eq-ok : (b : Bool) (e : Fault) {u : Unit {0}} → require b e ≡ ok u → b ≡ true
unfolding require
require-eq-ok true e h = refl
require-eq-ok false e h = cc

pub Result-cases :
    {A : Type 0} (r : Result A) → ((a : A) × (r ≡ ok a)) ⊎ ((e : Fault) × (r ≡ err e))
Result-cases (ok a) = inl (a, refl)
Result-cases (err e) = inr (e, refl)

-- `P` holds of the value of a success.
pub record OnOk {A : Type 0} (P : A → Type 0) (r : Result A) : Type 0 where
  pub at : (a : A) → r ≡ ok a → P a

pub OnOk-ok : {A : Type 0} {P : A → Type 0} (a : A) → P a → OnOk P (ok a)
OnOk-ok {P} a h = record { at = λ b e. subst (OnValue P) e h }
  where
    OnValue : {A : Type 0} → (A → Type 0) → Result A → Type 0
    OnValue Q (ok b) = Q b
    OnValue Q (err c) = Unit

pub OnOk-err : {A : Type 0} {P : A → Type 0} (e : Fault) → OnOk P (err e)
OnOk-err e = record { at = λ b h. cc }

-- The rest of a block may use that its first step succeeded.
pub OnOk-bind :
    {A B : Type 0} {P : B → Type 0} (m : Result A) (k : A → Result B)
    → ((a : A) → m ≡ ok a → OnOk P (k a))
    → OnOk P (m >>= k)
unfolding ◌>>=◌
OnOk-bind (ok a) k h = h a refl
OnOk-bind (err e) k h = OnOk-err e

pub OnOk-require :
    {B : Type 0} {P : B → Type 0} (b : Bool) (e : Fault) (k : Result B)
    → (b ≡ true → OnOk P k)
    → OnOk P (require b e >> k)
unfolding require ◌>>=◌
OnOk-require true e k h = h refl
OnOk-require false e k h = OnOk-err e

pub ruleset block_rules = (OnOk-ok, OnOk-err, OnOk-bind, OnOk-require)
