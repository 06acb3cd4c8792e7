-- ===== src/Policy/Registry/Tests.antt =====
-- Registrations of inkfoot/policy/__init__.py, and the theorem on them.
use ink_foot.Prelude.{ℕ, String, ◌≡◌, refl, none, some, [], ◌∷◌}
use ink_foot.Policy.Registry.{
  Pattern, PolicyObject, PolicyRegistry, registered, not_supported, registry_of, register_policies,
  IsValid,
}
use ink_foot.Policy.Registry.Usable.{Told, register_policies-IsValid}

abbrev observing : ℕ → String → PolicyObject
observing i name = record {
  identity = i;
  class_name = name;
  supported_patterns = Pattern.a ∷ Pattern.b ∷ Pattern.c ∷ [];
}

abbrev budget_cap : PolicyObject
budget_cap = observing 1 "BudgetCap"

abbrev lazy_tools : PolicyObject
lazy_tools = record {
  identity = 2;
  class_name = "LazyToolExposure";
  supported_patterns = Pattern.c ∷ [];
}

abbrev no_policies : PolicyRegistry
no_policies = record { policies = []; ids = [] }

-- A rewriting policy is refused under the SDK shim, after the one before it was registered.
refuses_under_the_shim :
    register_policies (budget_cap ∷ lazy_tools ∷ []) Pattern.a none none no_policies
    ≡ not_supported lazy_tools (record { policies = budget_cap ∷ []; ids = 1 ∷ [] })
unfolding register_policies
refuses_under_the_shim = refl

-- An active adapter that lists it accepts it, and the same object is registered once.
accepts_under_an_adapter :
    register_policies
      (budget_cap ∷ lazy_tools ∷ budget_cap ∷ [])
      Pattern.a
      none
      (some ("LazyToolExposure" ∷ []))
      no_policies
    ≡ registered (record { policies = budget_cap ∷ lazy_tools ∷ []; ids = 2 ∷ 1 ∷ [] })
unfolding register_policies
accepts_under_an_adapter = refl

register_policies-IsValid_example :
    IsValid none Pattern.a (
      registry_of
        (register_policies (budget_cap ∷ lazy_tools ∷ []) Pattern.a none none no_policies))
    × Told none Pattern.a
        (budget_cap ∷ lazy_tools ∷ [])
        (register_policies (budget_cap ∷ lazy_tools ∷ []) Pattern.a none none no_policies)
register_policies-IsValid_example =
    register_policies-IsValid (budget_cap ∷ lazy_tools ∷ []) Pattern.a none none no_policies
      (record { usable = tt; distinct = tt; known = tt })
