-- ===== src/Policy/Registry.antt =====
-- `register_policies` of inkfoot/policy/__init__.py with its two capability checks, and the registry of
-- inkfoot/policy/registry.py. An exception is the second constructor of `Registration`.
pub mod Usable
pub mod Dispatch
mod Tests
use ink_foot.Prelude.Int.{ℤ, pos, negsuc, ◌+ℤ◌, ◌-ℤ◌, ◌≤ℤ◌, ltb_ℤ, leb_ℤ}
use ink_foot.Prelude.{
  ℕ, zero, suc, ◌+◌, ◌-◌, ◌*◌, ◌/◌, ◌%◌, ◌≤◌, ◌<◌, String, ◌≡◌, refl, sym, ap, ◌∙◌, ◌≢◌, ◌⊎◌, inl,
  inr, Bool, true, false, not, ◌&&◌, ◌||◌, Option, none, some, List, [], ◌∷◌, ◌++◌, map, arith,
  eq_iff, eq_refl, ltb, leb, ◌==◌, str_eq, if◌then◌else◌, Bool-cases, Option-cases,
}
use ink_foot.Prelude.Lists.{All, elem}

-- `IntegrationPattern`
pub data Pattern : Type 0 where
  a b c : Pattern

abbrev pub eq_pattern : Pattern → Pattern → Bool
eq_pattern Pattern.a Pattern.a = true
eq_pattern Pattern.b Pattern.b = true
eq_pattern Pattern.c Pattern.c = true
eq_pattern _ _ = false

abbrev pub includes : Pattern → List Pattern → Bool
includes p [] = false
includes p (q ∷ qs) = eq_pattern q p || includes p qs

-- A policy object: its identity, its class and the class's `SUPPORTED_PATTERNS`.
pub record PolicyObject : Type 0 where
  pub identity : ℕ
  pub class_name : String
  pub supported_patterns : List Pattern

-- `_Registry`
pub record PolicyRegistry : Type 0 where
  pub policies : List PolicyObject
  pub ids : List ℕ

abbrev pub has_id : ℕ → List ℕ → Bool
has_id i [] = false
has_id i (j ∷ js) = j == i || has_id i js

-- `add`, and `clear`
unfoldable pub add : PolicyObject → PolicyRegistry → PolicyRegistry
add p r =
    if has_id p.identity r.ids
    then r
    else record { policies = r.policies ++ p ∷ []; ids = p.identity ∷ r.ids }

abbrev pub clear : PolicyRegistry → PolicyRegistry
clear r = record { policies = []; ids = [] }

-- The test of `_check_supports`
abbrev pub supports : Pattern → PolicyObject → Bool
supports active p = includes active p.supported_patterns

-- `SUPPORTED_PATTERNS == {A, B, C}`
abbrev pub supports_all : PolicyObject → Bool
supports_all p = supports Pattern.a p && supports Pattern.b p && supports Pattern.c p

-- The test of `_check_adapter_supports`, with the classes of the adapter's `supported_policies()`
abbrev pub adapter_supports : List String → PolicyObject → Bool
adapter_supports classes p = elem p.class_name classes || supports_all p

-- An adapter, given or active, wins over the pattern.
abbrev pub chosen : Option (List String) → Option (List String) → Option (List String)
chosen none active = active
chosen (some given) active = some given

unfoldable pub is_supported : Option (List String) → Pattern → PolicyObject → Bool
is_supported none active p = supports active p
is_supported (some classes) active p = adapter_supports classes p

-- The registry afterwards, and whether every policy was accepted or `PolicyNotSupported` was raised.
pub data Registration : Type 0 where
  registered : PolicyRegistry → Registration
  not_supported : PolicyObject → PolicyRegistry → Registration

abbrev pub registry_of : Registration → PolicyRegistry
registry_of (registered r) = r
registry_of (not_supported p r) = r

-- The loop of `register_policies`: what comes before a refused policy stays registered.
unfoldable pub register_loop :
    Option (List String) → Pattern → List PolicyObject → PolicyRegistry → Registration
unfolding is_supported add
register_loop adapter active [] r = registered r
register_loop adapter active (p ∷ ps) r =
    let rest = register_loop adapter active ps (add p r) in
    if is_supported adapter active p then rest else not_supported p r

unfoldable pub register_policies :
    List PolicyObject
    → Pattern
    → Option (List String)
    → Option (List String)
    → PolicyRegistry
    → Registration
unfolding register_loop
register_policies ps active adapter active_adapter r =
    register_loop (chosen adapter active_adapter) active ps r

-- No identity twice.
abbrev pub Distinct : List PolicyObject → Type 0
Distinct [] = Unit
Distinct (p ∷ ps) = All (λ q. p.identity ≢ q.identity) ps × Distinct ps

-- Every policy may be used, none is there twice, and the ids are theirs.
pub record IsValid (adapter : Option (List String)) (active : Pattern) (r : PolicyRegistry)
    : Type 0 where
  pub usable : All (λ p. is_supported adapter active p ≡ true) r.policies
  pub distinct : Distinct r.policies
  pub known : All (λ p. has_id p.identity r.ids ≡ true) r.policies
