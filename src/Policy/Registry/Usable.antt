-- ===== src/Policy/Registry/Usable.antt =====
-- What `register_policies` leaves in the registry, whether it raises or not.
use ink_foot.Prelude.{
  ℕ, String, ◌≡◌, ap, ◌≢◌, inl, inr, true, false, Option, List, [], ◌∷◌, ◌++◌, arith, Bool-cases,
}
use ink_foot.Prelude.Lists.{All}
use ink_foot.Policy.Registry.{
  Pattern, PolicyObject, PolicyRegistry, Registration, registered, not_supported, registry_of,
  has_id, add, is_supported, register_loop, register_policies, chosen, Distinct, IsValid,
}

All-append {ℓ κ} :
    {A : Type ℓ} (P : A → Type κ) (xs ys : List A) → All P xs → All P ys → All P (xs ++ ys)
All-append P [] ys hx hy = hy
All-append P (x ∷ xs) ys hx hy = (hx.0, All-append P xs ys hx.1 hy)

All-map {ℓ κ μ} :
    {A : Type ℓ} (P : A → Type κ) (Q : A → Type μ)
    → ((x : A) → P x → Q x)
    → (xs : List A) → All P xs
    → All Q xs
All-map P Q f [] h = tt
All-map P Q f (x ∷ xs) h = (f x h.0, All-map P Q f xs h.1)

Distinct-snoc :
    (ps : List PolicyObject) (p : PolicyObject)
    → Distinct ps
    → All (λ q. q.identity ≢ p.identity) ps
    → Distinct (ps ++ p ∷ [])
Distinct-snoc [] p d h = (tt, tt)
Distinct-snoc (q ∷ ps) p d h = (
  All-append (λ o. q.identity ≢ o.identity) ps (p ∷ []) d.0 (h.0, tt),
  Distinct-snoc ps p d.1 h.1,
)

-- A known identity is not a new one.
known_differs :
    (i : ℕ) (ids : List ℕ) (q : PolicyObject)
    → has_id i ids ≡ false
    → has_id q.identity ids ≡ true
    → q.identity ≢ i
known_differs i ids q new known e = ground (arith, ap (λ j. has_id j ids) e)

module _ (adapter : Option (List String)) (active : Pattern) where
  add-IsValid :
      (p : PolicyObject) (r : PolicyRegistry)
      → is_supported adapter active p ≡ true
      → IsValid adapter active r
      → IsValid adapter active (add p r)
  unfolding add
  add-IsValid p r ok h = elim (Bool-cases (has_id p.identity r.ids)) [
    | inl old ↦ rw old h
    | inr new ↦ rw new (record {
      usable =
          All-append (λ q. is_supported adapter active q ≡ true) r.policies (p ∷ []) h.usable
            (ok, tt);
      distinct =
          Distinct-snoc r.policies p h.distinct
            (All-map _ _ (λ q. known_differs p.identity r.ids q new) r.policies h.known);
      known =
          All-append (λ q. has_id q.identity (p.identity ∷ r.ids) ≡ true) r.policies (p ∷ [])
            (All-map (λ q. has_id q.identity r.ids ≡ true)
              (λ q. has_id q.identity (p.identity ∷ r.ids) ≡ true) (λ q k. ground arith) r.policies
              h.known)
            (ground arith, tt);
    })
  ]

  has_id-add :
      (i : ℕ) (p : PolicyObject) (r : PolicyRegistry)
      → has_id i r.ids ≡ true
      → has_id i (add p r).ids ≡ true
  unfolding add
  has_id-add i p r h = ground arith

  added : (p : PolicyObject) (r : PolicyRegistry) → has_id p.identity (add p r).ids ≡ true
  unfolding add
  added p r = ground arith

  -- An acceptance means that every policy may be used and is registered; a refusal names one that may not.
  unfoldable pub Told : List PolicyObject → Registration → Type 0
  Told ps (registered r) =
      All (λ p. (is_supported adapter active p ≡ true) × (has_id p.identity r.ids ≡ true)) ps
  Told ps (not_supported p r) = is_supported adapter active p ≡ false

  Told-cons :
      (p : PolicyObject) (ps : List PolicyObject) (out : Registration)
      → is_supported adapter active p ≡ true
      → has_id p.identity (registry_of out).ids ≡ true
      → Told ps out
      → Told (p ∷ ps) out
  unfolding Told
  Told-cons p ps (registered r) ok there h = ((ok, there), h)
  Told-cons p ps (not_supported q r) ok there h = h

  has_id-register_loop :
      (i : ℕ) (ps : List PolicyObject) (r : PolicyRegistry)
      → has_id i r.ids ≡ true
      → has_id i (registry_of (register_loop adapter active ps r)).ids ≡ true
  unfolding register_loop
  has_id-register_loop i [] r h = h
  has_id-register_loop i (p ∷ ps) r h = elim (Bool-cases (is_supported adapter active p)) [
    | inl ok ↦ rw ok (has_id-register_loop i ps (add p r) (has_id-add i p r h))
    | inr refused ↦ rw refused h
  ]

  register_loop-IsValid :
      (ps : List PolicyObject) (r : PolicyRegistry)
      → IsValid adapter active r
      → IsValid adapter active (registry_of (register_loop adapter active ps r))
        × Told ps (register_loop adapter active ps r)
  unfolding register_loop Told
  register_loop-IsValid [] r h = (h, tt)
  register_loop-IsValid (p ∷ ps) r h = elim (Bool-cases (is_supported adapter active p)) [
    | inl ok ↦
        let rest = register_loop-IsValid ps (add p r) (add-IsValid p r ok h) in
        rw ok (
          rest.0,
          Told-cons p ps (register_loop adapter active ps (add p r)) ok
              (has_id-register_loop p.identity ps (add p r) (added p r)) rest.1,
        )
    | inr refused ↦ rw refused (h, refused)
  ]

-- A registry in which every policy may be used under the active integration, none is there twice and
-- the ids are those of its policies stays so, whether all policies are accepted or one is refused; an
-- acceptance means that all of them may be used and are registered, and a refusal names one that may not.
pub register_policies-IsValid :
    (ps : List PolicyObject) (active : Pattern) (adapter active_adapter : Option (List String))
    (r : PolicyRegistry)
    → IsValid (chosen adapter active_adapter) active r
    → IsValid
        (chosen adapter active_adapter)
        active
        (registry_of (register_policies ps active adapter active_adapter r))
      × Told
          (chosen adapter active_adapter)
          active
          ps
          (register_policies ps active adapter active_adapter r)
unfolding register_policies
register_policies-IsValid ps active adapter active_adapter r h =
    register_loop-IsValid (chosen adapter active_adapter) active ps r h
