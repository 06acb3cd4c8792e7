-- ===== src/Value/Truth.antt =====
-- Python's tests and loops on the values of a document: `bool(v)`, `isinstance`, `for x in v or []`,
-- and a list as the model's sequence.
use ink_foot.Prelude.Int.{pos}
use ink_foot.Prelude.{
  zero, String, ◌≡◌, refl, ap, Bool, true, false, not, Option, none, some, List, [], ◌∷◌, arith,
  eq_refl, str_eq, if◌then◌else◌,
}
use ink_foot.Value.{
  Value, null, boolean, int, real, nan, text, list, dict, Items, nil, cons, Fields, end, field, Key,
  is_key, get, find,
}

module _ {F : Type 0} where
  abbrev pub to_list : Items F → List (Value F)
  to_list nil = []
  to_list (cons v vs) = v ∷ to_list vs

  abbrev pub to_items : List (Value F) → Items F
  to_items [] = nil
  to_items (v ∷ vs) = cons v (to_items vs)

  pub to_list-to_items : (vs : List (Value F)) → to_list (to_items vs) ≡ vs
  to_list-to_items [] = refl
  to_list-to_items (v ∷ vs) = ap (λ ws. v ∷ ws) (to_list-to_items vs)

  -- `v if isinstance(v, str) else ""`
  abbrev pub text_or_empty : Value F → String
  text_or_empty (text s) = s
  text_or_empty _ = ""

  -- `isinstance(v, dict) and v.get("type") == kind`
  abbrev pub is_text : String → Value F → Bool
  is_text s (text t) = str_eq t s
  is_text s _ = false

  -- `v.get(k)` on a mapping; anything else has no such entry
  abbrev pub attr : String → Value F → Value F
  attr k (dict fs) = get k fs
  attr k _ = null

  -- `kwargs[k] = v`
  unfoldable pub replace : String → Value F → Fields F → Fields F
  replace k v end = field (Key.name k) v end
  replace k v (field j w fs) = if is_key k j then field j v fs else field j w (replace k v fs)

  pub get-replace : (k : String) (v : Value F) (fs : Fields F) → get k (replace k v fs) ≡ v
  unfolding replace find
  get-replace k v end = ground (arith, eq_refl k)
  get-replace k v (field j w fs) = ground (arith, get-replace k v fs)

-- Whether a float is 0 is a parameter.
module _ {F : Type 0} (is_zero : F → Bool) where
  -- `bool(v)`
  abbrev pub truthy : Value F → Bool
  truthy null = false
  truthy (boolean b) = b
  truthy (int (pos zero)) = false
  truthy (int _) = true
  truthy (real x) = not (is_zero x)
  truthy nan = true
  truthy (text s) = not (str_eq s "")
  truthy (list nil) = false
  truthy (list _) = true
  truthy (dict end) = false
  truthy (dict _) = true

  -- What `for x in v or []` goes through where the body looks at mappings only: the keys of a
  -- mapping and the characters of a text are none. A true value that cannot be iterated raises.
  abbrev pub iterated : Value F → Option (List (Value F))
  iterated (list vs) = some (to_list vs)
  iterated (dict _) = some []
  iterated (text _) = some []
  iterated v = if truthy v then none else some []
