-- ===== src/Value/Equality.antt =====
-- Python's `==` on the values of a document, and what it carries over from one value to another.
use ink_foot.Prelude.{
  ℕ, ◌+◌, String, ◌≡◌, ap, Bool, true, false, ◌&&◌, none, some, arith, eq_iff, inl, inr, ◌==◌,
  str_eq, if◌then◌else◌, Bool-cases, Option-cases,
}
use ink_foot.Value.{
  Value, null, boolean, int, real, nan, text, list, dict, Items, nil, cons, Fields, end, field, Key,
  is_key, or_null, find, get,
}

module _ {F : Type 0} where
  abbrev pub is_number : Value F → Bool
  is_number (boolean b) = true
  is_number (int n) = true
  is_number (real x) = true
  is_number _ = false

  -- `len(v)` of a mapping
  unfoldable pub size : Fields F → ℕ
  size end = 0
  size (field k v fs) = size fs + 1

-- The equality of numbers, whatever their types, is a parameter. A NaN inside a container is compared
-- by identity, and the values compared come from the same document.
module _ {F : Type 0} (number_eq : Value F → Value F → Bool) where
  unfoldable mutual
    unfolding find size

    pub same : Value F → Value F → Bool
    same null null = true
    same nan nan = true
    same (text s) (text t) = str_eq s t
    same (list vs) (list ws) = same_items vs ws
    same (dict fs) (dict gs) = (size fs == size gs) && same_fields fs gs
    same v w = is_number v && is_number w && number_eq v w

    pub same_items : Items F → Items F → Bool
    same_items nil nil = true
    same_items (cons v vs) (cons w ws) = same v w && same_items vs ws
    same_items vs ws = false

    -- Every entry of the first is in the second.
    pub same_fields : Fields F → Fields F → Bool
    same_fields end gs = true
    same_fields (field Key.other v fs) gs = false
    same_fields (field (Key.name k) v fs) gs =
        elim (find k gs) [ none ↦ false | some w ↦ same v w ] && same_fields fs gs

  -- `v != w` on whole values
  abbrev pub differs : Value F → Value F → Bool
  differs nan w = true
  differs v w = if same v w then false else true

  pub differs-same : (v w : Value F) → differs v w ≡ false → same v w ≡ true
  differs-same null w e = ground arith
  differs-same (boolean b) w e = ground arith
  differs-same (int n) w e = ground arith
  differs-same (real x) w e = ground arith
  differs-same nan w e = cc e
  differs-same (text s) w e = ground arith
  differs-same (list vs) w e = ground arith
  differs-same (dict fs) w e = ground arith

-- `P` holds of every text in a value; the keys of mappings are no texts of it.
module _ {F : Type 0} (P : String → Type 0) where
  unfoldable mutual
    pub AllTexts : Value F → Type 0
    AllTexts (text s) = P s
    AllTexts (list vs) = AllTextsItems vs
    AllTexts (dict fs) = AllTextsFields fs
    AllTexts _ = Unit

    pub AllTextsItems : Items F → Type 0
    AllTextsItems nil = Unit
    AllTextsItems (cons v vs) = AllTexts v × AllTextsItems vs

    pub AllTextsFields : Fields F → Type 0
    AllTextsFields end = Unit
    AllTextsFields (field k v fs) = AllTexts v × AllTextsFields fs

  some-injective : {a b : Value F} → some a ≡ some b → a ≡ b
  some-injective e = ap (λ o. or_null o) e

  pub AllTexts-find :
      (k : String) (fs : Fields F) {v : Value F}
      → AllTextsFields fs
      → find k fs ≡ some v
      → AllTexts v
  unfolding find AllTexts
  AllTexts-find k end h e = cc e
  AllTexts-find k (field j w fs) {v} h e = elim (Bool-cases (is_key k j)) [
    | inl here ↦ rw (← some-injective (rw here at e)) h.0
    | inr there ↦ AllTexts-find k fs h.1 (rw there at e)
  ]

  pub AllTexts-get : (k : String) (fs : Fields F) → AllTextsFields fs → AllTexts (get k fs)
  unfolding find AllTexts
  AllTexts-get k fs h = elim (Option-cases (find k fs)) [
    | inl absent ↦ rw absent tt
    | inr (v, found) ↦ rw found (AllTexts-find k fs h found)
  ]

both : (x y : Bool) → x && y ≡ true → (x ≡ true) × (y ≡ true)
both x y h = ground arith

module _ {F : Type 0} (P : String → Type 0) (number_eq : Value F → Value F → Bool) where
  mutual
    unfolding same AllTexts

    -- Equal values have the same texts.
    pub same-AllTexts : (v w : Value F) → same number_eq v w ≡ true → AllTexts P w → AllTexts P v
    same-AllTexts null w e h = tt
    same-AllTexts (boolean b) w e h = tt
    same-AllTexts (int n) w e h = tt
    same-AllTexts (real x) w e h = tt
    same-AllTexts nan w e h = tt
    same-AllTexts (text s) (text t) e h = rw ((eq_iff s t).0 e) h
    same-AllTexts (text s) _ e h = cc e
    same-AllTexts (list vs) (list ws) e h = same_items-AllTexts vs ws e h
    same-AllTexts (list vs) _ e h = cc e
    same-AllTexts (dict fs) (dict gs) e h = same_fields-AllTexts fs gs (both _ _ e).1 h
    same-AllTexts (dict fs) _ e h = cc e

    same_items-AllTexts :
        (vs ws : Items F)
        → same_items number_eq vs ws ≡ true
        → AllTextsItems P ws
        → AllTextsItems P vs
    same_items-AllTexts nil ws e h = tt
    same_items-AllTexts (cons v vs) nil e h = cc e
    same_items-AllTexts (cons v vs) (cons w ws) e h =
        let (here, rest) = both _ _ e in
        (same-AllTexts v w here h.0, same_items-AllTexts vs ws rest h.1)

    same_fields-AllTexts :
        (fs gs : Fields F)
        → same_fields number_eq fs gs ≡ true
        → AllTextsFields P gs
        → AllTextsFields P fs
    same_fields-AllTexts end gs e h = tt
    same_fields-AllTexts (field Key.other v fs) gs e h = cc e
    same_fields-AllTexts (field (Key.name k) v fs) gs e h = elim (Option-cases (find k gs)) [
      | inl absent ↦ cc (rw absent at e)
      | inr (w, found) ↦
          let (here, rest) =
            both (same number_eq v w) (same_fields number_eq fs gs) (rw found at e) in
          (same-AllTexts v w here (AllTexts-find P k gs h found), same_fields-AllTexts fs gs rest h)
    ]
