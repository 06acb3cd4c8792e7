-- ===== src/Value.antt =====
-- The values of a parsed YAML or JSON document, and Python's tests on them.
pub mod Truth
pub mod Equality
use ink_foot.Prelude.{String, Bool, false, Option, none, some, if◌then◌else◌, str_eq}
use ink_foot.Prelude.Int.{ℤ}

-- A mapping's key: YAML allows keys that are no strings.
pub data Key : Type 0 where
  name : String → Key
  other : Key

-- `F` is the type of floats; NaN is apart. A list and a mapping are data types of the block.
mutual
  pub data Value (F : Type 0) : Type 0 where
    null : Value F
    boolean : Bool → Value F
    int : ℤ → Value F
    real : F → Value F
    nan : Value F
    text : String → Value F
    list : Items F → Value F
    dict : Fields F → Value F

  pub data Items (F : Type 0) : Type 0 where
    nil : Items F
    cons : Value F → Items F → Items F

  pub data Fields (F : Type 0) : Type 0 where
    end : Fields F
    field : Key → Value F → Fields F → Fields F

abbrev pub is_key : String → Key → Bool
is_key k (name j) = str_eq j k
is_key k other = false

module _ {F : Type 0} where
  -- `raw.get(k)`, with `none` for an absent key
  unfoldable pub find : String → Fields F → Option (Value F)
  find k end = none
  find k (field j v fs) = if is_key k j then some v else find k fs

  abbrev pub or_null : Option (Value F) → Value F
  or_null none = null
  or_null (some v) = v

  -- `raw.get(k)`, with Python's `None` for an absent key
  abbrev pub get : String → Fields F → Value F
  get k fs = or_null (find k fs)

  -- `isinstance(v, int) and not isinstance(v, bool)`
  abbrev pub as_int : Value F → Option ℤ
  as_int (int n) = some n
  as_int _ = none
