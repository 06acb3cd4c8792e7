-- ===== src/Contracts/Parse/FieldChecks.antt =====
-- The field helpers of inkfoot/contracts/schema.py.
use ink_foot.Float.{Float}
use ink_foot.Prelude.{
  ℕ, String, Bool, true, false, ◌&&◌, Option, none, some, List, if◌then◌else◌, str_eq, ltb,
}
use ink_foot.Prelude.Lists.{elem}
use ink_foot.Prelude.Int.{ℤ, pos}
use ink_foot.Value.{Value, null, int, real, text, Fields, end, field, Key, find, get}
use ink_foot.Contracts.Result.{Result, ok, err, unknown_field, missing, mistyped}

-- `not value`, of a string
abbrev pub is_empty : String → Bool
is_empty s = str_eq s ""

abbrev pub or_default : Option ℕ → ℕ → ℕ
or_default none d = d
or_default (some n) d = n

abbrev pub allows : List String → Key → Bool
allows allowed (Key.name k) = elem k allowed
allows allowed Key.other = false

module _ {F : Type 0} where
  -- `set(raw.keys()) - allowed` is empty
  abbrev pub all_known : List String → Fields F → Bool
  all_known allowed end = true
  all_known allowed (field k v rest) = allows allowed k && all_known allowed rest

  unfoldable pub reject_unknown : List String → Fields F → Result (Unit {0})
  reject_unknown allowed raw = if all_known allowed raw then ok tt else err unknown_field

  abbrev pub int_or : String → Option (Value F) → Result ℤ
  int_or key none = err (missing key)
  int_or key (some (int n)) = ok n
  int_or key (some _) = err (mistyped key)

  unfoldable pub require_int : String → Fields F → Result ℤ
  unfolding find
  require_int key raw = int_or key (find key raw)

  abbrev pub str_or : String → Option (Value F) → Result String
  str_or key none = err (missing key)
  str_or key (some (text s)) = if is_empty s then err (mistyped key) else ok s
  str_or key (some _) = err (mistyped key)

  unfoldable pub require_str : String → Fields F → Result String
  unfolding find
  require_str key raw = str_or key (find key raw)

  abbrev pub nonneg_or : String → Value F → Result (Option ℕ)
  nonneg_or key null = ok none
  nonneg_or key (int (pos n)) = ok (some n)
  nonneg_or key _ = err (mistyped key)

  unfoldable pub opt_nonneg_int : String → Fields F → Result (Option ℕ)
  unfolding find
  opt_nonneg_int key raw = nonneg_or key (get key raw)

  abbrev pub pos_or : String → Value F → Result (Option ℕ)
  pos_or key null = ok none
  pos_or key (int (pos n)) = if ltb 0 n then ok (some n) else err (mistyped key)
  pos_or key _ = err (mistyped key)

  unfoldable pub opt_pos_int : String → Fields F → Result (Option ℕ)
  unfolding find
  opt_pos_int key raw = pos_or key (get key raw)

module _ (f : Float) where
  open f use {F, leb, of_int}

  -- `0.0 <= x <= 1.0`
  abbrev pub in_unit : F → Bool
  in_unit x = leb (of_int (pos 0)) x && leb x (of_int (pos 1))

  abbrev pub rate_or : String → Value F → Result (Option F)
  rate_or key null = ok none
  rate_or key (int n) = if in_unit (of_int n) then ok (some (of_int n)) else err (mistyped key)
  rate_or key (real x) = if in_unit x then ok (some x) else err (mistyped key)
  rate_or key _ = err (mistyped key)

  unfoldable pub opt_rate : String → Fields F → Result (Option F)
  unfolding find
  opt_rate key raw = rate_or key (get key raw)
