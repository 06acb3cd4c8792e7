-- ===== src/Ledger/Usage.antt =====
-- `validate_against_usage` of inkfoot/ledger.py. The relative error is a float: the type of floats
-- is a parameter. Python's exceptions are the constructors of `Verdict` other than `valid`.
use ink_foot.Float.{Float, ltf}
use ink_foot.Prelude.{ℕ, suc, Bool, true, false, if◌then◌else◌, ◌≡◌, arith}
use ink_foot.Prelude.Int.{ℤ, pos, negsuc, pos_part, ◌-ℤ◌, ltb_ℤ, ◌≤ℤ◌, int_laws}
use ink_foot.Ledger.{CausalTokenLedger, input_total, output_total}

-- Which check raised; the first three are a `ValueError`, the others an `AssertionError`.
pub data Verdict : Type 0 where
  valid : Verdict
  negative_input negative_output negative_tolerance : Verdict
  zero_input input_deviates output_differs : Verdict

-- `a == b` on ints.
abbrev eq_ℤ : ℤ → ℤ → Bool
eq_ℤ a b = if ltb_ℤ a b then false else if ltb_ℤ b a then false else true

-- `abs(a)`, as a natural number
unfoldable pub abs : ℤ → ℕ
abs (pos n) = n
abs (negsuc n) = suc n

sub_self : (r : ℤ) → r -ℤ r ≡ pos 0
sub_self r = omega int_laws

module _ (f : Float) where
  open f use {F, leb, of_int, div_int, leb_trans, div_zero}

  -- `abs(actual - raw) / raw`
  unfoldable pub rel_err : ℤ → ℤ → F
  unfolding abs
  rel_err actual raw = div_int (pos (abs (actual -ℤ raw))) (pos_part raw)

  check_input : ℤ → ℤ → F → Bool
  check_input actual raw tolerance =
      if eq_ℤ raw (pos 0) then eq_ℤ actual (pos 0) else ltf f (rel_err actual raw) tolerance

  abbrev failed_input : ℤ → Verdict
  failed_input raw = if eq_ℤ raw (pos 0) then zero_input else input_deviates

  unfoldable pub validate_against_usage : CausalTokenLedger → ℤ → ℤ → F → Verdict
  unfolding check_input rel_err
  validate_against_usage ledger raw_input raw_output tolerance =
      if ltb_ℤ raw_input (pos 0)
      then negative_input
      else if ltb_ℤ raw_output (pos 0)
      then negative_output
      else if ltf f tolerance (of_int (pos 0))
      then negative_tolerance
      else if check_input (input_total ledger) raw_input tolerance
      then (if eq_ℤ (output_total ledger) raw_output then valid else output_differs)
      else failed_input raw_input

  rel_err_self : (r : ℤ) → ltb_ℤ (pos 0) r ≡ true → rel_err r r ≡ of_int (pos 0)
  unfolding rel_err
  rel_err_self r h = rw (sub_self r, rel_err) (div_zero (pos_part r) (ground arith))

  -- What the provider reported is accepted under every positive tolerance when the ledger's totals
  -- equal it, and a tolerance of 0 refuses even that, as the gate is strict, unless the input is 0.
  pub validate_exact :
      (l : CausalTokenLedger) (t : F)
      → pos 0 ≤ℤ input_total l
      → pos 0 ≤ℤ output_total l
      → leb (of_int (pos 0)) t ≡ true
      → validate_against_usage l (input_total l) (output_total l) t ≡ (
          if ltf f (of_int (pos 0)) t
          then valid
          else if ltb_ℤ (pos 0) (input_total l)
          then input_deviates
          else valid)
  unfolding validate_against_usage
  validate_exact l t hi ho ht = ground (arith, rel_err_self (input_total l))
