-- ===== src/Contracts/Ladder.antt =====
-- The ladder maths of inkfoot/contracts/enforcer.py: which budget dimension is closest to its
-- ceiling, and which rung of the ladder it has reached.
pub mod Reach
use ink_foot.Prelude.Int.{ℤ, pos, negsuc, ◌+ℤ◌, ◌-ℤ◌, ◌≤ℤ◌, ltb_ℤ, leb_ℤ}
use ink_foot.Prelude.{
  ℕ, zero, suc, ◌+◌, ◌-◌, ◌*◌, ◌/◌, ◌%◌, ◌≤◌, ◌<◌, String, ◌≡◌, refl, sym, ap, ◌∙◌, ◌≢◌, ◌⊎◌, inl,
  inr, Bool, true, false, not, ◌&&◌, ◌||◌, Option, none, some, List, [], ◌∷◌, ◌++◌, map, arith,
  eq_iff, eq_refl, ltb, leb, ◌==◌, str_eq, if◌then◌else◌, Bool-cases, Option-cases,
}
use ink_foot.Float.{Float, ltf}
use ink_foot.Contracts.Schema.{
  DegradeAction, warn, switch_to_cheap_model, block, DegradeStep, BudgetClause,
}

-- A budget dimension: its consumption in percent, its clause, and the two numbers compared.
pub record Dimension (F : Type 0) : Type 0 where
  pub percent : F
  pub clause_name : String
  pub projected : ℤ
  pub threshold : ℕ

module _ (f : Float) where
  open f use {F, leb, of_int, div_int, mul}

  -- `projected / ceiling * 100.0`
  unfoldable pub percent_of : ℤ → ℕ → F
  percent_of projected ceiling = mul (div_int projected ceiling) (of_int (pos 100))

  -- A dimension whose ceiling is unset or 0 is no candidate.
  unfoldable pub candidate : String → ℤ → Option ℕ → List (Dimension F)
  unfolding percent_of
  candidate clause projected none = []
  candidate clause projected (some zero) = []
  candidate clause projected (some (suc n)) =
      record {
        percent = percent_of projected (suc n);
        clause_name = clause;
        projected = projected;
        threshold = suc n;
      }
      ∷ []

  -- `max(candidates, key=lambda c: c[0])`: the first of the greatest.
  unfoldable pub max_from : Dimension F → List (Dimension F) → Dimension F
  max_from best [] = best
  max_from best (c ∷ cs) = max_from (if ltf f best.percent c.percent then c else best) cs

  unfoldable pub max_dimension : List (Dimension F) → Option (Dimension F)
  unfolding max_from
  max_dimension [] = none
  max_dimension (c ∷ cs) = some (max_from c cs)

  -- `_worst_dimension`; `none` is its `None` percent
  unfoldable pub worst_dimension : BudgetClause F → ℤ → ℕ → Option (Dimension F)
  unfolding candidate max_dimension
  worst_dimension budget projected_nanodollars projected_calls = max_dimension (
      candidate "max_nanodollars" projected_nanodollars budget.max_nanodollars
      ++ candidate "max_llm_calls" (pos projected_calls) budget.max_llm_calls)

  -- The loop of `_ladder_step_for`, with the rung chosen so far; it stops at the first rung that is
  -- not reached.
  unfoldable pub ladder_loop : Option DegradeStep → List DegradeStep → F → Option DegradeStep
  ladder_loop chosen [] percent = chosen
  ladder_loop chosen (s ∷ ladder) percent =
      let rest = ladder_loop (some s) ladder percent in
      if leb (of_int (pos s.at_percent)) percent then rest else chosen

  unfoldable pub ladder_step_for : List DegradeStep → F → Option DegradeStep
  unfolding ladder_loop
  ladder_step_for = ladder_loop none

-- `_level_for`
abbrev pub level_for : DegradeAction → String
level_for block = "block"
level_for switch_to_cheap_model = "degrade"
level_for warn = "warn"
