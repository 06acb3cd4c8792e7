-- ===== src/Contracts/Ladder/Reach.antt =====
-- Which rung the ladder reaches, and which dimension drives it.
use ink_foot.Prelude.Int.{ℤ, pos, ◌≤ℤ◌}
use ink_foot.Prelude.{
  ℕ, zero, suc, ◌<◌, ◌≡◌, refl, sym, inl, inr, Bool, true, false, Option, none, some, List, [], ◌∷◌,
  ◌++◌, arith, if◌then◌else◌, Bool-cases,
}
use ink_foot.Float.{Float, leb_of_not, leb-false_up}
use ink_foot.Prelude.Lists.{All}
use ink_foot.Contracts.Schema.{DegradeStep, BudgetClause}
use ink_foot.Contracts.Parse.LadderOrder.{Above, InRange}
use ink_foot.Contracts.Ladder.{
  Dimension, percent_of, candidate, max_from, max_dimension, worst_dimension, ladder_loop,
  ladder_step_for,
}

-- The last rung of a ladder.
abbrev pub last_or : Option DegradeStep → List DegradeStep → Option DegradeStep
last_or chosen [] = chosen
last_or chosen (s ∷ ss) = last_or (some s) ss

module _ (f : Float) where
  open f use {
    F, leb, of_int, div_int, mul, leb_trans, of_int_mono, div_mono, div_self, mul_mono, mul_one,
  }

  abbrev pub reached : F → DegradeStep → Bool
  reached percent s = leb (of_int (pos s.at_percent)) percent

  -- The last reached rung of the whole ladder, with no early stop.
  unfoldable pub last_reached : Option DegradeStep → List DegradeStep → F → Option DegradeStep
  last_reached chosen [] percent = chosen
  last_reached chosen (s ∷ ss) percent =
      last_reached (if reached percent s then some s else chosen) ss percent

  last_reached-none :
      (chosen : Option DegradeStep) (p : ℕ) (ss : List DegradeStep) (percent : F)
      → Above p ss
      → leb (of_int (pos p)) percent ≡ false
      → last_reached chosen ss percent ≡ chosen
  unfolding last_reached
  last_reached-none chosen p [] percent a h = refl
  last_reached-none chosen p (s ∷ ss) percent a h =
      let below : reached percent s ≡ false =
        leb-false_up f _ _ percent (of_int_mono (pos p) (pos s.at_percent) (omega arith)) h in
      rw below (last_reached-none chosen s.at_percent ss percent a.1 below)

  ladder_loop-last_reached :
      (chosen : Option DegradeStep) (p : ℕ) (ss : List DegradeStep) (percent : F)
      → Above p ss
      → ladder_loop f chosen ss percent ≡ last_reached chosen ss percent
  unfolding ladder_loop last_reached
  ladder_loop-last_reached chosen p [] percent a = refl
  ladder_loop-last_reached chosen p (s ∷ ss) percent a =
      let later = ladder_loop-last_reached (some s) s.at_percent ss percent a.1 in
      elim (Bool-cases (reached percent s)) [
        | inl e ↦ rw e later
        | inr e ↦ rw e (sym (last_reached-none chosen s.at_percent ss percent a.1 e))
      ]

  -- On an ascending ladder the loop that stops at the first rung out of reach finds the last rung
  -- in reach of the whole ladder.
  pub ladder_step_for-last_reached :
      (ladder : List DegradeStep) (percent : F)
      → Above 0 ladder
      → ladder_step_for f ladder percent ≡ last_reached none ladder percent
  unfolding ladder_step_for
  ladder_step_for-last_reached ladder percent a = ladder_loop-last_reached none 0 ladder percent a

  -- At 100 percent or more every rung is in reach, so the last one is chosen.
  pub ladder_loop_full :
      (chosen : Option DegradeStep) (ss : List DegradeStep) (percent : F)
      → All InRange ss
      → leb (of_int (pos 100)) percent ≡ true
      → ladder_loop f chosen ss percent ≡ last_or chosen ss
  unfolding ladder_loop
  ladder_loop_full chosen [] percent r h = refl
  ladder_loop_full chosen (s ∷ ss) percent r h =
      let e : reached percent s ≡ true =
        leb_trans _ _ percent (of_int_mono (pos s.at_percent) (pos 100) (omega (arith, r.0.1))) h in
      rw e (ladder_loop_full (some s) ss percent r.1 h)

  -- A projection that has reached its ceiling stands at 100 percent or more.
  pub percent_of-full :
      (projected : ℤ) (n : ℕ)
      → 0 < n
      → pos n ≤ℤ projected
      → leb (of_int (pos 100)) (percent_of f projected n) ≡ true
  unfolding percent_of
  percent_of-full projected n p h =
      let one_le : leb (of_int (pos 1)) (div_int projected n) ≡ true =
        rw (div_self n p) at (div_mono (pos n) projected n p h) in
      rw (mul_one (of_int (pos 100))) at (
        mul_mono (of_int (pos 1)) (div_int projected n) (of_int (pos 100))
          (of_int_mono (pos 0) (pos 100) (omega arith)) one_le)

  max_from_ge :
      (best : Dimension F) (cs : List (Dimension F))
      → leb best.percent (max_from f best cs).percent ≡ true
  unfolding max_from
  max_from_ge best [] = f.leb_refl best.percent
  max_from_ge best (c ∷ cs) = elim (Bool-cases (leb c.percent best.percent)) [
    | inl e ↦ rw (e, max_from) (max_from_ge best cs)
    | inr e ↦ rw (e, max_from) (leb_trans _ _ _ (leb_of_not f _ _ e) (max_from_ge c cs))
  ]

  -- A set spend ceiling makes a dimension, and the driving one is consumed at least as much.
  pub worst_dimension-nanodollars :
      (b : BudgetClause F) (projected : ℤ) (calls n : ℕ)
      → b.max_nanodollars ≡ some n
      → 0 < n
      → (d : Dimension F) × (worst_dimension f b projected calls ≡ some d)
        × (leb (percent_of f projected n) d.percent ≡ true)
  unfolding worst_dimension
  worst_dimension-nanodollars b projected calls zero set p = absurd (omega arith)
  worst_dimension-nanodollars b projected calls (suc n) set p =
      let c : Dimension F = record {
        percent = percent_of f projected (suc n);
        clause_name = "max_nanodollars";
        projected = projected;
        threshold = suc n;
      } in
      let cs = candidate f "max_llm_calls" (pos calls) b.max_llm_calls in
      (max_from f c cs, rw (set, candidate), max_from_ge c cs)

  after_one : (c d : Dimension F) → leb d.percent (max_from f c (d ∷ [])).percent ≡ true
  unfolding max_from
  after_one c d = elim (Bool-cases (leb d.percent c.percent)) [
    | inl e ↦ rw (e, max_from) e
    | inr e ↦ rw (e, max_from) (f.leb_refl d.percent)
  ]

  calls_drive :
      (nd : Option ℕ) (projected : ℤ) (c : Dimension F)
      → (d : Dimension F) × (max_dimension f (candidate f "max_nanodollars" projected nd ++ c ∷ [])
          ≡ some d)
        × (leb c.percent d.percent ≡ true)
  unfolding max_dimension candidate
  calls_drive none projected c = (c, refl, f.leb_refl c.percent)
  calls_drive (some zero) projected c = (c, refl, f.leb_refl c.percent)
  calls_drive (some (suc n)) projected c = (max_from f _ (c ∷ []), refl, after_one _ c)

  -- The same for a set ceiling on the calls.
  pub worst_dimension-calls :
      (b : BudgetClause F) (projected : ℤ) (calls n : ℕ)
      → b.max_llm_calls ≡ some n
      → 0 < n
      → (d : Dimension F) × (worst_dimension f b projected calls ≡ some d)
        × (leb (percent_of f (pos calls) n) d.percent ≡ true)
  unfolding worst_dimension
  worst_dimension-calls b projected calls zero set p = absurd (omega arith)
  worst_dimension-calls b projected calls (suc n) set p =
      let c : Dimension F = record {
        percent = percent_of f (pos calls) (suc n);
        clause_name = "max_llm_calls";
        projected = pos calls;
        threshold = suc n;
      } in
      let (d, e, h) = calls_drive b.max_nanodollars projected c in (d, rw (set, candidate) e, h)

  pub ladder_step_for-full :
      (ss : List DegradeStep) (percent : F)
      → All InRange ss
      → leb (of_int (pos 100)) percent ≡ true
      → ladder_step_for f ss percent ≡ last_or none ss
  unfolding ladder_step_for
  ladder_step_for-full ss percent r h = ladder_loop_full none ss percent r h
