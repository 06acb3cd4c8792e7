-- ===== src/Contracts/Parse/LadderOrder.antt =====
-- The ladder that `_parse_degrade` accepts: its rungs ascend strictly and lie between 1 and 100.
use ink_foot.Prelude.{ℕ, ◌≤◌, ◌<◌, ◌≡◌, ◌≢◌, true, false, not, List, [], ◌∷◌, arith}
use ink_foot.Prelude.Int.{ℤ, pos, negsuc}
use ink_foot.Prelude.Lists.{All}
use ink_foot.Value.{Value, null, list, Items, nil, cons, dict}
use ink_foot.Contracts.Result.{ok, OnOk, OnOk-bind, OnOk-require, OnOk-ok, OnOk-err}
use ink_foot.Contracts.Schema.{DegradeStep, DegradeAction}
use ink_foot.Contracts.Parse.Degrade.{
  in_range, seen, insert_step, sort_steps, parse_step, step_loop, parse_degrade,
}

-- The rungs ascend strictly from above `p`.
abbrev pub Above : ℕ → List DegradeStep → Type 0
Above p [] = Unit
Above p (s ∷ ss) = (p < s.at_percent) × Above s.at_percent ss

abbrev pub InRange : DegradeStep → Type 0
InRange s = (1 ≤ s.at_percent) × (s.at_percent ≤ 100)

abbrev pub IsLadder : List DegradeStep → Type 0
IsLadder ss = Above 0 ss × All InRange ss

-- No rung repeats a percentage of the list or of an earlier rung.
abbrev Distinct : List ℕ → List DegradeStep → Type 0
Distinct ps [] = Unit
Distinct ps (s ∷ ss) = (seen s.at_percent ps ≡ false) × Distinct (s.at_percent ∷ ps) ss

abbrev NotIn : ℕ → List DegradeStep → Type 0
NotIn q = All (λ t. t.at_percent ≢ q)

Distinct-NotIn :
    (q : ℕ) (ps : List ℕ) (ss : List DegradeStep) → Distinct ps ss → seen q ps ≡ true → NotIn q ss
Distinct-NotIn q ps [] d h = tt
Distinct-NotIn q ps (s ∷ ss) d h =
    (λ e. ground (arith, seen_at e), Distinct-NotIn q (s.at_percent ∷ ps) ss d.1 (ground arith))
  where
    seen_at : s.at_percent ≡ q → seen s.at_percent ps ≡ true
    seen_at e = rw e h

insert_step-NotIn :
    (q : ℕ) (s : DegradeStep) (ss : List DegradeStep)
    → s.at_percent ≢ q
    → NotIn q ss
    → NotIn q (insert_step s ss)
unfolding insert_step
insert_step-NotIn q s [] ne h = (ne, tt)
insert_step-NotIn q s (t ∷ ts) ne h = ground (arith, insert_step-NotIn q s ts ne h.1)

sort_steps-NotIn : (q : ℕ) (ss : List DegradeStep) → NotIn q ss → NotIn q (sort_steps ss)
unfolding sort_steps
sort_steps-NotIn q [] h = tt
sort_steps-NotIn q (s ∷ ss) h =
    insert_step-NotIn q s (sort_steps ss) h.0 (sort_steps-NotIn q ss h.1)

insert_step-Above :
    (p : ℕ) (s : DegradeStep) (ss : List DegradeStep)
    → p < s.at_percent
    → NotIn s.at_percent ss
    → Above p ss
    → Above p (insert_step s ss)
unfolding insert_step
insert_step-Above p s [] lt h a = (lt, tt)
insert_step-Above p s (t ∷ ts) lt h a = ground (arith, h.0, insert_step-Above t.at_percent s ts)

insert_step-InRange :
    (s : DegradeStep) (ss : List DegradeStep)
    → InRange s
    → All InRange ss
    → All InRange (insert_step s ss)
unfolding insert_step
insert_step-InRange s [] i h = (i, tt)
insert_step-InRange s (t ∷ ts) i h = ground (arith, insert_step-InRange s ts i h.1)

sort_steps-IsLadder :
    (ps : List ℕ) (ss : List DegradeStep)
    → Distinct ps ss
    → All InRange ss
    → IsLadder (sort_steps ss)
unfolding sort_steps
sort_steps-IsLadder ps [] d h = (tt, tt)
sort_steps-IsLadder ps (s ∷ ss) d h =
    let (sorted, ranged) = sort_steps-IsLadder (s.at_percent ∷ ps) ss d.1 h.1 in
    let fresh = Distinct-NotIn s.at_percent (s.at_percent ∷ ps) ss d.1 (ground arith) in
    (
      insert_step-Above 0 s (sort_steps ss) (omega (arith, h.0.0)) (sort_steps-NotIn _ ss fresh)
          sorted,
      insert_step-InRange s (sort_steps ss) h.0 ranged,
    )

in_range_bounds : (n : ℤ) (p : ℕ) → in_range n ≡ ok p → (1 ≤ p) × (p ≤ 100)
in_range_bounds (pos n) p h = ground arith
in_range_bounds (negsuc n) p h = cc

abbrev Parsed : List ℕ → List DegradeStep → Type 0
Parsed ps ss = Distinct ps ss × All InRange ss

abbrev Fresh : List ℕ → DegradeStep → Type 0
Fresh ps s = InRange s × (seen s.at_percent ps ≡ false)

step-Fresh :
    (ps : List ℕ) (p : ℕ) (a : DegradeAction)
    → (1 ≤ p) × (p ≤ 100)
    → not (seen p ps) ≡ true
    → Fresh ps (record { at_percent = p; action = a })
step-Fresh ps p a h fresh = (h, ground arith)

module _ {F : Type 0} where
  parse_step-Fresh : (item : Value F) (ps : List ℕ) → OnOk (Fresh ps) (parse_step item ps)
  unfolding parse_step
  parse_step-Fresh (dict item) ps = OnOk-bind _ _ λ _ _. OnOk-bind _ _ λ n _.
      OnOk-bind _ _ λ p ranged. OnOk-require _ _ _ λ fresh.
        OnOk-bind _ _ λ a _. OnOk-ok _ (step-Fresh ps p a (in_range_bounds n p ranged) fresh)
  parse_step-Fresh null ps = OnOk-err _
  parse_step-Fresh _ ps = OnOk-err _

  step_loop-Parsed : (items : Items F) (ps : List ℕ) → OnOk (Parsed ps) (step_loop items ps)
  unfolding step_loop
  step_loop-Parsed nil ps = OnOk-ok [] (tt, tt)
  step_loop-Parsed (cons item rest) ps =
      let later = λ (s : DegradeStep). step_loop-Parsed rest (s.at_percent ∷ ps) in
      OnOk-bind _ _ λ s found. OnOk-bind _ _ λ ss parsed.
        let fresh = (parse_step-Fresh item ps).at s found in
        let h = (later s).at ss parsed in OnOk-ok (s ∷ ss) ((fresh.1, h.0), (fresh.0, h.1))

  parse_degrade-OnOk : (raw : Value F) → OnOk IsLadder (parse_degrade raw)
  unfolding parse_degrade
  parse_degrade-OnOk null = OnOk-ok [] (tt, tt)
  parse_degrade-OnOk (list items) = OnOk-bind _ _ λ ss parsed.
      let h = (step_loop-Parsed items []).at ss parsed in
      OnOk-ok _ (sort_steps-IsLadder [] ss h.0 h.1)
  parse_degrade-OnOk _ = OnOk-err _

  -- A ladder that the parser accepts ascends strictly, and each rung lies between 1 and 100.
  pub parse_degrade-IsLadder :
      (raw : Value F) (ss : List DegradeStep) → parse_degrade raw ≡ ok ss → IsLadder ss
  parse_degrade-IsLadder raw ss = (parse_degrade-OnOk raw).at ss
