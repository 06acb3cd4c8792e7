-- ===== src/Contracts/Parse/Degrade.antt =====
-- `_parse_degrade` of inkfoot/contracts/schema.py: the rungs of the degrade ladder.
use ink_foot.Prelude.{
  ℕ, Bool, true, false, ◌&&◌, not, List, [], ◌∷◌, if◌then◌else◌, str_eq, leb, ◌==◌,
}
use ink_foot.Prelude.Int.{ℤ, pos, negsuc}
use ink_foot.Value.{Value, null, text, list, dict, Items, nil, cons, get}
use ink_foot.Contracts.Result.{
  Result, ok, err, not_mapping, not_list, percent_range, percent_duplicate, unknown_action, ◌>>=◌,
  ◌>>◌, require,
}
use ink_foot.Contracts.Schema.{DegradeAction, warn, switch_to_cheap_model, block, DegradeStep}
use ink_foot.Contracts.Parse.FieldChecks.{reject_unknown, require_int}

-- `1 <= at_percent <= 100`
abbrev pub in_range : ℤ → Result ℕ
in_range (negsuc n) = err percent_range
in_range (pos n) = if leb 1 n && leb n 100 then ok n else err percent_range

-- `at_percent in seen_percents`
abbrev pub seen : ℕ → List ℕ → Bool
seen p [] = false
seen p (q ∷ qs) = if q == p then true else seen p qs

-- `steps.sort(key=lambda s: s.at_percent)`, which is stable
unfoldable pub insert_step : DegradeStep → List DegradeStep → List DegradeStep
insert_step s [] = s ∷ []
insert_step s (t ∷ ts) = if leb s.at_percent t.at_percent then s ∷ t ∷ ts else t ∷ insert_step s ts

unfoldable pub sort_steps : List DegradeStep → List DegradeStep
unfolding insert_step
sort_steps [] = []
sort_steps (s ∷ ss) = insert_step s (sort_steps ss)

module _ {F : Type 0} where
  -- `DegradeAction(action_raw)`
  unfoldable pub degrade_action : Value F → Result DegradeAction
  degrade_action (text s) =
      if str_eq s "warn"
      then ok warn
      else if str_eq s "switch_to_cheap_model"
      then ok switch_to_cheap_model
      else if str_eq s "block"
      then ok block
      else err unknown_action
  degrade_action _ = err unknown_action

  -- One round of the loop: the step that the item states.
  unfoldable pub parse_step : Value F → List ℕ → Result DegradeStep
  unfolding degrade_action reject_unknown require_int
  parse_step (dict item) percents = do
    reject_unknown ("at_percent" ∷ "action" ∷ []) item
    raw_percent ← require_int "at_percent" item
    percent ← in_range raw_percent
    require (not (seen percent percents)) percent_duplicate
    action ← degrade_action (get "action" item)
    ok (record { at_percent = percent; action = action })
  parse_step _ percents = err not_mapping

  -- The loop over the items, with the percentages seen so far.
  unfoldable pub step_loop : Items F → List ℕ → Result (List DegradeStep)
  unfolding parse_step
  step_loop nil percents = ok []
  step_loop (cons item rest) percents = do
    s ← parse_step item percents
    steps ← step_loop rest (s.at_percent ∷ percents)
    ok (s ∷ steps)

  unfoldable pub parse_degrade : Value F → Result (List DegradeStep)
  unfolding step_loop sort_steps
  parse_degrade null = ok []
  parse_degrade (list items) = do steps ← step_loop items []; ok (sort_steps steps)
  parse_degrade _ = err not_list
