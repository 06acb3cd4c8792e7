-- ===== src/Lifecycle/Marks.antt =====
-- What a user says about the active run: `set_outcome`, `tag`, `tag_node`, `checkpoint` and
-- `tag_retrieval` of inkfoot/_run_lifecycle.py. An argument of a wrong type (`TypeError`) is ruled out by
-- the types, but for the value of a tag.
use ink_foot.Prelude.Int.{pos, ◌+ℤ◌}
use ink_foot.Prelude.{
  ℕ, String, Bool, true, false, not, ◌&&◌, ◌||◌, Option, none, some, List, [], ◌∷◌, str_eq,
  if◌then◌else◌,
}
use ink_foot.Prelude.Lists.{elem}
use ink_foot.Float.{Float}
use ink_foot.Value.{Value, null, real, text, list, dict}
use ink_foot.Normalise.{InMemoryRunState}
use ink_foot.Storage.{Store, Event}
use ink_foot.Contracts.Enforcer.{ContractViolation}
use ink_foot.Contracts.Runtime.Outcomes.{notify_outcome}
use ink_foot.Lifecycle.{
  Process, Stamp, Signal, returned, value_error, type_error, no_active_run, object, emit_event,
  get_or_create_run_state, set_run_state, under_contracts,
}

-- `_VALID_OUTCOMES`
abbrev pub valid_outcomes : List String
valid_outcomes = "success" ∷ "accepted_answer" ∷ "failure" ∷ "human_escalated" ∷ []

abbrev pub when_returned :
    {F : Type 0} → (Process F → Process F) → Process F × Signal → Process F × Signal
when_returned g (p, returned) = (g p, returned)
when_returned g (p, signal) = (p, signal)

abbrev pub cleaned : Option String → Option String
cleaned none = none
cleaned (some name) = if str_eq name "" then none else some name

module _ {F : Type 0} where
  -- A JSON scalar, as `tag` accepts it.
  abbrev pub is_scalar : Value F → Bool
  is_scalar (list vs) = false
  is_scalar (dict fs) = false
  is_scalar _ = true

  -- An operation on the active run.
  abbrev pub on_active : (String → Process F → Process F × Signal) → Process F → Process F × Signal
  on_active op p = elim p.current_run [ none ↦ (p, no_active_run) | some run_id ↦ op run_id p ]

  module _ (dumps : Value F → String) where
    -- `tag`
    unfoldable pub tag : Stamp → String → Value F → Process F → Process F × Signal
    unfolding emit_event
    tag stamp key value p =
        if str_eq key ""
        then (p, value_error)
        else if not (is_scalar value)
        then (p, type_error)
        else on_active
            (λ run_id p.
              emit_event dumps stamp run_id "user_tag"
                (object (("key", text key) ∷ ("value", value) ∷ [])) p)
            p

    -- `checkpoint`, with `str.strip` from outside
    unfoldable pub checkpoint : (String → String) → Stamp → String → Process F → Process F × Signal
    unfolding emit_event
    checkpoint strip stamp label p =
        if str_eq (strip label) ""
        then (p, value_error)
        else on_active
            (λ run_id p.
              emit_event dumps stamp run_id "checkpoint"
                (object (("label", text (strip label)) ∷ [])) p)
            p

  abbrev pub change_state :
      (InMemoryRunState → InMemoryRunState) → String → Process F → Process F × Signal
  change_state g run_id p =
      let (s, p') = get_or_create_run_state run_id p in (set_run_state run_id (g s) p', returned)

  -- `tag_node`
  unfoldable pub tag_node : Option String → Process F → Process F × Signal
  unfolding get_or_create_run_state
  tag_node name p = on_active (change_state (λ s. record s { node_name = cleaned name })) p

  -- `tag_retrieval`, with the tokeniser from outside
  unfoldable pub tag_retrieval : (String → ℕ) → String → Process F → Process F × Signal
  unfolding get_or_create_run_state
  tag_retrieval encode txt p =
      on_active
        (λ run_id p.
          if str_eq txt ""
          then (p, returned)
          else change_state
              (λ s. record s {
                pending_retrieved_context_tokens =
                    s.pending_retrieved_context_tokens +ℤ pos (encode txt);
              })
              run_id p)
        p

module _ (f : Float) (loads : String → Option (Value (f.F)))
    (event_of : String → ContractViolation (f.F) → Store → Event)
    (dumps : Value (f.F) → String) where
  open f use {F, leb, of_int}

  abbrev pub score_in_range : Option F → Bool
  score_in_range none = true
  score_in_range (some x) = leb (of_int (pos 0)) x && leb x (of_int (pos 1))

  abbrev pub score_value : Option F → Value F
  score_value none = null
  score_value (some x) = real x

  -- `set_outcome`
  unfoldable pub set_outcome : Stamp → String → Option F → Process F → Process F × Signal
  unfolding emit_event under_contracts notify_outcome
  set_outcome stamp outcome score p =
      if not (elem outcome valid_outcomes) || not (score_in_range score)
      then (p, value_error)
      else on_active
          (λ run_id p.
            when_returned (under_contracts (notify_outcome f loads event_of run_id outcome)) (
              emit_event dumps stamp run_id "outcome"
                (object (("outcome", text outcome) ∷ ("quality_score", score_value score) ∷ [])) p))
          p
