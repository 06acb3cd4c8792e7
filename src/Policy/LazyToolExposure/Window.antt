-- ===== src/Policy/LazyToolExposure/Window.antt =====
-- `LazyToolExposure` as a machine on one run: a count of turns and, for each name, the turn at which
-- it was last relevant, as a function.
use ink_foot.Prelude.{
  ℕ, ◌+◌, String, Bool, Option, none, some, List, [], ◌∷◌, ◌++◌, ◌==◌, str_eq, if◌then◌else◌,
}
use mathlib.Core.Option
use ink_foot.Prelude.Dict.{lookup}
use ink_foot.Policy.LazyToolExposure.{
  LazyToolExposure, RunToolState, before_call, after_call, elem, Fields, last_text, Value,
  called_tool_names, iterated, length, listed, get, replace, list, to_items,
}
use ink_foot.Policy.LazyToolExposure.Exposed.{passing, after_turn}

-- What a run remembers.
pub record View : Type 0 where
  pub turn : ℕ
  pub relevant : String → Option ℕ

abbrev pub view_of : RunToolState → View
view_of s = record { turn = s.turn; relevant = λ k. lookup k s.last_relevant }

abbrev pub view : String → LazyToolExposure → Option View
view run_id p = Option.map view_of (lookup run_id p.runs)

-- A run that has not asked yet has no turns and knows no names.
abbrev pub opened : Option View → View
opened none = record { turn = 0; relevant = λ _. none }
opened (some v) = v

abbrev pub recalled : List String → View → View
recalled names v = record v { relevant = λ k. if elem k names then some v.turn else v.relevant k }

-- The request with the tools that are sent, or as it is where they are none or all.
abbrev pub sending : {F : Type 0} → Fields F → List (Value F) → List (Value F) → Fields F
sending kwargs tools [] = kwargs
sending kwargs tools (tool ∷ kept) =
    if length (tool ∷ kept) == length tools
    then kwargs
    else replace "tools" (list (to_items (tool ∷ kept))) kwargs

module _ {F : Type 0} (is_zero : F → Bool) (stale : ℕ) (core : List String) where
  -- The tools that a turn sends, given what the run remembers.
  abbrev pub sent : ℕ → List (Value F) → List (Value F) → View → List (Value F)
  sent turn messages tools v =
      passing is_zero stale core turn (last_text "user" messages "")
        (last_text "assistant" messages "") v.relevant tools

  abbrev pub advanced : ℕ → List (Value F) → List (Value F) → View → View
  advanced turn messages tools v = record {
    turn = turn;
    relevant =
        after_turn is_zero stale core turn (last_text "user" messages "")
          (last_text "assistant" messages "") tools v.relevant;
  }

  unfoldable pub ask_with : Fields F → List (Value F) → View → View × Fields F
  ask_with kwargs tools v = elim (iterated is_zero (get "messages" kwargs)) [
    | none ↦ (record v { turn = v.turn + 1 }, kwargs)
    | some messages ↦ (
      advanced (v.turn + 1) messages tools v,
      sending kwargs tools (sent (v.turn + 1) messages tools v),
    )
  ]

  -- A request of the run, and the request that is sent.
  unfoldable pub ask : Fields F → Option View → Option View × Fields F
  ask kwargs o = elim (listed (get "tools" kwargs)) [
    | [] ↦ (o, kwargs)
    | tool ∷ tools ↦
        let (v, kwargs') = ask_with kwargs (tool ∷ tools) (opened o) in (some v, kwargs')
  ]

  -- A response of the run.
  unfoldable pub answer : Value F → Option View → Option View
  answer response o = elim (called_tool_names is_zero response) [
    | none ↦ o
    | some names ↦ Option.map (recalled names) o
  ]

-- The hooks that the calls of a process run, in their order.
pub data Hook (F : Type 0) : Type 0 where
  before : String → Fields F → Hook F
  after : String → Value F → Hook F

module _ {F : Type 0} (is_zero : F → Bool) where
  -- The requests of a run as the policy sends them on.
  unfoldable pub requests : String → LazyToolExposure → List (Hook F) → List (Fields F)
  unfolding before_call after_call
  requests k p [] = []
  requests k p (before j kwargs ∷ hs) =
      let o = before_call is_zero j kwargs p in
      (if str_eq j k then o.kwargs ∷ [] else []) ++ requests k o.policy hs
  requests k p (after j response ∷ hs) = requests k (after_call is_zero j response p) hs

  module _ (stale : ℕ) (core : List String) (k : String) where
    -- The same, from what the run remembers; other runs do not matter.
    unfoldable pub replay : Option View → List (Hook F) → List (Fields F)
    unfolding ask answer
    replay o [] = []
    replay o (before j kwargs ∷ hs) =
        let (o', kwargs') = ask is_zero stale core kwargs o in
        let mine = kwargs' ∷ replay o' hs in
        let others = replay o hs in if str_eq j k then mine else others
    replay o (after j response ∷ hs) =
        let mine = replay (answer is_zero stale core response o) hs in
        let others = replay o hs in if str_eq j k then mine else others
