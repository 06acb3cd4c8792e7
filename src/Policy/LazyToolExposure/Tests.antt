-- ===== src/Policy/LazyToolExposure/Tests.antt =====
-- Turns of inkfoot/policy/lazy_tool_exposure.py with two tools, and its theorems there.
use ink_foot.Prelude.Int.{ℤ}
use ink_foot.Prelude.{◌+◌, ◌≤◌, String, ◌≡◌, refl, Bool, false, List, [], ◌∷◌}
use ink_foot.Policy.Tools.{mentions}
use ink_foot.Value.{Value, text, list, dict, Items, nil, cons, Fields, end, field, Key}
use ink_foot.Policy.LazyToolExposure.{LazyToolExposure}
use ink_foot.Policy.LazyToolExposure.Window.{Hook, before, after, requests, replay, view}
use ink_foot.Policy.LazyToolExposure.Refines.{requests-replay}
use ink_foot.Policy.LazyToolExposure.Episodes.{
  drops, restorations, held, after_hooks, restorations_covered,
}

abbrev no_zero : ℤ → Bool
no_zero _ = false

abbrev tool : String → Value ℤ
tool name = dict (field (Key.name "name") (text name) end)

abbrev asks : String → Items ℤ → Fields ℤ
asks question tools = field (Key.name "tools") (list tools) (
    field (Key.name "messages")
      (list (
        cons
          (dict (
            field (Key.name "role") (text "user") (field (Key.name "content") (text question) end)))
          nil))
      end)

abbrev both : Items ℤ
both = cons (tool "search") (cons (tool "fetch") nil)

abbrev only_fetch : Items ℤ
only_fetch = cons (tool "fetch") nil

abbrev only_search : Items ℤ
only_search = cons (tool "search") nil

-- A window of one turn.
abbrev narrow_window : LazyToolExposure
narrow_window = record { stale_after_turns = 1; core_tools = []; runs = [] }

-- A response that calls `search`.
abbrev calls_search : Value ℤ
calls_search = dict (
    field (Key.name "content")
      (list (
        cons
          (dict (
            field (Key.name "type") (text "tool_use")
              (field (Key.name "name") (text "search") end)))
          nil))
      end)

-- `fetch` is stale in the third turn and comes back when the question names it, as `search` goes.
abbrev turns : List (Hook ℤ)
turns =
    before "r" (asks "hello" both)
    ∷ before "other" (asks "fetch" both)
    ∷ after "r" calls_search
    ∷ before "r" (asks "more" both)
    ∷ after "r" calls_search
    ∷ before "r" (asks "again" both)
    ∷ before "r" (asks "now fetch it" both)
    ∷ []

narrows_the_third :
    requests no_zero "r" narrow_window turns
    ≡ asks "hello" both
      ∷ asks "more" both
      ∷ asks "again" only_search
      ∷ asks "now fetch it" only_fetch
      ∷ []
unfolding requests mentions
narrows_the_third = refl

drops_once : drops "fetch" no_zero "r" narrow_window turns ≡ 1
unfolding drops mentions
drops_once = refl

restores_once : restorations "fetch" no_zero "r" narrow_window turns ≡ 1
unfolding restorations mentions
restores_once = refl

requests-replay_example :
    requests no_zero "r" narrow_window turns
    ≡ replay no_zero 1 [] "r" (view "r" narrow_window) turns
requests-replay_example = requests-replay no_zero "r" narrow_window turns

restorations_covered_example :
    restorations "fetch" no_zero "r" narrow_window turns
      + held "fetch" "r" (after_hooks "fetch" no_zero narrow_window turns)
    ≤ drops "fetch" no_zero "r" narrow_window turns + held "fetch" "r" narrow_window
restorations_covered_example = restorations_covered "fetch" no_zero "r" narrow_window turns
