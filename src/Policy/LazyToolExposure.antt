-- ===== src/Policy/LazyToolExposure.antt =====
-- `LazyToolExposure` of inkfoot/policy/lazy_tool_exposure.py: the relevance window of each run, the
-- loop over the tools of a turn, and the two hooks. The lock makes each hook one step.
pub mod Exposed
pub mod Window
pub mod Refines
pub mod Episodes
mod Tests
use ink_foot.Prelude.Int.{ℤ, pos, negsuc, ◌+ℤ◌, ◌-ℤ◌, ◌≤ℤ◌, ltb_ℤ, leb_ℤ}
use ink_foot.Prelude.{
  ℕ, zero, suc, ◌+◌, ◌-◌, ◌*◌, ◌/◌, ◌%◌, ◌≤◌, ◌<◌, String, ◌≡◌, refl, sym, ap, ◌∙◌, ◌≢◌, ◌⊎◌, inl,
  inr, Bool, true, false, not, ◌&&◌, ◌||◌, Option, none, some, List, [], ◌∷◌, ◌++◌, map, arith,
  eq_iff, eq_refl, ltb, leb, ◌==◌, str_eq, if◌then◌else◌, Bool-cases, Option-cases,
}
use mathlib.Core.Option
use ink_foot.Prelude.Dict.{Dict, lookup, insert}
use ink_foot.Value.{Value, text, list, dict, Fields, find, get}
use ink_foot.Value.Truth.{
  truthy, iterated, to_list, to_items, is_text, attr, replace, text_or_empty,
}
use ink_foot.Prelude.Texts.{join, search_word}
use ink_foot.Prelude.Lists.{elem, length}
use ink_foot.Policy.{discard}
use ink_foot.Policy.Tools.{
  last_text, tool_name, called_tool_names, listed, mentions, is_core_tagged,
}

pub record RunToolState : Type 0 where
  pub turn : ℕ
  pub last_relevant : Dict ℕ
  pub dropped : List String

-- `_RunToolState()`
abbrev pub new_state : RunToolState
new_state = record { turn = 0; last_relevant = []; dropped = [] }

pub record LazyToolExposure : Type 0 where
  pub stale_after_turns : ℕ
  pub core_tools : List String
  pub runs : Dict RunToolState

-- `LazyToolExposure.__init__`, for an int and strings; its two exceptions are `none`.
abbrev pub lazy_tool_exposure : ℤ → List String → Option LazyToolExposure
lazy_tool_exposure (pos (suc n)) names =
    if elem "" names
    then none
    else some (record { stale_after_turns = suc n; core_tools = names; runs = [] })
lazy_tool_exposure _ names = none

-- The loop of `before_call` over the offered tools: what it has kept and changed so far.
pub record Scan (F : Type 0) : Type 0 where
  pub relevance : Dict ℕ
  pub withheld : List String
  pub kept : List (Value F)
  pub newly_dropped : List String
  pub restored : List String

-- What `before_call` leaves: the policy, the request, and the names in its two events.
pub record Outcome (F : Type 0) : Type 0 where
  pub policy : LazyToolExposure
  pub kwargs : Fields F
  pub dropped : List String
  pub restored : List String

abbrev pub mentioned : String → String → String → Bool
mentioned question assistant name = mentions question name || mentions assistant name

module _ (turn : ℕ) (question assistant : String) where
  -- A tool offered for the first time is fresh as of this turn, and so is a mentioned one.
  unfoldable pub refresh : String → Dict ℕ → Dict ℕ
  unfolding lookup insert
  refresh name last_relevant =
      let seen : Dict ℕ = elim (lookup name last_relevant) [
        | none ↦ insert name turn last_relevant
        | some _ ↦ last_relevant
      ] in
      if mentioned question assistant name then insert name turn seen else seen

unfoldable pub refresh_all : ℕ → List String → Dict ℕ → Dict ℕ
unfolding insert
refresh_all turn [] last_relevant = last_relevant
refresh_all turn (name ∷ names) last_relevant =
    refresh_all turn names (insert name turn last_relevant)

-- `turn - last <= stale_after_turns`, over the integers; `refresh` has entered the name.
abbrev pub is_fresh : ℕ → ℕ → Option ℕ → Bool
is_fresh stale turn none = true
is_fresh stale turn (some last) = leb turn (last + stale)

-- `self._runs.setdefault(run_id, _RunToolState())`
unfoldable pub state_of : String → LazyToolExposure → RunToolState
unfolding lookup
state_of run_id p = elim (lookup run_id p.runs) [ none ↦ new_state | some s ↦ s ]

abbrev pub with_state : String → RunToolState → LazyToolExposure → LazyToolExposure
with_state run_id s p = record p { runs = insert run_id s p.runs }

module _ {F : Type 0} where
  abbrev pub keep : Value F → Scan F → Scan F
  keep tool s = record s { kept = s.kept ++ tool ∷ [] }

  unfoldable pub expose : Value F → String → Scan F → Scan F
  expose tool name s =
      if elem name s.withheld
      then keep tool
          (record s { withheld = discard name s.withheld; restored = s.restored ++ name ∷ [] })
      else keep tool s

  unfoldable pub withhold : String → Scan F → Scan F
  withhold name s =
      if elem name s.withheld
      then s
      else record s { withheld = name ∷ s.withheld; newly_dropped = s.newly_dropped ++ name ∷ [] }

  -- The request keeps its list where nothing would be left of it or nothing is dropped.
  unfoldable pub outcome :
      String → Fields F → List (Value F) → ℕ → Scan F → LazyToolExposure → Outcome F
  unfolding insert replace
  outcome run_id kwargs tools turn s p = elim s.kept [
    | [] ↦ record {
      policy =
          with_state run_id (record { turn = turn; last_relevant = s.relevance; dropped = [] }) p;
      kwargs = kwargs;
      dropped = [];
      restored = s.restored;
    }
    | _ ∷ _ ↦ record {
      policy =
          with_state run_id
            (record { turn = turn; last_relevant = s.relevance; dropped = s.withheld }) p;
      kwargs =
          if length s.kept == length tools
          then kwargs
          else replace "tools" (list (to_items s.kept)) kwargs;
      dropped = s.newly_dropped;
      restored = s.restored;
    }
  ]

  abbrev pub scan_start : RunToolState → Scan F
  scan_start s = record {
    relevance = s.last_relevant;
    withheld = s.dropped;
    kept = [];
    newly_dropped = [];
    restored = [];
  }

  abbrev pub untouched : Fields F → LazyToolExposure → Outcome F
  untouched kwargs p = record { policy = p; kwargs = kwargs; dropped = []; restored = [] }

module _ {F : Type 0} (is_zero : F → Bool) where
  abbrev pub is_core : List String → Value F → Bool
  is_core core tool = elem (tool_name tool) core || is_core_tagged is_zero tool

  module _ (stale : ℕ) (core : List String) (turn : ℕ) (question assistant : String) where
    unfoldable pub scan_named : Value F → Dict ℕ → Scan F → Scan F
    unfolding lookup expose withhold tool_name is_core_tagged
    scan_named tool relevance s =
        if is_core core tool || is_fresh stale turn (lookup (tool_name tool) relevance)
        then expose tool (tool_name tool) (record s { relevance = relevance })
        else withhold (tool_name tool) (record s { relevance = relevance })

    -- The body of the loop: a tool without a name cannot be classified.
    unfoldable pub scan_tool : Value F → Scan F → Scan F
    unfolding scan_named refresh tool_name
    scan_tool tool s =
        if str_eq (tool_name tool) ""
        then keep tool s
        else scan_named tool (refresh turn question assistant (tool_name tool) s.relevance) s

    unfoldable pub scan_tools : List (Value F) → Scan F → Scan F
    unfolding scan_tool
    scan_tools [] s = s
    scan_tools (tool ∷ tools) s = scan_tools tools (scan_tool tool s)

  -- A turn that carries tools. Where going through the messages raises, the turn is counted already.
  unfoldable pub narrow : String → Fields F → List (Value F) → LazyToolExposure → Outcome F
  unfolding state_of outcome scan_tools last_text find
  narrow run_id kwargs tools p =
      let s = state_of run_id p in
      let turn = s.turn + 1 in
      elim (iterated is_zero (get "messages" kwargs)) [
        | none ↦ untouched kwargs (with_state run_id (record s { turn = turn }) p)
        | some messages ↦
            outcome run_id kwargs tools turn
              (scan_tools p.stale_after_turns p.core_tools turn (last_text "user" messages "")
                (last_text "assistant" messages "") tools (scan_start s))
              p
      ]

  -- `before_call`
  unfoldable pub before_call : String → Fields F → LazyToolExposure → Outcome F
  unfolding narrow find
  before_call run_id kwargs p = elim (listed (get "tools" kwargs)) [
    | [] ↦ untouched kwargs p
    | tool ∷ tools ↦ narrow run_id kwargs (tool ∷ tools) p
  ]

  -- `after_call`; what raises is absorbed and changes nothing.
  unfoldable pub after_call : String → Value F → LazyToolExposure → LazyToolExposure
  unfolding called_tool_names lookup refresh_all insert
  after_call run_id response p = elim (called_tool_names is_zero response) [
    | none ↦ p
    | some names ↦ elim (lookup run_id p.runs) [
      | none ↦ p
      | some s ↦
          with_state run_id (record s { last_relevant = refresh_all s.turn names s.last_relevant })
            p
    ]
  ]
