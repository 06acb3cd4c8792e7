-- ===== src/Policy/LazyToolExposure/Refines.antt =====
-- `LazyToolExposure` refines the machine of Window.antt: what a run sends depends on the run's own
-- requests and responses only, and is what the machine sends.
use ink_foot.Prelude.{
  ℕ, ◌+◌, String, ◌≡◌, refl, ap, ◌∙◌, inl, inr, Bool, true, false, Option, some, List, [], ◌∷◌,
  arith, eq_iff, str_eq, if◌then◌else◌, Bool-cases, Option-cases,
}
use mathlib.Core.Path.{fun_ext}
use mathlib.Core.Option
use ink_foot.Prelude.Dict.{lookup, lookup-insert}
use ink_foot.Policy.LazyToolExposure.{
  LazyToolExposure, RunToolState, before_call, after_call, narrow, outcome, state_of, refresh_all,
  Dict, Fields, Scan, insert, elem, Value, iterated, get, scan_tools, listed, last_text, scan_start,
  called_tool_names,
}
use ink_foot.Policy.LazyToolExposure.Exposed.{scan-kept, scan-relevance}
use ink_foot.Policy.LazyToolExposure.Window.{
  view_of, view, View, sending, opened, ask_with, sent, ask, advanced, answer, recalled, requests,
  replay, Hook, before, after,
}
use ink_foot.Prelude.Dict.{lookup-insert}

view_of-state_of : (k : String) (p : LazyToolExposure) → view_of (state_of k p) ≡ opened (view k p)
unfolding state_of lookup
view_of-state_of k p = elim (Option-cases (lookup k p.runs)) [
  | inl e ↦ rw (e, state_of) refl
  | inr (s, e) ↦ rw (e, state_of) refl
]

view_same :
    (j k : String) (p : LazyToolExposure) → view k p ≡ (if str_eq j k then view j p else view k p)
view_same j k p = elim (Bool-cases (str_eq j k)) [
  | inl e ↦ rw (e, (eq_iff j k).0 e) refl
  | inr e ↦ rw e refl
]

lookup-refresh_all :
    (k : String) (turn : ℕ) (names : List String) (rel : Dict ℕ)
    → lookup k (refresh_all turn names rel) ≡ (if elem k names then some turn else lookup k rel)
unfolding refresh_all
lookup-refresh_all k turn [] rel = refl
lookup-refresh_all k turn (name ∷ names) rel =
    ground
      (arith, lookup-refresh_all k turn names (insert name turn rel), lookup-insert k name turn rel)

map-if :
    (b : Bool) (s : RunToolState) (o : Option RunToolState)
    → Option.map view_of (if b then some s else o)
      ≡ (if b then some (view_of s) else Option.map view_of o)
map-if true s o = refl
map-if false s o = refl

view-with_state :
    (j k : String) (s : RunToolState) (p : LazyToolExposure)
    → view k (record p { runs = insert j s p.runs })
      ≡ (if str_eq j k then some (view_of s) else view k p)
view-with_state j k s p = rw (lookup-insert k j s p.runs) (map-if (str_eq j k) s (lookup k p.runs))

module _ {F : Type 0} where
  abbrev seen_by : ℕ → Scan F → View
  seen_by turn s = record { turn = turn; relevant = λ k. lookup k s.relevance }

  view-outcome :
      (j k : String) (kwargs : Fields F) (tools : List (Value F)) (turn : ℕ) (s : Scan F)
      (p : LazyToolExposure)
      → view k (outcome j kwargs tools turn s p).policy
        ≡ (if str_eq j k then some (seen_by turn s) else view k p)
  unfolding outcome
  view-outcome j k kwargs tools turn s p = split s.kept refl
    where
      split :
          (l : List (Value F))
          → s.kept ≡ l
          → view k (outcome j kwargs tools turn s p).policy
            ≡ (if str_eq j k then some (seen_by turn s) else view k p)
      split [] e = rw (e, outcome) (view-with_state j k _ p)
      split (_ ∷ _) e = rw (e, outcome) (view-with_state j k _ p)

  kwargs-outcome :
      (j : String) (kwargs : Fields F) (tools : List (Value F)) (turn : ℕ) (s : Scan F)
      (p : LazyToolExposure)
      → (outcome j kwargs tools turn s p).kwargs ≡ sending kwargs tools s.kept
  unfolding outcome
  kwargs-outcome j kwargs tools turn s p = split s.kept refl
    where
      split :
          (l : List (Value F))
          → s.kept ≡ l
          → (outcome j kwargs tools turn s p).kwargs ≡ sending kwargs tools s.kept
      split [] e = rw (e, outcome) refl
      split (_ ∷ _) e = rw (e, outcome, e) refl

module _ {F : Type 0} (is_zero : F → Bool) where
  abbrev asked : String → Fields F → List (Value F) → LazyToolExposure → View × Fields F
  asked j kwargs tools p =
      ask_with is_zero p.stale_after_turns p.core_tools kwargs tools (opened (view j p))

  module _ (k : String) (kwargs : Fields F) (tools messages : List (Value F)) (p : LazyToolExposure)
      (s : RunToolState) where
    abbrev scanned : Scan F
    scanned =
        scan_tools is_zero p.stale_after_turns p.core_tools (s.turn + 1)
          (last_text "user" messages "") (last_text "assistant" messages "") tools (scan_start s)

    scanned-view :
        seen_by (s.turn + 1) scanned
        ≡ advanced is_zero p.stale_after_turns p.core_tools (s.turn + 1) messages tools (view_of s)
    scanned-view =
        ap (λ (g : String → Option ℕ). record { turn = s.turn + 1; relevant = g })
          (fun_ext (
            scan-relevance is_zero p.stale_after_turns p.core_tools (s.turn + 1)
              (last_text "user" messages "") (last_text "assistant" messages "") tools
              (scan_start s)))

    scanned-kept :
        scanned.kept
        ≡ sent is_zero p.stale_after_turns p.core_tools (s.turn + 1) messages tools (view_of s)
    scanned-kept =
        scan-kept is_zero p.stale_after_turns p.core_tools (s.turn + 1)
          (last_text "user" messages "") (last_text "assistant" messages "") tools (scan_start s)

  narrow-ask_with :
      (j k : String) (kwargs : Fields F) (tools : List (Value F)) (p : LazyToolExposure)
      → (view k (narrow is_zero j kwargs tools p).policy
          ≡ (if str_eq j k then some (asked j kwargs tools p).0 else view k p))
        × ((narrow is_zero j kwargs tools p).kwargs ≡ (asked j kwargs tools p).1)
  unfolding narrow ask_with
  narrow-ask_with j k kwargs tools p =
      rw (← view_of-state_of j p) (elim (Option-cases (iterated is_zero (get "messages" kwargs))) [
        | inl e ↦ rw (e, narrow, ask_with) (view-with_state j k _ p, refl)
        | inr (messages, e) ↦
            rw (e, narrow, ask_with)
              (
                view-outcome j k kwargs tools ((state_of j p).turn + 1)
                      (scanned k kwargs tools messages p (state_of j p)) p
                    ∙ ap (λ v. if str_eq j k then some v else view k p)
                        (scanned-view k kwargs tools messages p (state_of j p)),
                kwargs-outcome j kwargs tools ((state_of j p).turn + 1)
                      (scanned k kwargs tools messages p (state_of j p)) p
                    ∙ ap (sending kwargs tools)
                        (scanned-kept k kwargs tools messages p (state_of j p)),
              )
      ])

  before_call-ask :
      (j k : String) (kwargs : Fields F) (p : LazyToolExposure)
      → (view k (before_call is_zero j kwargs p).policy ≡ (
          if str_eq j k
          then (ask is_zero p.stale_after_turns p.core_tools kwargs (view j p)).0
          else view k p))
        × ((before_call is_zero j kwargs p).kwargs
            ≡ (ask is_zero p.stale_after_turns p.core_tools kwargs (view j p)).1)
  unfolding before_call ask
  before_call-ask j k kwargs p = split (listed (get "tools" kwargs)) refl
    where
      split :
          (l : List (Value F))
          → listed (get "tools" kwargs) ≡ l
          → (view k (before_call is_zero j kwargs p).policy ≡ (
              if str_eq j k
              then (ask is_zero p.stale_after_turns p.core_tools kwargs (view j p)).0
              else view k p))
            × ((before_call is_zero j kwargs p).kwargs
                ≡ (ask is_zero p.stale_after_turns p.core_tools kwargs (view j p)).1)
      split [] e = rw (e, before_call, ask) (view_same j k p, refl)
      split (tool ∷ tools) e =
          rw (e, before_call, ask) (narrow-ask_with j k kwargs (tool ∷ tools) p)

  remembered :
      (names : List String) (s : RunToolState)
      → view_of (record s { last_relevant = refresh_all s.turn names s.last_relevant })
        ≡ recalled names (view_of s)
  remembered names s =
      ap (λ (g : String → Option ℕ). record { turn = s.turn; relevant = g })
        (fun_ext (λ k. lookup-refresh_all k s.turn names s.last_relevant))

  after_call-answer :
      (j k : String) (response : Value F) (p : LazyToolExposure)
      → view k (after_call is_zero j response p) ≡ (
          if str_eq j k
          then answer is_zero p.stale_after_turns p.core_tools response (view j p)
          else view k p)
  unfolding after_call answer
  after_call-answer j k response p = elim (Option-cases (called_tool_names is_zero response)) [
    | inl e ↦ rw (e, after_call, answer) (view_same j k p)
    | inr (names, e) ↦ elim (Option-cases (lookup j p.runs)) [
      | inl none_yet ↦
          rw (e, after_call, answer, none_yet)
            (view_same j k p
              ∙ ap (λ o. if str_eq j k then Option.map view_of o else view k p) none_yet)
      | inr (s, started) ↦
          rw (e, after_call, answer, started)
            (view-with_state j k _ p
              ∙ ap (λ v. if str_eq j k then some v else view k p) (remembered names s))
    ]
  ]

  -- The constructor's settings never change.
  abbrev Settings : LazyToolExposure → LazyToolExposure → Type 0
  Settings p q = (q.stale_after_turns ≡ p.stale_after_turns) × (q.core_tools ≡ p.core_tools)

  before_call-Settings :
      (j : String) (kwargs : Fields F) (p : LazyToolExposure)
      → Settings p (before_call is_zero j kwargs p).policy
  unfolding before_call narrow outcome
  before_call-Settings j kwargs p = ground arith

  after_call-Settings :
      (j : String) (response : Value F) (p : LazyToolExposure)
      → Settings p (after_call is_zero j response p)
  unfolding after_call
  after_call-Settings j response p = ground arith

  -- Whatever hooks of all runs come in whatever order, the requests of a run are sent on as the machine
  -- sends them that sees the run's own hooks only, from what the policy remembers of the run.
  pub requests-replay :
      (k : String) (p : LazyToolExposure) (hs : List (Hook F))
      → requests is_zero k p hs ≡ replay is_zero p.stale_after_turns p.core_tools k (view k p) hs
  unfolding requests replay
  requests-replay k p [] = refl
  requests-replay k p (before j kwargs ∷ hs) =
      let set = before_call-Settings j kwargs p in
      let ref = before_call-ask j k kwargs p in
      rw (requests-replay k (before_call is_zero j kwargs p).policy hs, set.0, set.1, ref.0, ref.1)
        (elim (Bool-cases (str_eq j k)) [
          | inl e ↦ rw (e, (eq_iff j k).0 e) refl
          | inr e ↦ rw e refl
        ])
  requests-replay k p (after j response ∷ hs) =
      let set = after_call-Settings j response p in
      rw
        (
          requests-replay k (after_call is_zero j response p) hs,
          set.0,
          set.1,
          after_call-answer j k response p,
        )
        (elim (Bool-cases (str_eq j k)) [
          | inl e ↦ rw (e, (eq_iff j k).0 e) refl
          | inr e ↦ rw e refl
        ])
