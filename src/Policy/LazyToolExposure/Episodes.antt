-- ===== src/Policy/LazyToolExposure/Episodes.antt =====
-- The events of `LazyToolExposure`: a tool is restored only after it was dropped.
use ink_foot.Prelude.{
  ℕ, ◌+◌, ◌≤◌, String, ◌≡◌, refl, ap, inl, inr, Bool, false, some, List, [], ◌∷◌, arith, eq_refl,
  str_eq, if◌then◌else◌, Bool-cases, Option-cases,
}
use ink_foot.Prelude.Dict.{lookup, insert, lookup-insert}
use ink_foot.Prelude.Lists.{count, count-append, elem, length-append}
use ink_foot.Policy.LazyToolExposure.Window.{Hook, before, after}
use ink_foot.Policy.{elem-discard, eq_iff}
use ink_foot.Policy.LazyToolExposure.{
  LazyToolExposure, RunToolState, before_call, after_call, narrow, outcome, state_of, Scan, expose,
  withhold, length, Value, scan_tools, scan_tool, Outcome, Fields, scan_named, scan_start, refresh,
  tool_name, listed, iterated, called_tool_names, get,
}

-- Whether a name is withheld at present, as a number.
abbrev pub present : String → List String → ℕ
present n names = if elem n names then 1 else 0

-- What is withheld of a run.
abbrev pub held : String → String → LazyToolExposure → ℕ
held n k p = present n (state_of k p).dropped

state_of-insert :
    (j k : String) (s : RunToolState) (p : LazyToolExposure)
    → state_of k (record p { runs = insert j s p.runs }) ≡ (if str_eq j k then s else state_of k p)
unfolding state_of
state_of-insert j k s p = ground (arith, lookup-insert k j s p.runs)

state_of-some :
    (j : String) (s : RunToolState) (p : LazyToolExposure)
    → lookup j p.runs ≡ some s
    → state_of j p ≡ s
unfolding state_of
state_of-some j s p started = rw (started, state_of) refl

count_none : (n : String) (names : List String) → length names ≡ 0 → count n names ≡ 0
count_none n [] h = refl
count_none n (x ∷ xs) h = absurd (omega arith)

module _ {F : Type 0} (n : String) where
  -- From one scan to the next, what the events say of a name is what becomes of it.
  abbrev Balanced : Scan F → Scan F → Type 0
  Balanced s s' =
      (count n s'.newly_dropped + present n s.withheld + count n s.restored
        ≡ count n s'.restored + present n s'.withheld + count n s.newly_dropped)
      × (length s'.restored + length s.kept ≤ length s.restored + length s'.kept)

  expose-Balanced : (tool : Value F) (name : String) (s : Scan F) → Balanced s (expose tool name s)
  unfolding expose
  expose-Balanced tool name s = ground (
    arith,
    elem-discard n name s.withheld,
    count-append n s.restored (name ∷ []),
    length-append s.restored (name ∷ []),
    length-append s.kept (tool ∷ []),
    eq_iff name n,
  )

  withhold-Balanced : (name : String) (s : Scan F) → Balanced s (withhold name s)
  unfolding withhold
  withhold-Balanced name s =
      ground (arith, count-append n s.newly_dropped (name ∷ []), eq_iff name n)

  module _ (is_zero : F → Bool) (stale : ℕ) (core : List String) (turn : ℕ)
      (question assistant : String) where
    scan_tool-Balanced :
        (tool : Value F) (s : Scan F)
        → Balanced s (scan_tool is_zero stale core turn question assistant tool s)
    unfolding scan_tool scan_named
    scan_tool-Balanced tool s =
        let seen : Scan F = record s {
          relevance = refresh turn question assistant (tool_name tool) s.relevance;
        } in
        ground (
          arith,
          expose-Balanced tool (tool_name tool) seen,
          withhold-Balanced (tool_name tool) seen,
          length-append s.kept (tool ∷ []),
        )

    scan_tools-Balanced :
        (tools : List (Value F)) (s : Scan F)
        → Balanced s (scan_tools is_zero stale core turn question assistant tools s)
    unfolding scan_tools
    scan_tools-Balanced [] s = ground arith
    scan_tools-Balanced (tool ∷ tools) s =
        let next = scan_tool is_zero stale core turn question assistant tool s in
        let one = scan_tool-Balanced tool s in
        let rest = scan_tools-Balanced tools next in omega (arith, one, rest)

  -- What a request announces of a name for its own run covers what becomes of the name there.
  abbrev Covered : String → LazyToolExposure → Outcome F → Type 0
  Covered j p o = count n o.restored + held n j o.policy ≤ count n o.dropped + held n j p

  outcome-Covered :
      (j : String) (kwargs : Fields F) (tools : List (Value F)) (turn : ℕ) (s : Scan F)
      (p : LazyToolExposure)
      → Balanced (scan_start (state_of j p)) s
      → Covered j p (outcome j kwargs tools turn s p)
  unfolding outcome
  outcome-Covered j kwargs tools turn s p b = split s.kept refl
    where
      split : (l : List (Value F)) → s.kept ≡ l → Covered j p (outcome j kwargs tools turn s p)
      split [] e =
          rw (e, outcome)
            (rw (state_of-insert j j _ p, eq_refl j)
              (omega (arith, count_none n s.restored (omega (arith, ap length e)))))
      split (_ ∷ _) e = rw (e, outcome) (rw (state_of-insert j j _ p, eq_refl j) (omega arith))

  outcome_others :
      (j k : String) (kwargs : Fields F) (tools : List (Value F)) (turn : ℕ) (s : Scan F)
      (p : LazyToolExposure)
      → str_eq j k ≡ false
      → held n k (outcome j kwargs tools turn s p).policy ≡ held n k p
  unfolding outcome
  outcome_others j k kwargs tools turn s p other = split s.kept refl
    where
      split :
          (l : List (Value F))
          → s.kept ≡ l
          → held n k (outcome j kwargs tools turn s p).policy ≡ held n k p
      split [] e = rw (e, outcome) (rw (state_of-insert j k _ p, other) refl)
      split (_ ∷ _) e = rw (e, outcome) (rw (state_of-insert j k _ p, other) refl)

  module _ (is_zero : F → Bool) where
    narrow-Covered :
        (j : String) (kwargs : Fields F) (tools : List (Value F)) (p : LazyToolExposure)
        → Covered j p (narrow is_zero j kwargs tools p)
    unfolding narrow
    narrow-Covered j kwargs tools p =
        elim (Option-cases (iterated is_zero (get "messages" kwargs))) [
          | inl e ↦ rw (e, narrow) (rw (state_of-insert j j _ p, eq_refl j) (omega arith))
          | inr (messages, e) ↦
              rw (e, narrow)
                (outcome-Covered j kwargs tools _ _ p
                  (scan_tools-Balanced is_zero _ _ _ _ _ tools (scan_start (state_of j p))))
        ]

    narrow_others :
        (j k : String) (kwargs : Fields F) (tools : List (Value F)) (p : LazyToolExposure)
        → str_eq j k ≡ false
        → held n k (narrow is_zero j kwargs tools p).policy ≡ held n k p
    unfolding narrow
    narrow_others j k kwargs tools p other =
        elim (Option-cases (iterated is_zero (get "messages" kwargs))) [
          | inl e ↦ rw (e, narrow) (rw (state_of-insert j k _ p, other) refl)
          | inr (messages, e) ↦ rw (e, narrow) (outcome_others j k kwargs tools _ _ p other)
        ]

    before_call-Covered :
        (j : String) (kwargs : Fields F) (p : LazyToolExposure)
        → Covered j p (before_call is_zero j kwargs p)
    unfolding before_call
    before_call-Covered j kwargs p = split (listed (get "tools" kwargs)) refl
      where
        split :
            (l : List (Value F))
            → listed (get "tools" kwargs) ≡ l
            → Covered j p (before_call is_zero j kwargs p)
        split [] e = rw (e, before_call) (omega arith)
        split (tool ∷ tools) e = rw (e, before_call) (narrow-Covered j kwargs (tool ∷ tools) p)

    before_call_others :
        (j k : String) (kwargs : Fields F) (p : LazyToolExposure)
        → str_eq j k ≡ false
        → held n k (before_call is_zero j kwargs p).policy ≡ held n k p
    unfolding before_call
    before_call_others j k kwargs p other = split (listed (get "tools" kwargs)) refl
      where
        split :
            (l : List (Value F))
            → listed (get "tools" kwargs) ≡ l
            → held n k (before_call is_zero j kwargs p).policy ≡ held n k p
        split [] e = rw (e, before_call) refl
        split (tool ∷ tools) e =
            rw (e, before_call) (narrow_others j k kwargs (tool ∷ tools) p other)

    held-after_call :
        (j k : String) (response : Value F) (p : LazyToolExposure)
        → held n k (after_call is_zero j response p) ≡ held n k p
    unfolding after_call
    held-after_call j k response p = elim (Option-cases (called_tool_names is_zero response)) [
      | inl e ↦ rw (e, after_call) refl
      | inr (names, e) ↦ elim (Option-cases (lookup j p.runs)) [
        | inl none_yet ↦ rw (e, after_call, none_yet) refl
        | inr (s, started) ↦
            rw (e, after_call, started)
              (rw (state_of-insert j k _ p) (elim (Bool-cases (str_eq j k)) [
                | inl same ↦ rw (same, ← (eq_iff j k).0 same, state_of-some j s p started) refl
                | inr other ↦ rw other refl
              ]))
      ]
    ]

    -- How often a run's requests announce that a name is dropped, or restored.
    unfoldable pub drops : String → LazyToolExposure → List (Hook F) → ℕ
    unfolding before_call after_call
    drops k p [] = 0
    drops k p (before j kwargs ∷ hs) =
        let o = before_call is_zero j kwargs p in
        (if str_eq j k then count n o.dropped else 0) + drops k o.policy hs
    drops k p (after j response ∷ hs) = drops k (after_call is_zero j response p) hs

    unfoldable pub restorations : String → LazyToolExposure → List (Hook F) → ℕ
    unfolding before_call after_call
    restorations k p [] = 0
    restorations k p (before j kwargs ∷ hs) =
        let o = before_call is_zero j kwargs p in
        (if str_eq j k then count n o.restored else 0) + restorations k o.policy hs
    restorations k p (after j response ∷ hs) = restorations k (after_call is_zero j response p) hs

    unfoldable pub after_hooks : LazyToolExposure → List (Hook F) → LazyToolExposure
    after_hooks p [] = p
    after_hooks p (before j kwargs ∷ hs) = after_hooks (before_call is_zero j kwargs p).policy hs
    after_hooks p (after j response ∷ hs) = after_hooks (after_call is_zero j response p) hs

    -- Whatever hooks of all runs come in whatever order, the events of a run restore a name no more often
    -- than they drop it, and the names withheld now are covered: the restorations, with one more if the
    -- name is withheld at the end, are at most the drops, with one more if it was withheld at the start.
    pub restorations_covered :
        (k : String) (p : LazyToolExposure) (hs : List (Hook F))
        → restorations k p hs + held n k (after_hooks p hs) ≤ drops k p hs + held n k p
    unfolding drops restorations after_hooks
    restorations_covered k p [] = omega arith
    restorations_covered k p (before j kwargs ∷ hs) =
        let rest = restorations_covered k (before_call is_zero j kwargs p).policy hs in
        elim (Bool-cases (str_eq j k)) [
          | inl same ↦
              let e = (eq_iff j k).0 same in
              rw same (
                omega (
                  arith,
                  rest,
                  before_call-Covered j kwargs p,
                  ap (λ i. held n i p) e,
                  ap (λ i. held n i (before_call is_zero j kwargs p).policy) e,
                ))
          | inr other ↦ rw other (omega (arith, rest, before_call_others j k kwargs p other))
        ]
    restorations_covered k p (after j response ∷ hs) = omega (
      arith,
      restorations_covered k (after_call is_zero j response p) hs,
      held-after_call j k response p,
    )
