-- ===== src/Policy/LazyToolExposure/Exposed.antt =====
-- The loop of `LazyToolExposure.before_call` against a test on single tools: which tools of a turn
-- are kept does not depend on what the loop has changed before it reaches them.
use ink_foot.Prelude.{
  ℕ, ◌+◌, ◌≡◌, refl, sym, ap, ◌∙◌, inl, inr, Bool, true, false, not, ◌&&◌, ◌||◌, Option, none, some,
  List, [], ◌∷◌, ◌++◌, arith, eq_iff, eq_refl, str_eq, if◌then◌else◌, Option-cases, le→leb,
}
use mathlib.Core.List.{append-nil, append_assoc}
use Prim.Native.String.{String}
use ink_foot.Prelude.Dict.{Dict, lookup, insert, lookup-insert}
use ink_foot.Prelude.Lists.{select, select_cong}
use ink_foot.Policy.LazyToolExposure.{
  Scan, mentioned, refresh, is_fresh, is_core, scan_tools, scan_tool, scan_named, Value, expose,
  tool_name, withhold,
}

module _ (turn : ℕ) (question assistant : String) where
  -- The turn at which a name is relevant once a turn has offered it.
  unfoldable pub touched : String → Option ℕ → Option ℕ
  touched name none = some turn
  touched name (some last) = if mentioned question assistant name then some turn else some last

  pub touched_idem : (name : String) (o : Option ℕ) → touched name (touched name o) ≡ touched name o
  unfolding touched
  touched_idem name none = ground arith
  touched_idem name (some last) = ground arith

  pub lookup-refresh :
      (k name : String) (rel : Dict ℕ)
      → lookup k (refresh turn question assistant name rel)
        ≡ (if str_eq name k then touched name (lookup name rel) else lookup k rel)
  unfolding refresh touched
  lookup-refresh k name rel = elim (Option-cases (lookup name rel)) [
    | inl e ↦ rw e (
        ground (
          arith,
          eq_iff name k,
          lookup-insert k name turn rel,
          lookup-insert k name turn (insert name turn rel),
        ))
    | inr (last, e) ↦ rw e (ground (arith, eq_iff name k, lookup-insert k name turn rel))
  ]

-- Whether a turn offers a tool of this name.
abbrev pub offers : {F : Type 0} → String → List (Value F) → Bool
offers k [] = false
offers k (tool ∷ tools) =
    (not (str_eq (tool_name tool) "") && str_eq (tool_name tool) k) || offers k tools

module _ {F : Type 0} (is_zero : F → Bool) (stale : ℕ) (core : List String) (turn : ℕ)
    (question assistant : String) where
  abbrev scan1 : Value F → Scan F → Scan F
  scan1 = scan_tool is_zero stale core turn question assistant

  abbrev pub scan : List (Value F) → Scan F → Scan F
  scan = scan_tools is_zero stale core turn question assistant

  -- The test on one tool, given when its name was relevant before the turn: it has no name, is core, is
  -- mentioned, or is still in the window; a name that was never relevant is new.
  abbrev pub exposed : Option ℕ → Value F → Bool
  exposed o tool =
      str_eq (tool_name tool) ""
      || is_core is_zero core tool
      || mentioned question assistant (tool_name tool)
      || is_fresh stale turn o

  is_fresh-touched :
      (name : String) (o : Option ℕ)
      → is_fresh stale turn (touched turn question assistant name o)
        ≡ mentioned question assistant name || is_fresh stale turn o
  unfolding touched
  is_fresh-touched name none = ground arith
  is_fresh-touched name (some last) = ground (arith, le→leb turn (turn + stale))

  -- What the turn does to the relevance of a name.
  unfoldable pub after_turn : List (Value F) → (String → Option ℕ) → String → Option ℕ
  unfolding touched
  after_turn tools g k = if offers k tools then touched turn question assistant k (g k) else g k

  scan_named-relevance :
      (tool : Value F) (rel : Dict ℕ) (s : Scan F)
      → (scan_named is_zero stale core turn question assistant tool rel s).relevance ≡ rel
  unfolding scan_named expose withhold
  scan_named-relevance tool rel s = ground arith

  scan_tool-relevance :
      (tool : Value F) (s : Scan F) (k : String)
      → lookup k (scan1 tool s).relevance ≡ (
          if not (str_eq (tool_name tool) "") && str_eq (tool_name tool) k
          then touched turn question assistant k (lookup k s.relevance)
          else lookup k s.relevance)
  unfolding scan_tool
  scan_tool-relevance tool s k = ground (
    arith,
    scan_named-relevance tool (refresh turn question assistant (tool_name tool) s.relevance) s,
    lookup-refresh turn question assistant k (tool_name tool) s.relevance,
    eq_iff (tool_name tool) k,
  )

  -- The dictionary after the loop.
  pub scan-relevance :
      (tools : List (Value F)) (s : Scan F) (k : String)
      → lookup k (scan tools s).relevance ≡ after_turn tools (λ j. lookup j s.relevance) k
  unfolding scan_tools after_turn
  scan-relevance [] s k = refl
  scan-relevance (tool ∷ tools) s k = ground (
    arith,
    scan-relevance tools (scan1 tool s) k,
    scan_tool-relevance tool s k,
    touched_idem turn question assistant k (lookup k s.relevance),
  )

  abbrev pub one_if : Bool → Value F → List (Value F)
  one_if b tool = if b then tool ∷ [] else []

  one_if-append :
      (b : Bool) (tool : Value F) (tools : List (Value F))
      → one_if b tool ++ tools ≡ (if b then tool ∷ tools else tools)
  one_if-append true tool tools = refl
  one_if-append false tool tools = refl

  scan_named-kept :
      (tool : Value F) (rel : Dict ℕ) (s : Scan F)
      → (scan_named is_zero stale core turn question assistant tool rel s).kept
        ≡ s.kept
          ++ one_if
              (is_core is_zero core tool || is_fresh stale turn (lookup (tool_name tool) rel))
              tool
  unfolding scan_named expose withhold
  scan_named-kept tool rel s = ground (arith, append-nil s.kept)

  scan_tool-kept :
      (tool : Value F) (s : Scan F)
      → (scan1 tool s).kept
        ≡ s.kept ++ one_if (exposed (lookup (tool_name tool) s.relevance) tool) tool
  unfolding scan_tool
  scan_tool-kept tool s = ground (
    arith,
    scan_named-kept tool (refresh turn question assistant (tool_name tool) s.relevance) s,
    lookup-refresh turn question assistant (tool_name tool) (tool_name tool) s.relevance,
    is_fresh-touched (tool_name tool) (lookup (tool_name tool) s.relevance),
    eq_refl (tool_name tool),
  )

  -- The tools that pass, given the relevance before the turn.
  abbrev pub passing : (String → Option ℕ) → List (Value F) → List (Value F)
  passing g = select (λ tool. exposed (g (tool_name tool)) tool)

  exposed-scan_tool :
      (tool other : Value F) (s : Scan F)
      → exposed (lookup (tool_name other) (scan1 tool s).relevance) other
        ≡ exposed (lookup (tool_name other) s.relevance) other
  exposed-scan_tool tool other s = ground (
    arith,
    scan_tool-relevance tool s (tool_name other),
    is_fresh-touched (tool_name other) (lookup (tool_name other) s.relevance),
  )

  -- The loop keeps what passes, in its order.
  pub scan-kept :
      (tools : List (Value F)) (s : Scan F)
      → (scan tools s).kept ≡ s.kept ++ passing (λ k. lookup k s.relevance) tools
  unfolding scan_tools
  scan-kept [] s = sym (append-nil s.kept)
  scan-kept (tool ∷ tools) s =
      scan-kept tools (scan1 tool s)
      ∙ ap (λ l. (scan1 tool s).kept ++ l)
          (select_cong (λ other. exposed-scan_tool tool other s) tools)
      ∙ rw (scan_tool-kept tool s, append_assoc)
          (ap (λ l. s.kept ++ l)
            (one_if-append (exposed (lookup (tool_name tool) s.relevance) tool) tool
              (passing (λ k. lookup k s.relevance) tools)))
