-- ===== src/Policy/RetryThrottle.antt =====
-- `RetryThrottle` of inkfoot/policy/retry_throttle.py. The clock's reading is an argument, a float;
-- the retry counts per cause that `after_call` keeps for reports are left out.
use ink_foot.Prelude.Int.{ℤ, pos}
use ink_foot.Prelude.{
  lt→ltb, ℕ, suc, ◌<◌, String, ◌≡◌, refl, ap, ◌∙◌, inl, inr, Bool, true, false, not, ◌&&◌, Option,
  none, List, [], ◌∷◌, ◌++◌, eq_refl, ltb, str_eq, if◌then◌else◌, Bool-cases,
}
use ink_foot.Float.{Float, ltf}
use ink_foot.Prelude.Lists.{All, length}
use ink_foot.Prelude.Dict.{Dict, lookup, insert, lookup-insert}
use ink_foot.Policy.{PolicyDecision, warn, allowed, discard, elem-discard, some, elem}

pub record RetryThrottle (F : Type 0) : Type 0 where
  pub window_s : ℕ
  pub max : ℕ
  pub events : Dict (List F)
  pub has_fired : List String

-- `RetryThrottle.__init__` for ints; a window of 0 or less and a threshold below 1 raise.
abbrev pub retry_throttle : {F : Type 0} → ℤ → ℤ → Option (RetryThrottle F)
retry_throttle (pos (suc w)) (pos (suc m)) =
    some (record { window_s = suc w; max = suc m; events = []; has_fired = [] })
retry_throttle _ _ = none

abbrev pub or_nil : {A : Type 0} → Option (List A) → List A
or_nil none = []
or_nil (some xs) = xs

-- The recorded times of a run.
unfoldable pub times : {F : Type 0} → String → RetryThrottle F → List F
unfolding lookup
times run_id p = or_nil (lookup run_id p.events)

-- `current_count`
abbrev pub current_count : {F : Type 0} → String → RetryThrottle F → ℕ
current_count run_id p = length (times run_id p)

module _ (f : Float) where
  open f use {F, of_int, sub, leb_trans, leb_refl}

  abbrev pub le : F → F → Bool
  le x y = f.leb x y

  -- `while events and events[0] < window_start: events.popleft()`
  unfoldable pub drop_old : F → List F → List F
  drop_old start [] = []
  drop_old start (t ∷ ts) = let rest = drop_old start ts in if ltf f t start then rest else t ∷ ts

  -- `now - self.window_s`
  abbrev pub window_start : F → RetryThrottle F → F
  window_start now p = sub now (of_int (pos p.window_s))

  -- The run's times once this retry is recorded and the old ones are dropped.
  unfoldable pub recent : String → F → RetryThrottle F → List F
  unfolding drop_old times
  recent run_id now p = drop_old (window_start now p) (times run_id p ++ now ∷ [])

  abbrev pub warn_if : Bool → String → ℕ → RetryThrottle F → RetryThrottle F × PolicyDecision
  warn_if true run_id n p = (
    record p { has_fired = run_id ∷ p.has_fired },
    record {
      action = warn;
      observed = pos n;
      limit = p.max;
      emit_event_kind = some "retry_throttle";
    },
  )
  warn_if false run_id n p = (p, allowed)

  abbrev pub on_retry : String → List F → RetryThrottle F → RetryThrottle F × PolicyDecision
  on_retry run_id ts p =
      warn_if (ltb p.max (length ts) && not (elem run_id p.has_fired)) run_id (length ts)
        (record p { events = insert run_id ts p.events })

  -- `before_call`, for a call that is or is not a retry
  unfoldable pub before_call :
      String → Bool → F → RetryThrottle F → RetryThrottle F × PolicyDecision
  unfolding recent insert
  before_call run_id false now p = (record p { has_fired = discard run_id p.has_fired }, allowed)
  before_call run_id true now p = on_retry run_id (recent run_id now p) p

  -- Times in ascending order, the last one no later than the given one.
  unfoldable pub UpTo : F → List F → Type 0
  UpTo now [] = Unit
  UpTo now (t ∷ ts) = All (λ u. le t u ≡ true) ts × (le t now ≡ true) × UpTo now ts

  snoc-All : (P : F → Type 0) (ts : List F) (t : F) → All P ts → P t → All P (ts ++ t ∷ [])
  snoc-All P [] t h p = (p, tt)
  snoc-All P (u ∷ ts) t h p = (h.0, snoc-All P ts t h.1 p)

  append-UpTo :
      (prev now : F) (ts : List F) → le prev now ≡ true → UpTo prev ts → UpTo now (ts ++ now ∷ [])
  unfolding UpTo
  append-UpTo prev now [] h o = (tt, leb_refl now, tt)
  append-UpTo prev now (t ∷ ts) h o =
      let before = leb_trans t prev now o.1 h in
      (snoc-All (λ u. le t u ≡ true) ts now o.0 before, before, append-UpTo prev now ts h o.2)

  above-All :
      (start t : F) (ts : List F)
      → le start t ≡ true
      → All (λ u. le t u ≡ true) ts
      → All (λ u. le start u ≡ true) ts
  above-All start t [] e h = tt
  above-All start t (u ∷ ts) e h = (leb_trans start t u e h.0, above-All start t ts e h.1)

  drop_old-UpTo :
      (start now : F) (ts : List F)
      → UpTo now ts
      → UpTo now (drop_old start ts) × All (λ t. le start t ≡ true) (drop_old start ts)
  unfolding UpTo drop_old
  drop_old-UpTo start now [] o = (tt, tt)
  drop_old-UpTo start now (t ∷ ts) o = elim (Bool-cases (le start t)) [
    | inl e ↦ rw e (o, (e, above-All start t ts e o.0))
    | inr e ↦ rw e (drop_old-UpTo start now ts o.2)
  ]

  times-warn_if :
      (b : Bool) (j k : String) (n : ℕ) (p : RetryThrottle F)
      → times k (warn_if b j n p).0 ≡ times k p
  unfolding times
  times-warn_if true j k n p = refl
  times-warn_if false j k n p = refl

  times-retry :
      (j k : String) (now : F) (p : RetryThrottle F)
      → times k (before_call j true now p).0 ≡ (if str_eq j k then recent j now p else times k p)
  unfolding before_call times
  times-retry j k now p =
      let ts = recent j now p in
      times-warn_if (ltb p.max (length ts) && not (elem j p.has_fired)) j k (length ts)
        (record p { events = insert j ts p.events })
      ∙ ap or_nil (lookup-insert k j ts p.events)
      ∙ elim (Bool-cases (str_eq j k)) [ inl e ↦ rw e refl | inr e ↦ rw e refl ]

  later-UpTo : (prev now : F) (ts : List F) → le prev now ≡ true → UpTo prev ts → UpTo now ts
  unfolding UpTo
  later-UpTo prev now [] h o = tt
  later-UpTo prev now (t ∷ ts) h o = (o.0, leb_trans t prev now o.1 h, later-UpTo prev now ts h o.2)

  recent-UpTo :
      (k : String) (prev now : F) (p : RetryThrottle F)
      → le prev now ≡ true
      → UpTo prev (times k p)
      → UpTo now (recent k now p) × All (λ t. le (window_start now p) t ≡ true) (recent k now p)
  unfolding recent
  recent-UpTo k prev now p h o =
      drop_old-UpTo (window_start now p) now (times k p ++ now ∷ [])
        (append-UpTo prev now (times k p) h o)

  -- With a clock that does not run backwards, a retry leaves the times of every run in order, and
  -- those of its own run are all within the window.
  pub before_call-UpTo :
      (run_id : String) (prev now : F) (p : RetryThrottle F)
      → le prev now ≡ true
      → ((k : String) → UpTo prev (times k p))
      → ((k : String) → UpTo now (times k (before_call run_id true now p).0))
        × All
            (λ t. le (window_start now p) t ≡ true)
            (times run_id (before_call run_id true now p).0)
  before_call-UpTo run_id prev now p h o = (
    λ k. rw (times-retry run_id k now p) (elim (Bool-cases (str_eq run_id k)) [
      | inl e ↦ rw e (recent-UpTo run_id prev now p h (o run_id)).0
      | inr e ↦ rw e (later-UpTo prev now (times k p) h (o k))
    ]),
    rw (times-retry run_id run_id now p, eq_refl run_id)
        (recent-UpTo run_id prev now p h (o run_id)).1,
  )

  -- A call that is no retry clears the mark, whatever the count: the next retry with more than `max`
  -- times in the window warns again.
  pub before_call_refires :
      (run_id : String) (between now : F) (p : RetryThrottle F)
      → p.max < length (recent run_id now p)
      → (before_call run_id true now (before_call run_id false between p).0).1.action ≡ warn
  unfolding before_call recent times
  before_call_refires run_id between now p h =
      rw
        (
          elem-discard run_id run_id p.has_fired,
          eq_refl run_id,
          lt→ltb p.max (length (recent run_id now p)) h,
        )
        refl
