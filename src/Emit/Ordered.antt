-- ===== src/Emit/Ordered.antt =====
-- The sequence numbers that inkfoot/shims/_emit.py gives to the events of a run.
use ink_foot.Prelude.Int.{pos}
use ink_foot.Prelude.{
  ℕ, suc, ◌≤◌, ◌<◌, String, ◌≡◌, refl, sym, ap, ◌∙◌, true, false, Option, none, some, List, [], ◌∷◌,
  ◌++◌, arith, inl, inr, Bool-cases, if◌then◌else◌, str_eq, eq_iff,
}
use mathlib.Core.Path.{subst}
use ink_foot.Prelude.Sort.{sort_by, insert_by}
use ink_foot.Prelude.Dict.{lookup, lookup-insert}
use ink_foot.Storage.{Store, Event, insert_event, events_of}
use ink_foot.Storage.Rows.{events_of-append, insert_event-events}
use ink_foot.Lifecycle.{Process, counter_or_zero, next_sequence, written}

-- The sequence numbers rise from above `lo` to at most `hi`.
abbrev pub Rising : ℕ → List Event → ℕ → Type 0
Rising lo [] hi = lo ≤ hi
Rising lo (e ∷ es) hi = (n : ℕ) × ((e.sequence ≡ pos n) × ((lo < n) × Rising n es hi))

Rising-le : (lo : ℕ) (es : List Event) (hi : ℕ) → Rising lo es hi → lo ≤ hi
Rising-le lo [] hi h = h
Rising-le lo (e ∷ es) hi (n, (same, (above, rest))) = omega (arith, above, Rising-le n es hi rest)

higher-Rising :
    (lo : ℕ) (es : List Event) (hi higher : ℕ) → Rising lo es hi → hi ≤ higher → Rising lo es higher
higher-Rising lo [] hi higher h up = omega (arith, h, up)
higher-Rising lo (e ∷ es) hi higher (n, (same, (above, rest))) up =
    (n, (same, (above, higher-Rising n es hi higher rest up)))

Rising-append :
    (lo : ℕ) (es : List Event) (hi : ℕ) (e : Event)
    → e.sequence ≡ pos (suc hi)
    → Rising lo es hi
    → Rising lo (es ++ e ∷ []) (suc hi)
Rising-append lo [] hi e next h = (suc hi, (next, (omega (arith, h), omega arith)))
Rising-append lo (d ∷ es) hi e next (n, (same, (above, rest))) =
    (n, (same, (above, Rising-append n es hi e next rest)))

-- A log that rises is in the order of its sort.
insert_by-Rising :
    (e : Event) (n : ℕ) (es : List Event) (hi : ℕ)
    → e.sequence ≡ pos n
    → Rising n es hi
    → insert_by (λ x. x.sequence) e es ≡ e ∷ es
unfolding insert_by
insert_by-Rising e n [] hi same h = refl
insert_by-Rising e n (d ∷ es) hi same (m, (next, (above, rest))) =
    rw (same, next) (ground (arith, above))

pub sort_by-Rising :
    (lo : ℕ) (es : List Event) (hi : ℕ) → Rising lo es hi → sort_by (λ x. x.sequence) es ≡ es
unfolding sort_by
sort_by-Rising lo [] hi h = refl
sort_by-Rising lo (e ∷ es) hi (n, (same, (above, rest))) =
    ap (insert_by (λ x. x.sequence) e) (sort_by-Rising n es hi rest)
    ∙ insert_by-Rising e n es hi same rest

module _ {F : Type 0} (k : String) where
  -- The run's events rise to its counter.
  abbrev pub InOrder : Process F → Type 0
  InOrder p = Rising 0 (events_of k p.store.events) (counter_or_zero (lookup k p.sequence_counters))

  abbrev taken : String → Process F → Process F
  taken r p = record p { sequence_counters = (next_sequence r p.sequence_counters).1 }

  taken_counter :
      (r : String) (p : Process F)
      → counter_or_zero (lookup k (taken r p).sequence_counters) ≡ (
          if str_eq r k
          then suc (counter_or_zero (lookup r p.sequence_counters))
          else counter_or_zero (lookup k p.sequence_counters))
  unfolding next_sequence
  taken_counter r p = elim (Bool-cases (str_eq r k)) [
    | inl own ↦ rw (lookup-insert, own) (omega arith)
    | inr other ↦ rw (lookup-insert, other) refl
  ]

  abbrev log : Process F → List Event
  log p = events_of k p.store.events

  abbrev counter : Process F → ℕ
  counter p = counter_or_zero (lookup k p.sequence_counters)

  own_counter :
      (r : String) (p : Process F) → str_eq r k ≡ true → counter (taken r p) ≡ suc (counter p)
  own_counter r p own =
      taken_counter r p
      ∙ rw own (ap (λ j. suc (counter_or_zero (lookup j p.sequence_counters))) ((eq_iff r k).0 own))

  other_counter :
      (r : String) (p : Process F) → str_eq r k ≡ false → counter (taken r p) ≡ counter p
  other_counter r p other = taken_counter r p ∙ rw other refl

  pub taken-InOrder : (r : String) (p : Process F) → InOrder p → InOrder (taken r p)
  taken-InOrder r p h = elim (Bool-cases (str_eq r k)) [
    | inl own ↦
        subst (Rising 0 (log p)) (sym (own_counter r p own))
          (higher-Rising 0 (log p) (counter p) (suc (counter p)) h (omega arith))
    | inr other ↦ subst (Rising 0 (log p)) (sym (other_counter r p other)) h
  ]

  log-stored :
      (e : Event) (p : Process F) (s : Store)
      → insert_event e p.store ≡ some s
      → events_of k s.events ≡ (if str_eq e.run_id k then log p ++ e ∷ [] else log p)
  log-stored e p s i =
      ap (events_of k) (insert_event-events e p.store s i) ∙ events_of-append k p.store.events e

  pub stored-InOrder :
      (e : Event) (p : Process F) (o : Option Store)
      → insert_event e p.store ≡ o
      → e.sequence ≡ pos (suc (counter_or_zero (lookup e.run_id p.sequence_counters)))
      → InOrder p
      → InOrder (written (taken e.run_id p) o).0
  stored-InOrder e p none i next h = taken-InOrder e.run_id p h
  stored-InOrder e p (some s) i next h = elim (Bool-cases (str_eq e.run_id k)) [
    | inl own ↦
        rw (log-stored e p s i, own, own_counter e.run_id p own)
          (Rising-append 0 (log p) (counter p) e
            (next
              ∙ ap (λ j. pos (suc (counter_or_zero (lookup j p.sequence_counters))))
                  ((eq_iff e.run_id k).0 own))
            h)
    | inr other ↦ rw (log-stored e p s i, other, other_counter e.run_id p other) h
  ]
