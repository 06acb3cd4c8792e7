-- ===== src/Storage/Rows.antt =====
-- What the statements of inkfoot/storage/sqlite.py do to the row of a run and to its events.
use ink_foot.Prelude.Int.{ℤ}
use ink_foot.Prelude.{
  map, String, ◌≡◌, refl, sym, ap, ◌∙◌, inl, inr, Bool, true, false, not, ◌||◌, Option, none, some,
  List, [], ◌∷◌, ◌++◌, arith, eq_iff, eq_refl, str_eq, if◌then◌else◌, Bool-cases, Option-cases,
}
use mathlib.Core.Path.{subst}
use mathlib.Core.Option.{some-injective}
use ink_foot.Prelude.Sort.{sort_by}
use ink_foot.Storage.{
  start_run, new_row, refers, Totals, Run, Event, Store, find_run, get_run, start_run, new_row,
  refers, update_run, set_dirty, set_totals, is_some, known_mode, has_event, mark_dirty,
  insert_event, claim_clean, write_totals, events_of, iter_events, mark_all_dirty, end_run,
  set_ended,
}

abbrev pub on_row : (Run → Run) → Option Run → Option Run
on_row g none = none
on_row g (some r) = some (g r)

-- An update that keeps the primary key.
abbrev pub KeepsId : (Run → Run) → Type 0
KeepsId g = (r : Run) → (g r).id ≡ r.id

pub find_run-update_run :
    (j k : String) (g : Run → Run) (rs : List Run)
    → KeepsId g
    → find_run j (update_run k g rs)
      ≡ (if str_eq k j then on_row g (find_run j rs) else find_run j rs)
unfolding find_run update_run
find_run-update_run j k g [] keeps = ground arith
find_run-update_run j k g (r ∷ rs) keeps = elim (Bool-cases (str_eq r.id k)) [
  | inl e ↦
      rw (e, find_run-update_run j k g rs keeps)
        (rw
          (
            ap (λ i. str_eq i j) (keeps r ∙ (eq_iff r.id k).0 e),
            ap (λ i. str_eq i j) ((eq_iff r.id k).0 e),
          )
          (elim (Bool-cases (str_eq k j)) [ inl q ↦ rw q refl | inr q ↦ rw q refl ]))
  | inr e ↦
      rw (e, find_run-update_run j k g rs keeps)
        (ground (arith, e, eq_iff r.id k, eq_iff k j, eq_iff r.id j))
]

pub events_of-append :
    (k : String) (es : List Event) (e : Event)
    → events_of k (es ++ e ∷ [])
      ≡ (if str_eq e.run_id k then events_of k es ++ e ∷ [] else events_of k es)
unfolding events_of
events_of-append k [] e = ground arith
events_of-append k (x ∷ es) e = rw (events_of-append k es e) (ground arith)

pub get_run-mark_dirty :
    (j k : String) (s : Store)
    → get_run j (mark_dirty k s)
      ≡ (if str_eq k j then on_row (set_dirty true) (get_run j s) else get_run j s)
unfolding get_run mark_dirty
get_run-mark_dirty j k s = find_run-update_run j k (set_dirty true) s.runs (λ r. refl)

pub get_run-write_totals :
    (j k : String) (t : Totals) (s : Store)
    → get_run j (write_totals k t s)
      ≡ (if str_eq k j then on_row (set_totals t) (get_run j s) else get_run j s)
unfolding get_run write_totals
get_run-write_totals j k t s = find_run-update_run j k (set_totals t) s.runs (λ r. refl)

-- A claim of a run that the store has.
pub claim_clean-found :
    (k : String) (s : Store) (r : Run)
    → get_run k s ≡ some r
    → claim_clean k s
      ≡ (r.aggregates_dirty, record s { runs = update_run k (set_dirty false) s.runs })
unfolding claim_clean get_run
claim_clean-found k s r h = rw (h, claim_clean) refl

pub claim_clean-missing :
    (k : String) (s : Store) → get_run k s ≡ none → claim_clean k s ≡ (false, s)
unfolding claim_clean get_run
claim_clean-missing k s h = rw (h, claim_clean) refl

pub get_run-claim_clean :
    (j k : String) (s : Store)
    → get_run j (claim_clean k s).1
      ≡ (if str_eq k j then on_row (set_dirty false) (get_run j s) else get_run j s)
unfolding get_run
get_run-claim_clean j k s = elim (Option-cases (get_run k s)) [
  | inl h ↦ rw (claim_clean-missing k s h) (elim (Bool-cases (str_eq k j)) [
    | inl q ↦ rw q (rw (ap (λ i. find_run i s.runs) (sym ((eq_iff k j).0 q))) (rw h refl))
    | inr q ↦ rw q refl
  ])
  | inr (r, h) ↦
      rw (claim_clean-found k s r h) (find_run-update_run j k (set_dirty false) s.runs (λ q. refl))
]

pub iter_events-mark_dirty :
    (j k : String) (s : Store) → iter_events j (mark_dirty k s) ≡ iter_events j s
unfolding iter_events mark_dirty
iter_events-mark_dirty j k s = refl

pub iter_events-write_totals :
    (j k : String) (t : Totals) (s : Store) → iter_events j (write_totals k t s) ≡ iter_events j s
unfolding iter_events write_totals
iter_events-write_totals j k t s = refl

pub iter_events-claim_clean :
    (j k : String) (s : Store) → iter_events j (claim_clean k s).1 ≡ iter_events j s
unfolding iter_events
iter_events-claim_clean j k s = elim (Option-cases (get_run k s)) [
  | inl h ↦ rw (claim_clean-missing k s h) refl
  | inr (r, h) ↦ rw (claim_clean-found k s r h) refl
]

-- What an insertion that the database accepts leaves behind.
inserted : Event → Store → Store
inserted e s = mark_dirty e.run_id (record s { events = s.events ++ e ∷ [] })

events_of-other :
    (k : String) (es : List Event) (e : Event)
    → str_eq e.run_id k ≡ false
    → events_of k (es ++ e ∷ []) ≡ events_of k es
events_of-other k es e other = rw (events_of-append k es e) (rw other refl)

accepted : {A : Type 0} (b : Bool) (a c : A) → (if b then none else some a) ≡ some c → c ≡ a
accepted true a c h = ground arith
accepted false a c h = sym (some-injective _ _ h)

insert_event-inserted : (e : Event) (s s' : Store) → insert_event e s ≡ some s' → s' ≡ inserted e s
unfolding insert_event inserted
insert_event-inserted e s s' h =
    accepted
      (not (known_mode e.capture_mode)
        || has_event e.event_id s.events
        || not (is_some (find_run e.run_id s.runs)))
      _ s' h

pub insert_event-events :
    (e : Event) (s s' : Store) → insert_event e s ≡ some s' → s'.events ≡ s.events ++ e ∷ []
unfolding inserted mark_dirty
insert_event-events e s s' h = ap (λ s. s.events) (insert_event-inserted e s s' h)

-- An insertion marks its run dirty and leaves every other run and its events alone.
pub get_run-insert_event :
    (k : String) (e : Event) (s s' : Store)
    → insert_event e s ≡ some s'
    → get_run k s'
      ≡ (if str_eq e.run_id k then on_row (set_dirty true) (get_run k s) else get_run k s)
unfolding inserted get_run
get_run-insert_event k e s s' h =
    rw (insert_event-inserted e s s' h)
      (get_run-mark_dirty k e.run_id (record s { events = s.events ++ e ∷ [] }))

pub iter_events-insert_event :
    (k : String) (e : Event) (s s' : Store)
    → insert_event e s ≡ some s'
    → str_eq e.run_id k ≡ false
    → iter_events k s' ≡ iter_events k s
unfolding inserted iter_events mark_dirty
iter_events-insert_event k e s s' h other =
    rw (insert_event-inserted e s s' h)
      (ap (sort_by (λ x. x.sequence)) (events_of-other k s.events e other))

find_run-append :
    (k : String) (rs : List Run) (r : Run)
    → find_run k rs ≡ none
    → r.id ≡ k
    → find_run k (rs ++ r ∷ []) ≡ some r
unfolding find_run
find_run-append k [] r h q = rw (q, eq_refl k) refl
find_run-append k (x ∷ rs) r h q = elim (Bool-cases (str_eq x.id k)) [
  | inl e ↦ ground (arith, e)
  | inr e ↦ rw e (find_run-append k rs r (sym (rw e refl) ∙ h) q)
]

find_run-all :
    (k : String) (rs : List Run)
    → find_run k (map (set_dirty true) rs) ≡ on_row (set_dirty true) (find_run k rs)
unfolding find_run
find_run-all k [] = refl
find_run-all k (r ∷ rs) = elim (Bool-cases (str_eq r.id k)) [
  | inl e ↦ rw e refl
  | inr e ↦ rw e (find_run-all k rs)
]

pub get_run-mark_all_dirty :
    (k : String) (s : Store)
    → get_run k (mark_all_dirty s).0 ≡ on_row (set_dirty true) (get_run k s)
unfolding get_run mark_all_dirty
get_run-mark_all_dirty k s = find_run-all k s.runs

find_run-append_found :
    (k : String) (rs : List Run) (r found : Run)
    → find_run k rs ≡ some found
    → find_run k (rs ++ r ∷ []) ≡ some found
unfolding find_run
find_run-append_found k [] r found h = cc h
find_run-append_found k (x ∷ rs) r found h = elim (Bool-cases (str_eq x.id k)) [
  | inl e ↦ rw e (sym (rw e refl) ∙ h)
  | inr e ↦ rw e (find_run-append_found k rs r found (sym (rw e refl) ∙ h))
]

-- A run that is there keeps its row when another one starts.
pub start_run-found :
    (k run_id : String) (task kind : Option String) (at : ℤ) (parent : Option String)
    (run_kind : String) (metadata : Option String) (s s' : Store) (r : Run)
    → start_run run_id task kind at parent run_kind metadata s ≡ some s'
    → get_run k s ≡ some r
    → (get_run k s' ≡ some r) × (s'.events ≡ s.events)
unfolding start_run get_run
start_run-found k run_id task kind at parent run_kind metadata s s' r h found =
    let e = accepted (is_some (find_run run_id s.runs) || not (refers parent s.runs)) _ s' h in
    (ap (λ t. find_run k t.runs) e ∙ find_run-append_found k s.runs _ r found, ap (λ t. t.events) e)

-- What the end of a run does to its own row, and to no other one.
pub end_run-row :
    (j k : String) (at : ℤ) (status : String) (s s' : Store)
    → end_run k at status s ≡ some s'
    → (get_run j s'
        ≡ (if str_eq k j then on_row (set_ended at status) (get_run j s) else get_run j s))
      × (s'.events ≡ s.events)
unfolding end_run get_run
end_run-row j k at status s s' h =
    let e = ended (str_eq status "complete" || str_eq status "error") _ h in
    (
      ap (λ t. find_run j t.runs) e
          ∙ find_run-update_run j k (set_ended at status) s.runs (λ r. refl),
      ap (λ t. t.events) e,
    )
  where
    ended : (b : Bool) (a : Store) → (if b then some a else none) ≡ some s' → s' ≡ a
    ended true a q = sym (some-injective _ _ q)
    ended false a q = cc q

-- A run that the database accepts has the row of a new run, and no event was added.
pub start_run-fresh :
    (run_id : String) (task kind : Option String) (at : ℤ) (parent : Option String)
    (run_kind : String) (metadata : Option String) (s s' : Store)
    → start_run run_id task kind at parent run_kind metadata s ≡ some s'
    → (get_run run_id s' ≡ some (new_row run_id task kind at parent run_kind metadata))
      × (s'.events ≡ s.events)
unfolding start_run get_run
start_run-fresh run_id task kind at parent run_kind metadata s s' h =
    elim (Option-cases (find_run run_id s.runs)) [
      | inl free ↦
          let e =
            accepted (is_some (find_run run_id s.runs) || not (refers parent s.runs)) _ s' h in
          (
            ap (λ t. find_run run_id t.runs) e ∙ find_run-append run_id s.runs _ free refl,
            ap (λ t. t.events) e,
          )
      | inr (r, taken) ↦ ground (arith, taken)
    ]

set_dirty-same : (r : Run) → r.aggregates_dirty ≡ false → on_row (set_dirty false) (some r) ≡ some r
set_dirty-same r d = ap (λ b. some (record r { aggregates_dirty = b })) (sym d)

already_clean :
    (j : String) (s : Store)
    → (claim_clean j s).0 ≡ false
    → on_row (set_dirty false) (get_run j s) ≡ get_run j s
already_clean j s h = elim (Option-cases (get_run j s)) [
  | inl free ↦ rw free refl
  | inr (r, found) ↦
      rw found (set_dirty-same r (ap (λ c. c.0) (sym (claim_clean-found j s r found)) ∙ h))
]

-- A claim that finds the run clean changes no row.
pub claim_clean-refused :
    (j k : String) (s : Store)
    → (claim_clean j s).0 ≡ false
    → get_run k (claim_clean j s).1 ≡ get_run k s
claim_clean-refused j k s h = get_run-claim_clean k j s ∙ elim (Bool-cases (str_eq j k)) [
  | inl e ↦ rw e (
      subst (λ i. on_row (set_dirty false) (get_run i s) ≡ get_run i s) ((eq_iff j k).0 e)
        (already_clean j s h))
  | inr e ↦ rw e refl
]
