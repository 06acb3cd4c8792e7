-- ===== src/Smells/Engine.antt =====
-- inkfoot/smells/engine.py: the engine runs every smell on a run and collects, over many runs, which runs
-- each smell was found in. A run is a document whose id is a text.
use ink_foot.Prelude.{
  String, ◌≡◌, refl, ◌∙◌, Bool, false, ◌&&◌, ◌||◌, Option, none, some, List, [], ◌∷◌, ◌++◌, arith,
  str_eq, if◌then◌else◌, eq_iff,
}
use ink_foot.Prelude.Dict.{Dict, lookup, insert, lookup-insert}
use ink_foot.Prelude.Lists.{elem}
use ink_foot.Policy.{add_member}
use ink_foot.Value.{Value}
use ink_foot.Value.Truth.{attr, text_or_empty}
use ink_foot.Storage.{Event}
use ink_foot.Smells.{DetectionResult}

-- What a detector does: it raises, or it returns what it found.
pub data Detection (E : Type 0) : Type 0 where
  raised : Detection E
  returned : Option (DetectionResult E) → Detection E

pub record CostSmell (F E : Type 0) : Type 0 where
  pub id : String
  pub detect : Value F → List Event → Detection E

abbrev pub hit : {E : Type 0} → Detection E → List (DetectionResult E)
hit (returned (some r)) = r ∷ []
hit _ = []

abbrev pub or_empty_set : Option (List String) → List String
or_empty_set none = []
or_empty_set (some names) = names

-- The set under a key, empty for an absent one.
unfoldable pub members : String → Dict (List String) → List String
unfolding lookup
members k d = or_empty_set (lookup k d)

-- `_coerce_run_id`
unfoldable pub coerce_run_id : {F : Type 0} → Value F → String
coerce_run_id run = text_or_empty (attr "id" run)

elem-add_member :
    (j k : String) (ks : List String) → elem j (add_member k ks) ≡ str_eq k j || elem j ks
elem-add_member j k ks = ground (arith, eq_iff k j)

members-insert :
    (j k : String) (v : List String) (d : Dict (List String))
    → members j (insert k v d) ≡ (if str_eq k j then v else members j d)
unfolding members
members-insert j k v d = ground (arith, lookup-insert j k v d)

module _ {E : Type 0} where
  -- `triggered.setdefault(smell_id, set()).add(run_id)` for each finding; a second one adds nothing.
  unfoldable pub trigger :
      String → List (DetectionResult E) → Dict (List String) → Dict (List String)
  unfolding members insert
  trigger run_id [] d = d
  trigger run_id (r ∷ rs) d =
      trigger run_id rs (insert r.smell (add_member run_id (members r.smell d)) d)

  abbrev pub step : String → List (DetectionResult E) → Dict (List String) → Dict (List String)
  step run_id hits d = if str_eq run_id "" then d else trigger run_id hits d

  -- Whether the findings have one of a smell.
  abbrev pub has_smell : String → List (DetectionResult E) → Bool
  has_smell k [] = false
  has_smell k (r ∷ rs) = str_eq r.smell k || has_smell k rs

  members-trigger :
      (k run_id other : String) (hits : List (DetectionResult E)) (d : Dict (List String))
      → elem other (members k (trigger run_id hits d))
        ≡ (str_eq run_id other && has_smell k hits) || elem other (members k d)
  unfolding trigger
  members-trigger k run_id other [] d = ground arith
  members-trigger k run_id other (r ∷ rs) d = ground (
    arith,
    members-trigger k run_id other rs (insert r.smell (add_member run_id (members r.smell d)) d),
    members-insert k r.smell (add_member run_id (members r.smell d)) d,
    elem-add_member other run_id (members r.smell d),
    eq_iff r.smell k,
  )

module _ {F E : Type 0} where
  -- `evaluate`: what raises is skipped, and the others go on.
  unfoldable pub evaluate : List (CostSmell F E) → Value F → List Event → List (DetectionResult E)
  evaluate [] run events = []
  evaluate (s ∷ smells) run events = hit (s.detect run events) ++ evaluate smells run events

  unfoldable pub aggregate_loop :
      List (CostSmell F E) → List (Value F × List Event) → Dict (List String) → Dict (List String)
  unfolding coerce_run_id evaluate trigger
  aggregate_loop smells [] d = d
  aggregate_loop smells ((run, events) ∷ runs) d =
      aggregate_loop smells runs (step (coerce_run_id run) (evaluate smells run events) d)

  -- `evaluate_aggregate`
  unfoldable pub evaluate_aggregate :
      List (CostSmell F E) → List (Value F × List Event) → Dict (List String)
  unfolding aggregate_loop
  evaluate_aggregate smells runs = aggregate_loop smells runs []

  -- Whether some run of this id has a finding of the smell.
  unfoldable pub is_found :
      List (CostSmell F E) → String → String → List (Value F × List Event) → Bool
  is_found smells k run_id [] = false
  is_found smells k run_id ((run, events) ∷ runs) =
      (str_eq (coerce_run_id run) run_id && has_smell k (evaluate smells run events))
      || is_found smells k run_id runs

  members-aggregate_loop :
      (smells : List (CostSmell F E)) (k other : String) (runs : List (Value F × List Event))
      (d : Dict (List String))
      → str_eq other "" ≡ false
      → elem other (members k (aggregate_loop smells runs d))
        ≡ is_found smells k other runs || elem other (members k d)
  unfolding aggregate_loop is_found
  members-aggregate_loop smells k other [] d named = refl
  members-aggregate_loop smells k other ((run, events) ∷ runs) d named = ground (
    arith,
    members-aggregate_loop smells k other runs
        (step (coerce_run_id run) (evaluate smells run events) d) named,
    members-trigger k (coerce_run_id run) other (evaluate smells run events) d,
    eq_iff (coerce_run_id run) other,
    eq_iff (coerce_run_id run) "",
    eq_iff other "",
  )

  -- A run with an id is in the set of a smell exactly when some run of that id has a finding of the
  -- smell, whatever other runs come before and after it and whichever detectors raise.
  pub elem-evaluate_aggregate :
      (smells : List (CostSmell F E)) (k run_id : String) (runs : List (Value F × List Event))
      → str_eq run_id "" ≡ false
      → elem run_id (members k (evaluate_aggregate smells runs)) ≡ is_found smells k run_id runs
  unfolding evaluate_aggregate members lookup
  elem-evaluate_aggregate smells k run_id runs named =
      members-aggregate_loop smells k run_id runs [] named ∙ ground arith
