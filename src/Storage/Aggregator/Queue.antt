-- ===== src/Storage/Aggregator/Queue.antt =====
-- The dirty queue of inkfoot/storage/sqlite.py, and what the worker's statements do to it.
use ink_foot.Prelude.{
  String, ◌≡◌, refl, sym, ap, ◌∙◌, inl, inr, Bool, true, false, none, List, [], ◌∷◌, map, arith,
  str_eq, if◌then◌else◌, Bool-cases,
}
use ink_foot.Storage.{Totals, Run, find_run, update_run, set_dirty, set_totals, dirty_runs}

abbrev pub ids : List Run → List String
ids = map (λ r. r.id)

abbrev pub drop_key : String → List String → List String
drop_key k [] = []
drop_key k (j ∷ js) = let rest = drop_key k js in if str_eq j k then rest else j ∷ rest

abbrev pub drop_all : List String → List String → List String
drop_all [] js = js
drop_all (k ∷ ks) js = drop_all ks (drop_key k js)

abbrev pub push : Bool → String → List String → List String
push true k js = k ∷ js
push false k js = js

-- The runs marked dirty.
unfoldable pub queue : List Run → List String
queue [] = []
queue (r ∷ rs) = push r.aggregates_dirty r.id (queue rs)

pub ids-dirty_runs : (rs : List Run) → ids (dirty_runs rs) ≡ queue rs
unfolding dirty_runs queue
ids-dirty_runs [] = refl
ids-dirty_runs (r ∷ rs) = elim (Bool-cases r.aggregates_dirty) [
  | inl d ↦ rw d (ap (◌∷◌ r.id) (ids-dirty_runs rs))
  | inr d ↦ rw d (ids-dirty_runs rs)
]

drop_key-hit :
    (k i : String) (d : Bool) (js : List String)
    → str_eq i k ≡ true
    → drop_key k (push d i js) ≡ drop_key k js
drop_key-hit k i true js e = rw e refl
drop_key-hit k i false js e = refl

drop_key-miss :
    (k i : String) (d : Bool) (js : List String)
    → str_eq i k ≡ false
    → drop_key k (push d i js) ≡ push d i (drop_key k js)
drop_key-miss k i true js e = rw e refl
drop_key-miss k i false js e = refl

pub queue-cleaned :
    (k : String) (rs : List Run) → queue (update_run k (set_dirty false) rs) ≡ drop_key k (queue rs)
unfolding queue update_run
queue-cleaned k [] = refl
queue-cleaned k (r ∷ rs) = elim (Bool-cases (str_eq r.id k)) [
  | inl e ↦ rw e (queue-cleaned k rs ∙ sym (drop_key-hit k r.id r.aggregates_dirty (queue rs) e))
  | inr e ↦ rw e (
      ap (push r.aggregates_dirty r.id) (queue-cleaned k rs)
      ∙ sym (drop_key-miss k r.id r.aggregates_dirty (queue rs) e))
]

pub queue-written :
    (k : String) (t : Totals) (rs : List Run) → queue (update_run k (set_totals t) rs) ≡ queue rs
unfolding queue update_run
queue-written k t [] = refl
queue-written k t (r ∷ rs) = elim (Bool-cases (str_eq r.id k)) [
  | inl e ↦ rw e (ap (push r.aggregates_dirty r.id) (queue-written k t rs))
  | inr e ↦ rw e (ap (push r.aggregates_dirty r.id) (queue-written k t rs))
]

pub queue-missing :
    (k : String) (rs : List Run) → find_run k rs ≡ none → drop_key k (queue rs) ≡ queue rs
unfolding queue find_run
queue-missing k [] h = refl
queue-missing k (r ∷ rs) h = elim (Bool-cases (str_eq r.id k)) [
  | inl e ↦ ground (arith, e)
  | inr e ↦
      drop_key-miss k r.id r.aggregates_dirty (queue rs) e
      ∙ ap (push r.aggregates_dirty r.id) (queue-missing k rs (sym (rw e refl) ∙ h))
]
