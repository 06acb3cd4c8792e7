-- ===== src/Reports.antt =====
-- inkfoot/reports/cost_per_success.py: the rollup of run rows into the rows of the aggregate table. A run
-- row is a document (`Value`); how a caller groups the runs is an argument.
pub mod Conservation
mod Tests
use ink_foot.Prelude.Int.{ℤ, pos, negsuc, ◌+ℤ◌, ◌-ℤ◌, ◌≤ℤ◌, ltb_ℤ, leb_ℤ, sum_from}
use ink_foot.Prelude.{
  ℕ, zero, suc, ◌+◌, ◌-◌, ◌*◌, ◌/◌, ◌%◌, ◌≤◌, ◌<◌, String, ◌≡◌, refl, sym, ap, ◌∙◌, ◌≢◌, ◌⊎◌, inl,
  inr, Bool, true, false, not, ◌&&◌, ◌||◌, Option, none, some, List, [], ◌∷◌, ◌++◌, map, arith,
  eq_iff, eq_refl, ltb, leb, ◌==◌, str_eq, if◌then◌else◌, Bool-cases, Option-cases,
}
use Prim.Native.String.{compare}
use ink_foot.Value.{Value, text, dict, Fields, get, as_int}
use ink_foot.Value.Truth.{is_text}
use ink_foot.Prelude.Lists.{length, get_elem?}

-- `sorted(values)`
pub insert_value : ℤ → List ℤ → List ℤ
insert_value x [] = x ∷ []
insert_value x (y ∷ ys) = let rest = insert_value x ys in if leb_ℤ x y then x ∷ y ∷ ys else y ∷ rest

pub sort_values : List ℤ → List ℤ
unfolding insert_value
sort_values [] = []
sort_values (x ∷ xs) = insert_value x (sort_values xs)

-- `min(a, b)`
abbrev pub min : ℕ → ℕ → ℕ
min a b = if leb a b then a else b

abbrev pub or_zero : Option ℤ → ℤ
or_zero Option.none = pos 0
or_zero (Option.some n) = n

-- `_p95`. The double nearest to 0.95 gives `int(n * 0.95)` = 95 n / 100 for every length of a list.
unfoldable pub p95 : List ℤ → ℤ
unfolding sort_values
p95 [] = pos 0
p95 (x ∷ xs) =
    let n = length (x ∷ xs) in
    or_zero (get_elem? (sort_values (x ∷ xs)) (min (n - 1) (n * 95 / 100)))

-- `a // n` for a positive n
abbrev pub floor_div : ℤ → ℕ → ℤ
floor_div (pos a) n = pos (a / n)
floor_div (negsuc a) n = negsuc (a / n)

pub record BucketRow : Type 0 where
  pub bucket : String
  pub n_runs : ℕ
  pub total_nanodollars : ℤ
  pub avg_nanodollars : ℤ
  pub p95_nanodollars : ℤ
  pub n_success : ℕ
  pub n_accepted_answer : ℕ
  pub uninstrumented : Bool

-- `cost_per_success_nd`, and `cost_per_accepted_answer_nd`
unfoldable pub cost_per : ℕ → BucketRow → Option ℤ
cost_per zero row = none
cost_per (suc n) row = some (floor_div row.total_nanodollars (suc n))

pub record GroupKey : Type 0 where
  pub uninstrumented : Bool
  pub label : String

-- The dict that is kept per group.
pub record Group : Type 0 where
  pub totals : List ℤ
  pub n_success : ℕ
  pub n_accepted : ℕ

abbrev pub empty_group : Group
empty_group = record { totals = []; n_success = 0; n_accepted = 0 }

abbrev pub eq_group : GroupKey → GroupKey → Bool
eq_group j k =
    (if j.uninstrumented then k.uninstrumented else not k.uninstrumented) && str_eq j.label k.label

abbrev pub Groups : Type 0
Groups = List (GroupKey × Group)

-- `grouped.setdefault(key, ...)`, and what is done to the entry
unfoldable pub upsert : GroupKey → (Group → Group) → Groups → Groups
upsert k f [] = (k, f empty_group) ∷ []
upsert k f ((j, g) ∷ gs) = if eq_group j k then (j, f g) ∷ gs else (j, g) ∷ upsert k f gs

module _ {F : Type 0} where
  -- `isinstance(outcome, str) and outcome`
  abbrev pub has_outcome : Value F → Bool
  has_outcome (text s) = not (str_eq s "")
  has_outcome _ = false

  unfoldable pub total_of : Fields F → ℤ
  total_of run = or_zero (as_int (get "total_nanodollars" run))

  -- What a run adds to its group.
  unfoldable pub add_run : Fields F → Group → Group
  unfolding total_of
  add_run run g = record {
    totals = g.totals ++ total_of run ∷ [];
    n_success = if is_text "success" (get "outcome" run) then g.n_success + 1 else g.n_success;
    n_accepted =
        if is_text "success" (get "outcome" run)
        then g.n_accepted
        else if is_text "accepted_answer" (get "outcome" run)
        then g.n_accepted + 1
        else g.n_accepted;
  }

  module _ (bucket_of : Fields F → String) where
    -- Runs without an outcome never reach `bucket_of`.
    unfoldable pub key_of : Fields F → GroupKey
    key_of run =
        if has_outcome (get "outcome" run)
        then record { uninstrumented = false; label = bucket_of run }
        else record { uninstrumented = true; label = "uninstrumented" }

    -- The loop over the runs; what is no mapping is skipped.
    unfoldable pub group_runs : List (Value F) → Groups → Groups
    unfolding key_of add_run upsert
    group_runs [] gs = gs
    group_runs (dict run ∷ runs) gs = group_runs runs (upsert (key_of run) (add_run run) gs)
    group_runs (_ ∷ runs) gs = group_runs runs gs

unfoldable pub row_of : GroupKey × Group → BucketRow
unfolding p95
row_of (k, g) =
    let total = sum_from (pos 0) g.totals in
    record {
      bucket = k.label;
      n_runs = length g.totals;
      total_nanodollars = total;
      avg_nanodollars = if length g.totals == 0 then pos 0 else floor_div total (length g.totals);
      p95_nanodollars = p95 g.totals;
      n_success = g.n_success;
      n_accepted_answer = g.n_accepted;
      uninstrumented = k.uninstrumented;
    }

-- `row.bucket` against another, by code points
abbrev pub text_leb : String → String → Bool
text_leb s t = elim (compare s t) [ Prim.Native.Nat.Ordering.gt ↦ false | _ ↦ true ]

-- The sort's key: `(uninstrumented, -total, bucket)`.
unfoldable pub row_leb : BucketRow → BucketRow → Bool
row_leb a b =
    if a.uninstrumented && not b.uninstrumented
    then false
    else if not a.uninstrumented && b.uninstrumented
    then true
    else if ltb_ℤ b.total_nanodollars a.total_nanodollars
    then true
    else if ltb_ℤ a.total_nanodollars b.total_nanodollars
    then false
    else text_leb a.bucket b.bucket

unfoldable pub insert_row : BucketRow → List BucketRow → List BucketRow
unfolding row_leb
insert_row r [] = r ∷ []
insert_row r (s ∷ ss) = let rest = insert_row r ss in if row_leb r s then r ∷ s ∷ ss else s ∷ rest

unfoldable pub sort_rows : List BucketRow → List BucketRow
unfolding insert_row
sort_rows [] = []
sort_rows (r ∷ rs) = insert_row r (sort_rows rs)

-- `rollup_cost_per_success`
unfoldable pub rollup_cost_per_success :
    {F : Type 0} → (Fields F → String) → List (Value F) → List BucketRow
unfolding sort_rows row_of group_runs
rollup_cost_per_success bucket_of runs = sort_rows (map row_of (group_runs bucket_of runs []))
