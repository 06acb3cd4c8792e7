-- ===== src/Storage.antt =====
-- The tables of inkfoot/storage/migrations.py and the statements of inkfoot/storage/sqlite.py on
-- them. Each method is one transaction, so one function; `none` is the exception of a violated
-- primary or foreign key, after which the transaction is rolled back.
pub mod Projection
pub mod Rows
pub mod Aggregator
pub mod Tests
use ink_foot.Prelude.Int.{ℤ, leb_ℤ, pos, negsuc, ◌+ℤ◌, ◌-ℤ◌, ◌≤ℤ◌, ltb_ℤ}
use ink_foot.Prelude.{
  ℕ, zero, suc, ◌+◌, ◌-◌, ◌*◌, ◌/◌, ◌%◌, ◌≤◌, ◌<◌, ◌≡◌, refl, sym, ap, ◌∙◌, ◌≢◌, ◌⊎◌, inl, inr,
  Bool, true, false, not, ◌&&◌, ◌||◌, Option, none, some, List, [], ◌∷◌, ◌++◌, map, arith, eq_iff,
  eq_refl, ltb, leb, ◌==◌, str_eq, if◌then◌else◌, Bool-cases, Option-cases, String,
}
use ink_foot.Prelude.Sort.{sort_by}
use ink_foot.Prelude.Lists.{length, take}

-- The projection columns of a run.
pub record Totals : Type 0 where
  pub total_input_tokens : ℤ
  pub total_output_tokens : ℤ
  pub total_cache_read_tokens : ℤ
  pub total_cache_creation_tokens : ℤ
  pub total_nanodollars : ℤ
  pub outcome : Option String

abbrev pub no_totals : Totals
no_totals = record {
  total_input_tokens = pos 0;
  total_output_tokens = pos 0;
  total_cache_read_tokens = pos 0;
  total_cache_creation_tokens = pos 0;
  total_nanodollars = pos 0;
  outcome = none;
}

-- A row of `runs`.
pub record Run : Type 0 where
  pub id : String
  pub task : Option String
  pub agent_kind : Option String
  pub parent_run_id : Option String
  pub run_kind : String
  pub started_at : ℤ
  pub ended_at : Option ℤ
  pub status : String
  pub totals : Totals
  pub aggregates_dirty : Bool
  pub metadata_json : Option String

-- A row of `events`.
pub record Event : Type 0 where
  pub event_id : String
  pub run_id : String
  pub kind : String
  pub occurred_at : ℤ
  pub payload_json : Option String
  pub sequence : ℤ
  pub capture_mode : String

-- Both tables in the order of insertion.
pub record Store : Type 0 where
  pub runs : List Run
  pub events : List Event

-- `SELECT * FROM runs WHERE id = ?`
unfoldable pub find_run : String → List Run → Option Run
find_run k [] = none
find_run k (r ∷ rs) = if str_eq r.id k then some r else find_run k rs

-- `UPDATE runs SET ... WHERE id = ?`
unfoldable pub update_run : String → (Run → Run) → List Run → List Run
update_run k g [] = []
update_run k g (r ∷ rs) = (if str_eq r.id k then g r else r) ∷ update_run k g rs

abbrev pub has_event : String → List Event → Bool
has_event k [] = false
has_event k (e ∷ es) = if str_eq e.event_id k then true else has_event k es

abbrev pub is_some {ℓ} : {A : Type ℓ} → Option A → Bool
is_some none = false
is_some (some a) = true

-- A foreign key that may be NULL.
abbrev pub refers : Option String → List Run → Bool
refers none runs = true
refers (some k) runs = is_some (find_run k runs)

unfoldable pub get_run : String → Store → Option Run
get_run run_id s = find_run run_id s.runs

-- The row that `start_run` inserts.
abbrev pub new_row :
    String → Option String → Option String → ℤ → Option String → String → Option String → Run
new_row run_id task agent_kind started_at parent run_kind metadata = record {
  id = run_id;
  task = task;
  agent_kind = agent_kind;
  parent_run_id = parent;
  run_kind = run_kind;
  started_at = started_at;
  ended_at = none;
  status = "running";
  totals = no_totals;
  aggregates_dirty = false;
  metadata_json = metadata;
}

unfoldable pub start_run :
    String
    → Option String
    → Option String
    → ℤ
    → Option String
    → String
    → Option String
    → Store
    → Option Store
start_run run_id task agent_kind started_at parent run_kind metadata s =
    if is_some (find_run run_id s.runs) || not (refers parent s.runs)
    then none
    else some (record s {
      runs = s.runs ++ new_row run_id task agent_kind started_at parent run_kind metadata ∷ [];
    })

abbrev pub set_ended : ℤ → String → Run → Run
set_ended at status r = record r { ended_at = some at; status = status }

abbrev pub set_dirty : Bool → Run → Run
set_dirty b r = record r { aggregates_dirty = b }

abbrev pub set_totals : Totals → Run → Run
set_totals t r = record r { totals = t }

-- `end_run`; `none` is its ValueError.
unfoldable pub end_run : String → ℤ → String → Store → Option Store
end_run run_id at status s =
    if str_eq status "complete" || str_eq status "error"
    then some (record s { runs = update_run run_id (set_ended at status) s.runs })
    else none

unfoldable pub mark_dirty : String → Store → Store
mark_dirty run_id s = record s { runs = update_run run_id (set_dirty true) s.runs }

-- `mark_all_dirty`, with the number of rows
unfoldable pub mark_all_dirty : Store → Store × ℕ
mark_all_dirty s = (record s { runs = map (set_dirty true) s.runs }, length s.runs)

-- The capture modes that `insert_event` accepts; another one is its ValueError.
abbrev pub known_mode : String → Bool
known_mode m = str_eq m "metadata" || str_eq m "replay"

-- `insert_event`, but for the replay content of the event.
unfoldable pub insert_event : Event → Store → Option Store
insert_event e s =
    if not (known_mode e.capture_mode)
      || has_event e.event_id s.events
      || not (is_some (find_run e.run_id s.runs))
    then none
    else some (mark_dirty e.run_id (record s { events = s.events ++ e ∷ [] }))

-- `claim_clean`: whether the row was dirty, which it is no more.
unfoldable pub claim_clean : String → Store → Bool × Store
claim_clean run_id s = elim (find_run run_id s.runs) [
  | none ↦ (false, s)
  | some r ↦ (r.aggregates_dirty, record s { runs = update_run run_id (set_dirty false) s.runs })
]

unfoldable pub write_totals : String → Totals → Store → Store
write_totals run_id t s = record s { runs = update_run run_id (set_totals t) s.runs }

unfoldable pub update_aggregates : String → Totals → Store → Bool × Store
unfolding claim_clean write_totals
update_aggregates run_id t s =
    let (claimed, s') = claim_clean run_id s in
    (claimed, if claimed then write_totals run_id t s' else s')

-- `WHERE aggregates_dirty = 1`
unfoldable pub dirty_runs : List Run → List Run
dirty_runs [] = []
dirty_runs (r ∷ rs) = let rest = dirty_runs rs in if r.aggregates_dirty then r ∷ rest else rest

-- `read_dirty`; `none` is its ValueError.
unfoldable pub read_dirty : ℕ → Store → Option (List String)
unfolding sort_by dirty_runs
read_dirty zero s = none
read_dirty (suc n) s =
    some (map (λ r. r.id) (take (suc n) (sort_by (λ r. r.started_at) (dirty_runs s.runs))))

-- `WHERE run_id = ?`
unfoldable pub events_of : String → List Event → List Event
events_of run_id [] = []
events_of run_id (e ∷ es) =
    let rest = events_of run_id es in if str_eq e.run_id run_id then e ∷ rest else rest

-- `iter_events`; rows of one sequence number come in the order of insertion, the index's.
unfoldable pub iter_events : String → Store → List Event
unfolding events_of sort_by
iter_events run_id s = sort_by (λ e. e.sequence) (events_of run_id s.events)
