-- ===== src/Storage/Tests.antt =====
-- Runs of inkfoot/storage/aggregator.py on small logs, and its theorems there.
use ink_foot.Prelude.Int.{ℤ, pos, ◌+ℤ◌}
use ink_foot.Prelude.{
  refl, ℕ, String, ◌≡◌, true, Option, none, some, List, [], ◌∷◌, str_eq, if◌then◌else◌, arith,
  Bool-cases, inl, inr, false,
}
use mathlib.Core.List.Perm
use ink_foot.Prelude.Sort.{sort_by}
use ink_foot.Value.{Value, int, text, dict, Fields, end, field, Key, find}
use ink_foot.Storage.{
  set_ended, end_run, Totals, no_totals, Run, Event, Store, new_row, start_run, insert_event,
  get_run, find_run, update_run, claim_clean, mark_dirty, write_totals, set_dirty, events_of,
  iter_events,
}
use ink_foot.Storage.Projection.{project_run_totals, combine, later, added_by_event}
use ink_foot.Storage.Projection.Order.{counted, project_run_totals-Perm}
use ink_foot.Storage.Aggregator.{projected, aggregate_one}
use ink_foot.Storage.Aggregator.Protocol.{
  idle, Steps, stop, more, records, claims, reads, writes, ends,
}
use ink_foot.Storage.Aggregator.Settled.{
  settled_totals, aggregate_one-settles, aggregate_one-raises,
}
use ink_foot.Storage.Aggregator.Queue.{queue}
use ink_foot.Storage.Aggregator.Drain.{AllProject, Empties, drain_loop-Empties}
use ink_foot.Storage.Aggregator.Rebuild.{rebuild, rebuild-Current}
use ink_foot.Storage.Aggregator.Race.{overtaken, overtaken_is_stale}

abbrev entry : String → Value ℤ → Fields ℤ → Fields ℤ
entry k v fs = field (Key.name k) v fs

-- The payloads of the tests, by name: a call, an outcome, and a JSON list that is no object.
abbrev loads : String → Option (Value ℤ)
loads s =
    if str_eq s "call"
    then some (dict (entry "input_tokens" (int (pos 10)) (entry "nanodollars" (int (pos 7)) end)))
    else if str_eq s "outcome"
    then some (dict (entry "outcome" (text "success") end))
    else if str_eq s "text"
    then some (text "no object")
    else none

abbrev event : String → String → String → ℕ → Event
event k kind payload n = record {
  event_id = k;
  run_id = "r1";
  kind = kind;
  occurred_at = pos 0;
  payload_json = some payload;
  sequence = pos n;
  capture_mode = "metadata";
}

abbrev call : Event
call = event "e1" "llm_call" "call" 1

abbrev embedding : Event
embedding = event "e2" "embedding_call" "call" 2

abbrev outcome : Event
outcome = event "e3" "outcome" "outcome" 3

abbrev one_call : Totals
one_call = record no_totals { total_input_tokens = pos 10; total_nanodollars = pos 7 }

abbrev two_calls : Totals
two_calls = record no_totals { total_input_tokens = pos 20; total_nanodollars = pos 14 }

-- A call, an embedding, a broken payload and an outcome.
projection_runs :
    project_run_totals loads (call ∷ embedding ∷ event "e4" "llm_call" "{" 4 ∷ outcome ∷ [])
    ≡ some (record one_call { outcome = some "success" })
unfolding project_run_totals combine later find ◌+ℤ◌ added_by_event
projection_runs = refl

project_run_totals-Perm_example :
    counted (project_run_totals loads (call ∷ outcome ∷ []))
    ≡ counted (project_run_totals loads (outcome ∷ call ∷ []))
project_run_totals-Perm_example =
    project_run_totals-Perm loads (call ∷ outcome ∷ []) (outcome ∷ call ∷ [])
      (Perm.swap outcome call [])

abbrev empty_store : Store
empty_store = record { runs = []; events = [] }

abbrev row : Run
row = new_row "r1" none none (pos 5) none "root" none

abbrev with_run : Run → List Event → Store
with_run r es = record { runs = r ∷ []; events = es }

-- The row of the run once it is aggregated, and ended after that.
abbrev finished : Run
finished = set_ended (pos 9) "complete" (record row { totals = one_call })

called : Steps loads "r1" (with_run row [], idle) (with_run finished (call ∷ []), idle)
unfolding end_run insert_event claim_clean write_totals find_run update_run mark_dirty iter_events
    sort_by events_of project_run_totals combine later find ◌+ℤ◌ added_by_event
called =
    more _ _ _
      (records call (with_run row []) (with_run (set_dirty true row) (call ∷ [])) idle refl)
      (more _ _ _ (claims (with_run (set_dirty true row) (call ∷ [])) refl) (
        more _ _ _ (reads (with_run row (call ∷ [])) one_call refl) (
          more _ _ _ (writes (with_run row (call ∷ [])) one_call) (
            more _ _ _
              (ends "r1" (pos 9) "complete"
                (with_run (record row { totals = one_call }) (call ∷ []))
                (with_run finished (call ∷ [])) idle refl)
              (stop _)))))

settled_totals_example : projected loads "r1" (with_run finished (call ∷ [])) ≡ some one_call
unfolding start_run get_run find_run events_of
settled_totals_example =
    settled_totals loads "r1" empty_store (with_run row []) (with_run finished (call ∷ [])) none
      none none none (pos 5) "root" finished refl refl called refl refl

abbrev pending : Store
pending = with_run (set_dirty true row) (call ∷ [])

aggregate_one-settles_example :
    ((aggregate_one loads "r1" pending).0 ≡ some true)
    × (get_run "r1" (aggregate_one loads "r1" pending).1 ≡ some (record row { totals = one_call }))
    × Steps loads "r1" (pending, idle) ((aggregate_one loads "r1" pending).1, idle)
unfolding get_run find_run iter_events sort_by events_of project_run_totals combine later find ◌+ℤ◌
    added_by_event
aggregate_one-settles_example =
    aggregate_one-settles loads "r1" pending (set_dirty true row) one_call refl refl refl

abbrev poisoned : Store
poisoned = with_run (set_dirty true row) (event "e1" "llm_call" "text" 1 ∷ [])

aggregate_one-raises_example :
    ((aggregate_one loads "r1" poisoned).0 ≡ none)
    × (get_run "r1" (aggregate_one loads "r1" poisoned).1 ≡ some row)
unfolding get_run find_run iter_events sort_by events_of project_run_totals combine later find ◌+ℤ◌
    added_by_event
aggregate_one-raises_example =
    aggregate_one-raises loads "r1" poisoned (set_dirty true row) refl refl refl

abbrev second_call : Event
second_call = event "e2" "llm_call" "call" 2

abbrev both : Store
both = with_run (set_dirty true row) (call ∷ second_call ∷ [])

overtaken_is_stale_example :
    (get_run "r1" (overtaken loads "r1" one_call two_calls both)
      ≡ some (record row { totals = one_call }))
    × (projected loads "r1" (overtaken loads "r1" one_call two_calls both) ≡ some two_calls)
unfolding get_run insert_event claim_clean find_run update_run mark_dirty iter_events sort_by
    events_of project_run_totals combine later find ◌+ℤ◌ added_by_event
overtaken_is_stale_example =
    overtaken_is_stale loads "r1" pending both (set_dirty true row) second_call one_call two_calls
      refl refl refl refl refl

-- The log of "r1" projects to its call, every other log is empty.
pending-AllProject : AllProject loads pending
unfolding AllProject iter_events sort_by events_of project_run_totals combine later find ◌+ℤ◌
    added_by_event
pending-AllProject k = elim (Bool-cases (str_eq "r1" k)) [
  | inl e ↦ (one_call, rw e refl)
  | inr e ↦ (no_totals, rw e refl)
]

wrong-AllProject : AllProject loads (with_run (record row { totals = two_calls }) (call ∷ []))
unfolding AllProject iter_events sort_by events_of project_run_totals combine later find ◌+ℤ◌
    added_by_event
wrong-AllProject k = elim (Bool-cases (str_eq "r1" k)) [
  | inl e ↦ (one_call, rw e refl)
  | inr e ↦ (no_totals, rw e refl)
]

-- A batch size of 1 and two units of fuel empty a queue of one run.
drain_loop-Empties_example : Empties loads 2 1 0 pending
unfolding queue
drain_loop-Empties_example = drain_loop-Empties loads 2 0 0 pending pending-AllProject (omega arith)

-- A clean row with totals that its log does not have is put right.
abbrev wrong : Run
wrong = record row { totals = two_calls }

rebuild-Current_example :
    (total : ℕ) × (s' : Store) × (r' : Run) × (rebuild loads 2 50 (with_run wrong (call ∷ []))
      ≡ (some total, s'))
    × (get_run "r1" s' ≡ some r')
    × (r'.aggregates_dirty ≡ false)
    × (projected loads "r1" s' ≡ some r'.totals)
unfolding get_run find_run
rebuild-Current_example =
    rebuild-Current loads 2 49 (with_run wrong (call ∷ [])) "r1" wrong wrong-AllProject
      (omega arith) refl
