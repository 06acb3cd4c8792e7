-- ===== src/Emit/Tests.antt =====
-- Runs of inkfoot/shims/_emit.py with the translator of Anthropic calls, and the theorems at concrete runs.
use ink_foot.Prelude.Int.{◌+ℤ◌, ℤ, pos}
use ink_foot.Prelude.{
  ℕ, String, ◌≡◌, refl, Bool, true, false, Option, none, some, List, [], ◌∷◌, arith, leb,
  if◌then◌else◌,
}
use ink_foot.Prelude.Lists.{length, count}
use ink_foot.Prelude.Dict.{lookup, insert}
use ink_foot.Float.Fixed.{millionths}
use ink_foot.Value.{Value, text, int, dict, field, end, Key, find}
use ink_foot.Ledger.{empty_ledger, input_total, output_total}
use ink_foot.Pricing.{estimate_nanodollars}
use ink_foot.Policy.{warn}
use ink_foot.Storage.{
  insert_event, iter_events, events_of, find_run, mark_dirty, update_run, start_run,
}
use ink_foot.Normalise.{NeutralCall, NeutralError, not_applicable}
use ink_foot.Normalise.Translate.{translate}
use ink_foot.Normalise.Tests.{casts, tokeniser, request}
use ink_foot.Contracts.Estimator.{Tokens}
use ink_foot.Contracts.Runtime.{CallContext}
use ink_foot.Lifecycle.{ensure_active_run, Process, emit_event, next_sequence}
use ink_foot.Lifecycle.Dedup.{record_emitted_response_id}
use ink_foot.Lifecycle.Handle.{start}
use ink_foot.Emit.Embedding.{EmbeddingCall, emit_embedding_call, emit_embedding_call-projected}
use ink_foot.Storage.Aggregator.{projected}
use ink_foot.Lifecycle.Tests.{at, running, outside}
use ink_foot.Emit.{response_dedup_id, HookDecision, merge_flags}
use ink_foot.Emit.Calls.{emit_new, Emission, Around, dedup_id, emit_llm_call, marked}
use ink_foot.Emit.Once.{emit_all, emit_llm_call-repeated}
use ink_foot.Emit.Marked.{marked-SamePrice, count-merge_flags}
use ink_foot.Emit.Ordered.{InOrder}
use ink_foot.Emit.Sequences.{Observed, answered, raised, observe_all, iter_events-observe_all}
use ink_foot.Emit.Anthropic.{translate-sequence}

abbrev one_token : Tokens ℤ
one_token = record {
  tokenise = λ s m. 1;
  dumps = λ v. "message";
  serialise_tools = λ vs. "tools";
  hash = λ s. pos 0;
  len = λ s. 0;
}

abbrev around : Around ℤ
around = record {
  is_zero = λ x. false;
  translator = translate (λ x. false) casts tokeniser;
  dumps = λ v. "payload";
  dumps_call = λ call. "call";
  loads = λ s. none;
  event_of = outside.event_of;
}

abbrev response : Value ℤ
response = dict (
    field (Key.name "id") (text "msg_1") (
      field (Key.name "usage")
        (dict (
          field (Key.name "input_tokens") (int (pos 10))
            (field (Key.name "output_tokens") (int (pos 4)) end)))
        end))

abbrev ctx_of : String → Bool → CallContext ℤ
ctx_of run_id is_helper = record {
  run_id = run_id;
  provider = "anthropic";
  model = "claude-haiku-4-5";
  request_kwargs = request;
  is_helper = is_helper;
  estimated_nanodollars = none;
}

abbrev warning : HookDecision ℤ
warning = record {
  action = warn;
  reason = some "near the budget";
  metadata = end;
  emit_event_kind = some "budget_warning";
}

-- A call as the shim sees it; `ids` names its events.
abbrev seen_by_shim : String → Option String → (ℕ → String) → Emission ℤ
seen_by_shim run_id response_id ids = record {
  ctx = ctx_of run_id false;
  response = response;
  started_at = pos 1;
  ended_at = pos 2;
  capture_mode = "metadata";
  before_decisions = warning ∷ [];
  response_id = response_id;
  skip_dedup = false;
  extra_estimation_flags = "stream_no_usage" ∷ [];
  ulid = ids;
}

abbrev ids_from : String → ℕ → String
ids_from call n = if leb n 0 then call else "warning"

abbrev by_shim : Emission ℤ
by_shim = seen_by_shim "r1" none (ids_from "e2")

-- The handler sees the same response.
abbrev by_handler : Emission ℤ
by_handler = record (seen_by_shim "r1" (some "msg_1") (ids_from "e3")) { before_decisions = [] }

abbrev other_call : Emission ℤ
other_call = seen_by_shim "r1" (some "msg_2") (ids_from "e4")

-- The shim's call and another one are written.
abbrev written_once : Process ℤ
written_once =
    emit_all millionths one_token around (other_call ∷ [])
      (emit_llm_call millionths one_token around by_shim running).1

shim_id : dedup_id around.is_zero by_shim ≡ some "msg_1"
unfolding dedup_id response_dedup_id find
shim_id = refl

handler_id : dedup_id around.is_zero by_handler ≡ some "msg_1"
unfolding dedup_id
handler_id = refl

other_id : dedup_id around.is_zero other_call ≡ some "msg_2"
unfolding dedup_id
other_id = refl

emit_llm_call-repeated_example :
    emit_llm_call millionths one_token around by_handler written_once ≡ (
      by_handler.ctx,
      record written_once {
        response_ids = (record_emitted_response_id "r1" "msg_1" written_once.response_ids).1;
      },
    )
emit_llm_call-repeated_example =
    emit_llm_call-repeated millionths one_token around by_shim by_handler (other_call ∷ []) "msg_1"
      running shim_id handler_id refl (rw other_id (omega arith))

-- How many events the process holds of the run.
abbrev events_in : Process ℤ → ℕ
events_in p = length (events_of "r1" p.store.events)

-- The start, a call with its warning, and the other call, whose warning has an id that is taken.
writes_once : events_in written_once ≡ 4
unfolding emit_llm_call emit_new dedup_id response_dedup_id find events_of insert_event start
    find_run translate mark_dirty update_run
writes_once = refl

failure : NeutralError
failure = record { type = "RateLimitError"; message = "slow down"; retryable = false }

-- A call that fails and is seen twice, between two that are answered.
abbrev mixed : List (Observed ℤ)
mixed =
    answered by_shim
    ∷ raised (λ k. none) (1, "RateLimitError") failure (seen_by_shim "r1" none (ids_from "e5"))
    ∷ raised (λ k. none) (1, "RateLimitError") failure (seen_by_shim "r1" none (ids_from "e6"))
    ∷ answered other_call
    ∷ []

running-InOrder : InOrder "r1" running
unfolding start emit_event next_sequence insert_event start_run events_of lookup insert find_run
    mark_dirty update_run
running-InOrder = (1, (refl, (omega arith, omega arith)))

iter_events-observe_all_example :
    InOrder "r1" (observe_all millionths one_token around mixed running)
    × (iter_events "r1" (observe_all millionths one_token around mixed running).store
        ≡ events_of "r1" (observe_all millionths one_token around mixed running).store.events)
iter_events-observe_all_example =
    iter_events-observe_all millionths one_token around "r1" mixed running
      (translate-sequence around.is_zero casts tokeniser) running-InOrder

-- A summariser's own call, with ten tokens of system text.
abbrev summary : NeutralCall ℤ
summary = record {
  provider = "anthropic";
  model = "claude-haiku-4-5";
  started_at = pos 1;
  ended_at = pos 2;
  ledger = record empty_ledger { system_static_tokens = pos 10; output_tokens = pos 2 };
  estimated_nanodollars = none;
  tools_offered = [];
  tools_called = [];
  error = none;
  cache_status = not_applicable;
  parent_run_id = none;
  sequence = pos 1;
  estimation_flags = "user_input_tokens" ∷ [];
  metadata = [];
}

abbrev by_summariser : Emission ℤ
by_summariser = record by_shim { ctx = ctx_of "r1" true }

marked-SamePrice_example :
    (input_total (marked by_summariser summary).ledger ≡ pos 10)
    × (output_total (marked by_summariser summary).ledger ≡ pos 2)
    × (estimate_nanodollars "anthropic" "claude-haiku-4-5" (marked by_summariser summary).ledger
        ≡ estimate_nanodollars "anthropic" "claude-haiku-4-5" summary.ledger)
unfolding input_total output_total ◌+ℤ◌
marked-SamePrice_example = marked-SamePrice by_summariser summary "anthropic" "claude-haiku-4-5"

count-merge_flags_example :
    count "stream_no_usage"
      (merge_flags ("user_input_tokens" ∷ []) ("stream_no_usage" ∷ "stream_no_usage" ∷ []))
    ≡ 1
count-merge_flags_example =
    count-merge_flags "stream_no_usage" ("user_input_tokens" ∷ [])
      ("stream_no_usage" ∷ "stream_no_usage" ∷ [])

abbrev embedding : EmbeddingCall
embedding = record {
  provider = "voyage";
  model = "voyage-3";
  input_tokens = pos 7;
  batch_size = pos 1;
  occurred_at = none;
  token_count_estimated = false;
  run_id = none;
}

-- The embeddings of a run stand in its log.
embedding_is_written :
    events_in (emit_embedding_call outside.dumps embedding "run-2" (at "e7") running).0 ≡ 2
unfolding emit_embedding_call ensure_active_run start emit_event next_sequence insert_event
    start_run events_of find_run mark_dirty update_run
embedding_is_written = refl

emit_embedding_call-projected_example :
    projected {F = ℤ}
      (λ s. none)
      "r1"
      (emit_embedding_call outside.dumps embedding "run-2" (at "e7") running).0.store
    ≡ projected {F = ℤ} (λ s. none) "r1" running.store
emit_embedding_call-projected_example =
    emit_embedding_call-projected (λ s. none) "r1" outside.dumps embedding "run-2" (at "e7") running
