-- ===== src/Lib.antt =====
-- A verification library for InkFoot, which records what an LLM agent's run costs and enforces the
-- budgets of its Token Contracts.
--
-- The program's parts and how they interact. A provider's response is normalised into a causal
-- token ledger (inkfoot/ledger.py), which the pricing (inkfoot/pricing.py) turns into nanodollars.
-- A contract is parsed from YAML data (inkfoot/contracts/schema.py). Before each call the enforcer
-- (inkfoot/contracts/enforcer.py) estimates the call by the same ledger and prices, projects the
-- run's spend and count against the contract's resolved budget, and picks a rung of the degrade
-- ladder; after the call it folds the actual price into the run's account. Each call is
-- recorded as an event, and a worker projects a run's events into its totals. Two benchmark artefacts
-- are compared scenario by scenario, with a verdict for CI. Policies observe the calls of a run and
-- warn, or narrow the tools that a request offers. A run is a block of the user's code, entered and
-- left through a handle, which keeps the run current meanwhile; what the layers see of its calls goes
-- through the emit pipeline into its events. Reports group finished runs by what a success cost, and
-- smells look for wasteful patterns in a run's events.
--
-- The files:
-- - Prelude: Boolean tests, lists, integers and dictionaries that the parts share. Python's int is
--   ℤ, or ℕ where the code has checked that it is not negative; a dict is an association list.
-- - Float: Python's float, an interface: the doubles other than NaN, the operations used, and the
--   laws of IEEE arithmetic that proofs need (monotone rounding, exactness at 0 and 1).
--   Float/Fixed is an instance with six decimals, on which the tests run.
-- - Value: the JSON and YAML values that parsers take, with NaN as a value of its own; Value/Truth:
--   Python's tests and loops on them.
-- - Ledger: `CausalTokenLedger` with `input_total`, `output_total` (inkfoot/ledger.py);
--   Ledger/Usage is `validate_against_usage`, Ledger/Payload is `ledger_from_payload`.
-- - Pricing: `_lookup_row`, `estimate_nanodollars`, `estimate_embedding_nanodollars` and
--   `estimate_per_category` (inkfoot/pricing.py); Pricing/Table holds the two price tables.
-- - Contracts/Schema: the clauses, `merge` and `resolved_budget`; Contracts/Parse: `contract_from_dict`
--   with the helpers it calls, in FieldChecks and Degrade (inkfoot/contracts/schema.py). An error
--   keeps its class and drops its message.
-- - Contracts/Ladder: `_worst_dimension`, `_ladder_step_for`; Contracts/Estimator: the cost
--   estimate and its token memo; Contracts/Enforcer: the enforcer's state, `register_run`,
--   `release_run`, `before_call`; Contracts/Enforcer/Record: `record_call` and
--   `evaluate_outcome_window` (inkfoot/contracts/enforcer.py). Each method is a function from the
--   enforcer's state to its result and the new state. `before_call` takes the lock twice, with the
--   decision between: the model has it with no step of another thread in between, so calls that
--   overlap are not covered.
-- - Contracts/Runtime: the active enforcer and the hooks that the shims call
--   (inkfoot/contracts/runtime.py); Contracts/Runtime/Process: runs and their calls in any order,
--   one after another, each call the check, the request unless it is blocked, and the record, which
--   a request that failed or was not recognised does not reach;
--   Contracts/Runtime/Outcomes is `notify_outcome`.
-- - Storage: the tables `runs` and `events` of inkfoot/storage/migrations.py and the statements of
--   inkfoot/storage/sqlite.py, each one transaction. Storage/Projection: `project_run_totals`;
--   Storage/Aggregator: `_aggregate_one` and `drain_once` (inkfoot/storage/aggregator.py), with the
--   claim-and-project protocol of one worker as a step relation in Protocol, with the transactions of
--   other threads and a pass that raises, two workers on one run in Race, and
--   the command rebuild-aggregates (inkfoot/cli/rebuild_aggregates.py) in Rebuild.
-- - Redaction: the hooks, the regex floor and `apply_to_content` (inkfoot/storage/redaction.py),
--   and the row of contents of `insert_event` (inkfoot/storage/sqlite.py); a pattern is its `subn`.
--   Hooks return values of JSON or raise, and other objects are not modelled; Value/Equality is
--   Python's `==` on such values.
-- - Diff: `Thresholds` and `_verdict`; Diff/Compare: `_diff_scenario` and `compare_artifacts` over the
--   artefacts of inkfoot/benchmark/schema.py (inkfoot/diff/compare.py, inkfoot/diff/thresholds.py). A
--   reason is data instead of a sentence. Diff/WorstOf is the worst of several verdicts.
-- - Policy: `PolicyDecision` (inkfoot/policy/__init__.py); Policy/BudgetCap and
--   Policy/RetryThrottle are the policies of inkfoot/policy/budget_cap.py and
--   inkfoot/policy/retry_throttle.py, the state of each a record and each hook a step on it; the
--   clock's reading is an argument. Policy/Registry is `register_policies` with its capability
--   checks and the registry, and Policy/Registry/Dispatch its hooks (inkfoot/policy/registry.py).
--   Policy/Tools and Policy/LazyToolExposure are inkfoot/policy/lazy_tool_exposure.py; in its
--   children, Window is an abstract machine on one run, and Refines and Exposed compare the policy
--   with it. The word match is `re.search` with the letters and digits of ASCII (Prelude/Texts).
-- - Normalise: `NeutralCall`, `update_stable_prefix` (inkfoot/normalise/__init__.py); Normalise/Usage:
--   `coerce_token_count` (inkfoot/providers/base.py) and `map_usage` (inkfoot/providers/anthropic.py);
--   Normalise/Anthropic: which text of a request counts for which category; Normalise/Translate:
--   `AnthropicTranslator.translate` (inkfoot/normalise/anthropic.py). A request and a response are
--   documents (`Value`). An SDK object of a response is read like the mapping of its attributes; the
--   blocks of a request are mappings, as the source reads no other ones. A conversation in the shapes
--   of the provider's documentation is in Normalise/Anthropic/Partition/Conversation.
-- - Lifecycle: what a process keeps for its runs, `_emit_event` and `ensure_active_run`;
--   Lifecycle/Marks: `set_outcome`, `tag`, `tag_node`, `checkpoint`, `tag_retrieval`;
--   Lifecycle/Dedup: the sets of emitted responses and errors; Lifecycle/Handle: `_RunHandle` and
--   `_mark_abandoned_runs`, with `_AgentRunFactory` in Factory (inkfoot/_run_lifecycle.py,
--   inkfoot/_run_context.py). Lifecycle/Handle/Program is a language of nested `with` blocks and
--   marks, run by `exec`.
-- - Emit: the context before a call, flags, the fold of a summariser's call and the events of
--   decisions; Emit/Calls: `emit_llm_call` and `emit_llm_call_error`; Emit/Embedding:
--   `emit_embedding_call` (inkfoot/shims/_emit.py), on the process of Lifecycle. Emit/Anthropic
--   joins them with the translator of Normalise.
-- - Reports: `rollup_cost_per_success` (inkfoot/reports/cost_per_success.py).
-- - Smells: `iter_llm_calls` and `DetectionResult` (inkfoot/smells/__init__.py); Smells/Engine:
--   inkfoot/smells/engine.py. The detectors are Smells/RunawayRetryLoop, Smells/UnboundedHistory and
--   Smells/OversizedToolResult (inkfoot/smells/runaway_retry_loop.py,
--   unbounded_conversation_history.py and oversized_tool_result_recycled.py there).
--
-- Bounds and fuel. Loops are structural on a list; the pass over the dirty queue (`drain_loop`) runs
-- on fuel, of which one unit more than there are dirty runs is enough, since each batch shortens the
-- queue. Python's ints are unbounded, so no wrap-around arises; the memo of token counts is bounded
-- by 4096 entries. The sets of emitted responses and errors hold 1000 and 200 keys of a run, and the
-- chain of an exception is followed for 16 links, which is the code's own bound and the fuel.
--
-- Parameters. The tokenisers, `json.dumps`, `hash` and `len` of a string are the record `Tokens`;
-- floats are the record `Float`; `json.loads` is the function `loads`. The translator's tokenisers
-- are the record `Tokeniser`, and `int` of texts and floats is the record `Casts`. What surrounds the
-- emit pipeline, the translator among it, is the record `Around`.
--
-- Not modelled: connections, migrations and the PostgreSQL backend, SDK shims, framework adapters,
-- exporters and the command line, which are I/O and glue to third-party code; and the
-- remaining policies, detectors and translators.
pub mod Prelude
pub mod Float
pub mod Value
pub mod Ledger
pub mod Pricing
pub mod Contracts
pub mod Storage
pub mod Diff
pub mod Policy
pub mod Normalise
pub mod Reports
pub mod Smells
pub mod Redaction
pub mod Lifecycle
pub mod Emit
