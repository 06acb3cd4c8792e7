-- ===== src/Normalise.antt =====
-- inkfoot/normalise/__init__.py and inkfoot/run.py: the provider-neutral record of one call, what a live
-- run remembers between its calls, and the stable prefix of its system blocks.
pub mod Usage
pub mod Anthropic
pub mod Translate
pub mod Prefix
pub mod Tests
use ink_foot.Prelude.Int.{ℤ, pos, negsuc, ◌+ℤ◌, ◌-ℤ◌, ◌≤ℤ◌, ltb_ℤ, leb_ℤ}
use ink_foot.Prelude.{
  ℕ, zero, suc, ◌+◌, ◌-◌, ◌*◌, ◌/◌, ◌%◌, ◌≤◌, ◌<◌, ◌≡◌, refl, sym, ap, ◌∙◌, ◌≢◌, ◌⊎◌, inl, inr,
  Bool, true, false, not, ◌&&◌, ◌||◌, Option, none, some, List, [], ◌∷◌, ◌++◌, map, arith, eq_iff,
  eq_refl, ltb, leb, ◌==◌, str_eq, if◌then◌else◌, Bool-cases, Option-cases,
}
use Prim.Native.Char.{code}
use Prim.Native.String.{String}
use ink_foot.Value.{Value, dict}
use ink_foot.Ledger.{CausalTokenLedger}
use ink_foot.Prelude.Dict.{Dict}

-- `NeutralCall.cache_status`, of `_VALID_CACHE_STATUSES`
pub data CacheStatus : Type 0 where
  hit partial miss not_applicable : CacheStatus

-- `NeutralError`
pub record NeutralError : Type 0 where
  pub type : String
  pub message : String
  pub retryable : Bool

pub record NeutralCall (F : Type 0) : Type 0 where
  pub provider : String
  pub model : String
  pub started_at : ℤ
  pub ended_at : ℤ
  pub ledger : CausalTokenLedger
  pub estimated_nanodollars : Option ℤ
  pub tools_offered : List (Value F)
  pub tools_called : List String
  pub error : Option NeutralError
  pub cache_status : CacheStatus
  pub parent_run_id : Option String
  pub sequence : ℤ
  pub estimation_flags : List String
  pub metadata : Dict (Value F)

-- The fields of `InMemoryRunState` that the translators read.
pub record InMemoryRunState : Type 0 where
  pub stable_system_prefix : String
  pub pending_retrieved_context_tokens : ℤ
  pub node_name : Option String
  pub tools_fingerprint : Option String
  pub agent_name : Option String
  pub task_name : Option String

abbrev pub entry : String → Option String → Dict String
entry k none = []
entry k (some s) = if str_eq s "" then [] else (k, s) ∷ []

-- `_collect_runtime_metadata`
unfoldable pub collect_runtime_metadata : InMemoryRunState → Dict String
collect_runtime_metadata r =
    entry "node_name" r.node_name
    ++ entry "tools_fingerprint" r.tools_fingerprint
    ++ entry "agent_name" r.agent_name
    ++ entry "task_name" r.task_name

-- The loop of `update_stable_prefix`: the characters on which two texts agree, from the first on.
unfoldable pub common_prefix : String → String → String
common_prefix String.[] t = String.[]
common_prefix (String.◌∷◌ c s) String.[] = String.[]
common_prefix (String.◌∷◌ c s) (String.◌∷◌ d t) =
    let rest = common_prefix s t in if code c == code d then String.◌∷◌ c rest else String.[]

-- `update_stable_prefix`
unfoldable pub update_stable_prefix : String → String → String
unfolding common_prefix
update_stable_prefix current block =
    if str_eq current "" then block else common_prefix current block

-- `text[len(prefix):]`
unfoldable pub drop_length : String → String → String
drop_length String.[] t = t
drop_length (String.◌∷◌ c s) String.[] = String.[]
drop_length (String.◌∷◌ c s) (String.◌∷◌ d t) = drop_length s t
