-- ===== src/Contracts/Estimator.antt =====
-- The cost estimation of inkfoot/contracts/enforcer.py, with its token memo. The tokenisers (tiktoken,
-- the Anthropic SDK), `json.dumps` and Python's `hash` are the fields of `Tokens`.
pub mod Memo
pub mod Tests
use ink_foot.Prelude.Int.{ℤ, pos, negsuc, ◌+ℤ◌, ◌-ℤ◌, ◌≤ℤ◌, ltb_ℤ, leb_ℤ}
use ink_foot.Prelude.{
  ℕ, zero, suc, ◌+◌, ◌-◌, ◌*◌, ◌/◌, ◌%◌, ◌≤◌, ◌<◌, String, ◌≡◌, refl, sym, ap, ◌∙◌, ◌≢◌, ◌⊎◌, inl,
  inr, Bool, true, false, not, ◌&&◌, ◌||◌, Option, none, some, List, [], ◌∷◌, ◌++◌, map, arith,
  eq_iff, eq_refl, ltb, leb, ◌==◌, str_eq, if◌then◌else◌, Bool-cases, Option-cases,
}
use ink_foot.Float.{Float}
use ink_foot.Value.{Value, null, text, list, Items, nil, cons, Fields, get}
use ink_foot.Ledger.{CausalTokenLedger, empty_ledger}
use ink_foot.Pricing.{estimate_nanodollars}
use ink_foot.Prelude.Lists.{length}

pub record Tokens (F : Type 0) : Type 0 where
  -- `tokenise(text, model).value`
  pub tokenise : String → String → ℕ
  -- `json.dumps(value, default=str, sort_keys=True)`
  pub dumps : Value F → String
  -- `serialise_tools_for_tokenisation`
  pub serialise_tools : Items F → String
  -- `hash(text)` and `len(text)`
  pub hash : String → ℤ
  pub len : String → ℕ

-- The key `(model, hash(text), len(text))` of the memo.
pub record MemoKey : Type 0 where
  pub model : String
  pub hash : ℤ
  pub len : ℕ

abbrev pub eq_int : ℤ → ℤ → Bool
eq_int a b = if ltb_ℤ a b then false else if ltb_ℤ b a then false else true

abbrev pub eq_key : MemoKey → MemoKey → Bool
eq_key a b = str_eq a.model b.model && eq_int a.hash b.hash && a.len == b.len

abbrev pub Memo : Type 0
Memo = List (MemoKey × ℕ)

unfoldable pub recall : MemoKey → Memo → Option ℕ
recall k [] = none
recall k ((j, n) ∷ m) = if eq_key j k then some n else recall k m

-- `_TOKEN_CACHE_MAX_ENTRIES`
abbrev pub max_entries : ℕ
max_entries = 4096

-- `DEFAULT_OUTPUT_TOKENS`
abbrev pub default_output_tokens : ℤ
default_output_tokens = pos 500

module _ {F : Type 0} (t : Tokens F) where
  abbrev pub key_of : String → String → MemoKey
  key_of s model = record { model = model; hash = t.hash s; len = t.len s }

  -- `_cached_token_count`: a full memo is cleared before the new entry goes in.
  unfoldable pub cached_token_count : String → String → Memo → ℕ × Memo
  unfolding recall
  cached_token_count s model memo = elim (recall (key_of s model) memo) [
    | some n ↦ (n, memo)
    | none ↦
        let n : ℕ = t.tokenise s model in
        (n, (key_of s model, n) ∷ (if leb max_entries (length memo) then [] else memo))
  ]

  -- The texts that `_count_input_tokens` counts: the system part, then each message.
  abbrev pub system_texts : Value F → List String
  system_texts null = []
  system_texts (text s) = s ∷ []
  system_texts v = t.dumps v ∷ []

  abbrev pub item_texts : Items F → List String
  item_texts nil = []
  item_texts (cons v vs) = t.dumps v ∷ item_texts vs

  abbrev pub message_texts : Value F → List String
  message_texts null = []
  message_texts (list vs) = item_texts vs
  message_texts v = t.dumps v ∷ []

  abbrev pub tool_texts : Value F → List String
  tool_texts (list (cons v vs)) = t.serialise_tools (cons v vs) ∷ []
  tool_texts _ = []

  -- `total += self._cached_token_count(part, model)`, over the parts
  unfoldable pub count_parts : List String → String → Memo → ℕ × Memo
  unfolding cached_token_count
  count_parts [] model memo = (0, memo)
  count_parts (s ∷ ss) model memo =
      let (n, memo') = cached_token_count s model memo in
      let (total, memo'') = count_parts ss model memo' in (n + total, memo'')

  unfoldable pub count_input_tokens : Fields F → String → Memo → ℕ × Memo
  unfolding count_parts
  count_input_tokens kwargs =
      count_parts (system_texts (get "system" kwargs) ++ message_texts (get "messages" kwargs))

  unfoldable pub count_tool_tokens : Fields F → String → Memo → ℕ × Memo
  unfolding count_parts
  count_tool_tokens kwargs = count_parts (tool_texts (get "tools" kwargs))

-- The ledger that is priced, and the price, 0 for a model without one.
unfoldable pub price_guess : String → String → ℕ → ℕ → ℤ → ℤ
price_guess provider model input tools output =
    elim (estimate_nanodollars provider model (record empty_ledger {
      user_input_tokens = pos input;
      tool_schema_tokens = pos tools;
      output_tokens = output;
    })) [ none ↦ pos 0 | some nd ↦ nd ]

module _ (f : Float) where
  open f use {F, round}

  -- `int(round(self._output_avg.get(task, DEFAULT_OUTPUT_TOKENS)))`
  abbrev pub predicted_output : Option F → ℤ
  predicted_output none = default_output_tokens
  predicted_output (some avg) = round avg

  -- `_estimate_call_nanodollars`
  unfoldable pub estimate_call : Tokens F → String → String → Fields F → Option F → Memo → ℤ × Memo
  unfolding count_input_tokens count_tool_tokens price_guess
  estimate_call t provider model kwargs avg memo =
      let (input, memo') = count_input_tokens t kwargs model memo in
      let (tools, memo'') = count_tool_tokens t kwargs model memo' in
      (price_guess provider model input tools (predicted_output avg), memo'')
