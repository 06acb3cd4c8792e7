-- ===== src/Normalise/Anthropic.antt =====
-- inkfoot/normalise/anthropic.py: which text of a request counts for which category. A message that is
-- no mapping has no content, and the blocks of a message are values of a document.
pub mod Partition
use ink_foot.Prelude.Int.{ℤ, pos, negsuc, ◌+ℤ◌, ◌-ℤ◌, ◌≤ℤ◌, ltb_ℤ, leb_ℤ}
use ink_foot.Prelude.{
  ℕ, zero, suc, ◌+◌, ◌-◌, ◌*◌, ◌/◌, ◌%◌, ◌≤◌, ◌<◌, String, ◌≡◌, refl, sym, ap, ◌∙◌, ◌≢◌, ◌⊎◌, inl,
  inr, Bool, true, false, not, ◌&&◌, ◌||◌, Option, none, some, List, [], ◌∷◌, ◌++◌, map, arith,
  eq_iff, eq_refl, ltb, leb, ◌==◌, str_eq, if◌then◌else◌, Bool-cases, Option-cases,
}
use mathlib.Core.Option
use ink_foot.Prelude.Texts.{join}
use ink_foot.Value.{Value, text, list, dict, Fields, find, get}
use ink_foot.Value.Truth.{to_list, is_text, attr, iterated, truthy, text_or_empty}
use ink_foot.Ledger.{CausalTokenLedger}
use ink_foot.Pricing.{estimate_nanodollars}
use ink_foot.Normalise.{
  NeutralCall, NeutralError, InMemoryRunState, update_stable_prefix, drop_length,
  collect_runtime_metadata,
}
use ink_foot.Normalise.Usage.{Casts, TokenUsage, map_usage}

-- `_BLOCK_TEXT_MAX_DEPTH` is 4, and the outermost block stands at depth 0.
abbrev pub levels : ℕ
levels = 5

abbrev pub is_at : ℕ → Option ℕ → Bool
is_at i none = false
is_at i (some j) = i == j

module _ {F : Type 0} where
  abbrev pub text_default : Option (Value F) → List String
  text_default none = "" ∷ []
  text_default (some (text s)) = s ∷ []
  text_default (some _) = []

  -- The texts of a system block's `text` parts.
  pub system_parts : List (Value F) → List String
  unfolding find
  system_parts [] = []
  system_parts (dict b ∷ bs) =
      (if is_text "text" (get "type" b) then text_default (find "text" b) else [])
      ++ system_parts bs
  system_parts (_ ∷ bs) = system_parts bs

  abbrev pub system_text : Value F → String
  system_text (text s) = s
  system_text (list bs) = join "" (system_parts (to_list bs))
  system_text _ = ""

  -- `_extract_system_block`
  unfoldable pub extract_system_block : Fields F → String
  unfolding find system_parts join
  extract_system_block request = system_text (get "system" request)

  -- `_block_text`, where the number is how many more levels may be opened. The source opens mappings only,
  -- and gives "" for an SDK object that is passed back in a request: such objects are no values here.
  unfoldable pub block_text : ℕ → Value F → String
  unfolding find join
  block_text zero b = ""
  block_text (suc n) (text s) = s
  block_text (suc n) (dict b) =
      if is_text "text" (get "type" b)
      then join "" (text_default (find "text" b))
      else if is_text "tool_result" (get "type" b)
      then elim (get "content" b) [
        | text s ↦ s
        | list bs ↦ join "" (map (block_text n) (to_list bs))
        | _ ↦ ""
      ]
      else ""
  block_text (suc n) _ = ""

  abbrev pub is_tool_result : Value F → Bool
  is_tool_result b = is_text "tool_result" (attr "type" b)

  -- The texts of the blocks that are a tool's result, and of the others.
  pub result_texts : List (Value F) → List String
  result_texts [] = []
  result_texts (b ∷ bs) =
      (if is_tool_result b then block_text levels b ∷ [] else []) ++ result_texts bs

  pub spoken_texts : List (Value F) → List String
  spoken_texts [] = []
  spoken_texts (b ∷ bs) =
      (if is_tool_result b then [] else block_text levels b ∷ []) ++ spoken_texts bs

  -- What a message's content says besides tool results.
  abbrev pub spoken : Value F → List String
  spoken (text s) = s ∷ []
  spoken (list bs) = spoken_texts (to_list bs)
  spoken _ = []

  abbrev pub results : Value F → List String
  results (list bs) = result_texts (to_list bs)
  results _ = []

  abbrev pub is_user : Value F → Bool
  is_user m = is_text "user" (attr "role" m)

  -- The loop of `_current_user_text`.
  pub last_user : List (Value F) → Option (Value F) → Option (Value F)
  last_user [] last = last
  last_user (m ∷ ms) last = last_user ms (if is_user m then some m else last)

  abbrev pub said_by : Option (Value F) → String
  said_by none = ""
  said_by (some m) = join "" (spoken (attr "content" m))

  -- `_current_user_text`, over the messages
  unfoldable pub current_user_text : List (Value F) → String
  unfolding last_user join
  current_user_text ms = said_by (last_user ms none)

  pub tool_result_parts : List (Value F) → List String
  unfolding result_texts block_text
  tool_result_parts [] = []
  tool_result_parts (m ∷ ms) = results (attr "content" m) ++ tool_result_parts ms

  -- `_tool_results_text`
  unfoldable pub tool_results_text : List (Value F) → String
  unfolding tool_result_parts join
  tool_results_text ms = join "" (tool_result_parts ms)

  -- `last_user_idx`, from the index of the first message on
  pub last_user_index : ℕ → List (Value F) → Option ℕ → Option ℕ
  last_user_index i [] last = last
  last_user_index i (m ∷ ms) last = last_user_index (suc i) ms (if is_user m then some i else last)

  pub memory_parts : ℕ → Option ℕ → List (Value F) → List String
  unfolding spoken_texts block_text
  memory_parts i last [] = []
  memory_parts i last (m ∷ ms) =
      (if is_at i last then [] else spoken (attr "content" m)) ++ memory_parts (suc i) last ms

  -- `_memory_text`
  unfoldable pub memory_text : List (Value F) → String
  unfolding memory_parts last_user_index join
  memory_text ms = join "" (memory_parts 0 (last_user_index 0 ms none) ms)
