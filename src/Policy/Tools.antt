-- ===== src/Policy/Tools.antt =====
-- What inkfoot/policy/lazy_tool_exposure.py reads of a request and of a response: a tool's name and
-- tag, the last text of a role, and the tools that a response calls. A request and a response are
-- documents (`Value`); an SDK object is read like the mapping of its attributes.
use ink_foot.Prelude.{
  String, Bool, false, ◌||◌, Option, none, some, List, [], ◌∷◌, ◌++◌, str_eq, if◌then◌else◌,
}
use mathlib.Core.Option
use ink_foot.Value.{Value, text, list, dict, Fields, find, get}
use ink_foot.Value.Truth.{truthy, iterated, to_list, is_text, attr, text_or_empty}
use ink_foot.Prelude.Texts.{join, search_word}

-- `_mentions`
unfoldable pub mentions : String → String → Bool
unfolding search_word
mentions s name = if str_eq s "" || str_eq name "" then false else search_word name s

abbrev pub unless_empty : String → String → String
unless_empty s last = if str_eq s "" then last else s

abbrev pub nonempty : String → List String
nonempty s = if str_eq s "" then [] else s ∷ []

module _ {F : Type 0} where
  -- `_tool_name`
  unfoldable pub tool_name : Value F → String
  unfolding find
  tool_name (dict fs) =
      if is_text "function" (get "type" fs)
      then elim (get "function" fs) [
        | dict fn ↦ text_or_empty (get "name" fn)
        | _ ↦ text_or_empty (get "name" fs)
      ]
      else text_or_empty (get "name" fs)
  tool_name _ = ""

  abbrev pub or_empty : Option (Value F) → List String
  or_empty none = "" ∷ []
  or_empty (some (text s)) = s ∷ []
  or_empty (some _) = []

  -- The texts of a content list's `text` blocks.
  pub block_texts : List (Value F) → List String
  unfolding find
  block_texts [] = []
  block_texts (dict b ∷ bs) =
      (if is_text "text" (get "type" b) then or_empty (find "text" b) else []) ++ block_texts bs
  block_texts (_ ∷ bs) = block_texts bs

  -- `_message_text`
  pub message_text : Fields F → String
  unfolding find block_texts join
  message_text m = elim (get "content" m) [
    | text s ↦ s
    | list bs ↦ join " " (block_texts (to_list bs))
    | _ ↦ ""
  ]

  -- The loop of `_last_text_for_role`.
  unfoldable pub last_text : String → List (Value F) → String → String
  unfolding message_text
  last_text role [] last = last
  last_text role (dict m ∷ ms) last =
      last_text role ms
        (if is_text role (get "role" m) then unless_empty (message_text m) last else last)
  last_text role (_ ∷ ms) last = last_text role ms last

  -- The names in a response's `tool_use` blocks, in Anthropic's shape.
  pub used_names : List (Value F) → List String
  unfolding find
  used_names [] = []
  used_names (dict b ∷ bs) =
      (if is_text "tool_use" (get "type" b) then nonempty (text_or_empty (get "name" b)) else [])
      ++ used_names bs
  used_names (_ ∷ bs) = used_names bs

  -- The names in a message's `tool_calls`, in OpenAI's shape.
  pub function_names : List (Value F) → List String
  unfolding find
  function_names [] = []
  function_names (tc ∷ tcs) =
      nonempty (text_or_empty (attr "name" (attr "function" tc))) ++ function_names tcs

  abbrev pub listed : Value F → List (Value F)
  listed (list vs) = to_list vs
  listed _ = []

module _ {F : Type 0} (is_zero : F → Bool) where
  -- `_is_core_tagged`
  unfoldable pub is_core_tagged : Value F → Bool
  unfolding find
  is_core_tagged (dict fs) =
      truthy is_zero (get "inkfoot_core" fs)
      || truthy is_zero (attr "inkfoot_core" (get "function" fs))
  is_core_tagged _ = false

  abbrev pub first_calls : List (Value F) → Option (List (Value F))
  first_calls [] = some []
  first_calls (first ∷ _) = iterated is_zero (attr "tool_calls" (attr "message" first))

  -- `_called_tool_names`; `none` where the loop over `tool_calls` raises.
  unfoldable pub called_tool_names : Value F → Option (List String)
  unfolding find used_names function_names
  called_tool_names r =
      let used = used_names (listed (attr "content" r)) in
      Option.map (λ tcs. used ++ function_names tcs) (first_calls (listed (attr "choices" r)))
