-- ===== src/Normalise/Anthropic/Partition/Conversation.antt =====
-- A conversation in the shapes that Anthropic's API documents for a request's messages, and what
-- inkfoot/normalise/anthropic.py counts of it. Blocks are mappings: texts, images, a tool's use and a
-- tool's result, which holds a text or a list of texts and images.
use ink_foot.Prelude.{ℕ, ◌+◌, Option, none, some, List, [], ◌∷◌, map, str_eq, if◌then◌else◌}
use Prim.Native.String.{String}
use Prim.Native.String.{count as chars}
use ink_foot.Value.{Value, text, list, dict, Fields, end, field, Key}
use ink_foot.Value.Truth.{to_items}

-- What a tool's result lists.
pub data Part : Type 0 where
  words : String → Part
  picture : Part

pub data Block : Type 0 where
  bare : String → Block
  saying : String → Block
  image : Block
  tool_use : String → Block
  result : String → Block
  result_of : List Part → Block

pub data Content : Type 0 where
  whole : String → Content
  blocks : List Block → Content

pub record Turn : Type 0 where
  pub role : String
  pub content : Content

-- The characters that a person reads in the conversation, without a look at how it is encoded.
abbrev part_chars : List Part → ℕ
part_chars [] = 0
part_chars (words s ∷ ps) = chars s + part_chars ps
part_chars (picture ∷ ps) = part_chars ps

abbrev result_chars : Block → ℕ
result_chars (result s) = chars s
result_chars (result_of ps) = part_chars ps
result_chars _ = 0

abbrev said_chars : Block → ℕ
said_chars (bare s) = chars s
said_chars (saying s) = chars s
said_chars _ = 0

abbrev sum_of : (Block → ℕ) → List Block → ℕ
sum_of count [] = 0
sum_of count (b ∷ bs) = count b + sum_of count bs

-- What a turn says, and what tools' results in it say.
abbrev content_said : Content → ℕ
content_said (whole s) = chars s
content_said (blocks bs) = sum_of said_chars bs

abbrev turn_said : Turn → ℕ
turn_said t = content_said t.content

abbrev content_results : Content → ℕ
content_results (whole s) = 0
content_results (blocks bs) = sum_of result_chars bs

abbrev turn_results : Turn → ℕ
turn_results t = content_results t.content

abbrev pub over_turns : (Turn → ℕ) → List Turn → ℕ
over_turns count [] = 0
over_turns count (t ∷ ts) = count t + over_turns count ts

abbrev pub said_in : List Turn → ℕ
said_in ts = over_turns turn_said ts

abbrev pub results_in : List Turn → ℕ
results_in ts = over_turns turn_results ts

abbrev said_or : ℕ → Option Turn → ℕ
said_or n none = n
said_or n (some t) = turn_said t

abbrev last_turn : List Turn → Option Turn
last_turn [] = none
last_turn (t ∷ ts) = elim (last_turn ts) [
  | none ↦ if str_eq t.role "user" then some t else none
  | some u ↦ some u
]

-- What the user says in the last of the user's turns.
abbrev pub asked_in : List Turn → ℕ
asked_in ts = said_or 0 (last_turn ts)

module _ (F : Type 0) where
  abbrev entry : String → Value F → Fields F → Fields F
  entry k v fs = field (Key.name k) v fs

  abbrev encode_part : Part → Value F
  encode_part (words s) = dict (entry "type" (text "text") (entry "text" (text s) end))
  encode_part picture = dict (entry "type" (text "image") end)

  abbrev encode_block : Block → Value F
  encode_block (bare s) = text s
  encode_block (saying s) = dict (entry "type" (text "text") (entry "text" (text s) end))
  encode_block image = dict (entry "type" (text "image") end)
  encode_block (tool_use s) = dict (entry "type" (text "tool_use") (entry "name" (text s) end))
  encode_block (result s) = dict (entry "type" (text "tool_result") (entry "content" (text s) end))
  encode_block (result_of ps) = dict (
      entry "type" (text "tool_result")
        (entry "content" (list (to_items (map encode_part ps))) end))

  abbrev encode_content : Content → Value F
  encode_content (whole s) = text s
  encode_content (blocks bs) = list (to_items (map encode_block bs))

  abbrev encode_turn : Turn → Value F
  encode_turn t = dict (entry "role" (text t.role) (entry "content" (encode_content t.content) end))

  -- The messages of a request.
  abbrev pub encode : List Turn → List (Value F)
  encode ts = map encode_turn ts
