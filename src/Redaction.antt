-- ===== src/Redaction.antt =====
-- inkfoot/storage/redaction.py, and the row of contents that `insert_event` of
-- inkfoot/storage/sqlite.py writes. `re`, `json` and the equality of numbers are parameters.
mod Tests
pub mod FloorLast
pub mod Floor
use Prim.Native.String.{◌++◌ as text_append}
use ink_foot.Prelude.Int.{ℤ}
use ink_foot.Prelude.{
  ℕ, zero, suc, ◌+◌, String, ◌≡◌, Bool, true, false, ◌&&◌, ◌||◌, not, Option, none, some, List, [],
  ◌∷◌, str_eq, if◌then◌else◌,
}
use ink_foot.Prelude.Dict.{Dict, lookup, insert}
use ink_foot.Value.{
  Value, null, boolean, int, real, nan, text, list, dict, Items, nil, cons, Fields, end, field, Key,
  find, get,
}
use ink_foot.Value.Equality.{same, differs}

pub record RedactionContext : Type 0 where
  pub run_id : String
  pub event_id : String
  pub kind : String
  pub capture_mode : String
  pub sequence : ℤ

-- A pattern's name, and its `subn` as a function of the replacement: the new text and the hits.
abbrev pub Pattern : Type 0
Pattern = String × (String → String → String × ℕ)

-- `REDACTION_PLACEHOLDER.format(name=name)`
abbrev pub placeholder : String → String
placeholder name = text_append "[REDACTED:" (text_append name "]")

abbrev pub or_zero : Option ℕ → ℕ
or_zero none = 0
or_zero (some n) = n

-- `if hits: counts[name] = counts.get(name, 0) + hits`
abbrev pub count_hits : String → ℕ → Dict ℕ → Dict ℕ
count_hits name zero counts = counts
count_hits name (suc n) counts = insert name (or_zero (lookup name counts) + suc n) counts

-- `RegexRedactor._scrub_str`
unfoldable pub scrub_str : List Pattern → String → Dict ℕ → String × Dict ℕ
unfolding lookup insert
scrub_str [] t counts = (t, counts)
scrub_str ((name, subn) ∷ ps) t counts =
    let (t', hits) = subn (placeholder name) t in scrub_str ps t' (count_hits name hits counts)

-- A hook is handed a payload and returns one, or raises (`none`). Only a mapping is a payload; a hook
-- may return any value of JSON.
abbrev pub Hook : Type 0 → Type 0
Hook F = Value F → RedactionContext → Option (Value F)

module _ {F : Type 0} where
  unfoldable mutual
    unfolding scrub_str

    -- `RegexRedactor._scrub`: the keys of mappings stay.
    pub scrub : List Pattern → Value F → Dict ℕ → Value F × Dict ℕ
    scrub ps (text s) counts = let (t, counts') = scrub_str ps s counts in (text t, counts')
    scrub ps (list vs) counts = let (ws, counts') = scrub_items ps vs counts in (list ws, counts')
    scrub ps (dict fs) counts = let (gs, counts') = scrub_fields ps fs counts in (dict gs, counts')
    scrub ps v counts = (v, counts)

    pub scrub_items : List Pattern → Items F → Dict ℕ → Items F × Dict ℕ
    scrub_items ps nil counts = (nil, counts)
    scrub_items ps (cons v vs) counts =
        let (w, counts') = scrub ps v counts in
        let (ws, counts'') = scrub_items ps vs counts' in (cons w ws, counts'')

    pub scrub_fields : List Pattern → Fields F → Dict ℕ → Fields F × Dict ℕ
    scrub_fields ps end counts = (end, counts)
    scrub_fields ps (field k v fs) counts =
        let (w, counts') = scrub ps v counts in
        let (gs, counts'') = scrub_fields ps fs counts' in (field k w gs, counts'')

  -- `RegexRedactor.__call__`, the audit left out; what has no `items` raises.
  unfoldable pub regex_redactor : List Pattern → Hook F
  unfolding scrub
  regex_redactor ps (dict fs) ctx = some (dict (scrub_fields ps fs []).0)
  regex_redactor ps _ ctx = none

  abbrev pub identity : Hook F
  identity payload ctx = some payload

  unfoldable pub present : List (Option (Hook F)) → List (Hook F)
  present [] = []
  present (none ∷ hooks) = present hooks
  present (some hook ∷ hooks) = hook ∷ present hooks

  -- `_composed`
  unfoldable pub composed : List (Hook F) → Hook F
  composed [] payload ctx = some payload
  composed (hook ∷ hooks) payload ctx = elim (hook payload ctx) [
    | none ↦ none
    | some payload' ↦ composed hooks payload' ctx
  ]

  abbrev pub chain : List (Hook F) → Hook F
  chain [] = identity
  chain (hook ∷ []) = hook
  chain hooks = composed hooks

  unfoldable pub compose : List (Option (Hook F)) → Hook F
  unfolding present composed
  compose hooks = chain (present hooks)

  -- `resolve_redaction_hook`, for the default patterns
  unfoldable pub resolve_redaction_hook : List Pattern → String → Option (Hook F) → Option (Hook F)
  unfolding regex_redactor compose
  resolve_redaction_hook ps capture_mode none =
      if str_eq capture_mode "replay" then some (regex_redactor ps) else none
  resolve_redaction_hook ps capture_mode (some custom) =
      if str_eq capture_mode "replay"
      then some (compose (some custom ∷ some (regex_redactor ps) ∷ []))
      else none

-- `json.loads`, `json.dumps` with `default=str`, each with its exception, `json.dumps` of a text, and
-- `str`.
pub record Json (F : Type 0) : Type 0 where
  pub loads : String → Option (Value F)
  pub dumps : Value F → Option String
  pub dumps_text : String → String
  pub str : Value F → String

-- The texts of an event's request, response and tool result, and whether they were redacted.
pub record Contents : Type 0 where
  pub request_json : Option String
  pub response_json : Option String
  pub tool_result_json : Option String
  pub content_redacted : Bool

abbrev pub dropped : Contents
dropped = record {
  request_json = none;
  response_json = none;
  tool_result_json = none;
  content_redacted = true;
}

abbrev pub is_present : Option String → Bool
is_present none = false
is_present (some s) = true

abbrev pub has_content : Contents → Bool
has_content c =
    is_present c.request_json || is_present c.response_json || is_present c.tool_result_json

module _ {F : Type 0} (json : Json F) where
  -- `_maybe_load`
  unfoldable pub maybe_load : Option String → Value F
  maybe_load none = null
  maybe_load (some raw) = elim (json.loads raw) [ none ↦ text raw | some v ↦ v ]

  abbrev pub dump_or_quote : Value F → Option String → String
  dump_or_quote v none = json.dumps_text (json.str v)
  dump_or_quote v (some s) = s

  abbrev pub dump_present : Value F → Option String
  dump_present null = none
  dump_present v = some (dump_or_quote v (json.dumps v))

  -- `_dump_field`
  unfoldable pub dump_field : Value F → Option String → Option String
  dump_field v none = none
  dump_field v (some original) = dump_present v

  abbrev pub payload_of : Contents → Fields F
  payload_of c = field (Key.name "request") (maybe_load c.request_json) (
      field (Key.name "response") (maybe_load c.response_json)
        (field (Key.name "tool_result") (maybe_load c.tool_result_json) end))

module _ {F : Type 0} (json : Json F) (number_eq : Value F → Value F → Bool) where
  -- `_content_changed`
  unfoldable pub content_changed : Fields F → Fields F → Bool
  unfolding find same
  content_changed before after =
      differs number_eq (get "request" before) (get "request" after)
      || differs number_eq (get "response" before) (get "response" after)
      || differs number_eq (get "tool_result" before) (get "tool_result" after)

  abbrev pub rewritten : Fields F → Contents → Contents
  rewritten after c = record {
    request_json = dump_field json (get "request" after) c.request_json;
    response_json = dump_field json (get "response" after) c.response_json;
    tool_result_json = dump_field json (get "tool_result" after) c.tool_result_json;
    content_redacted = true;
  }

  -- What the hook's answer makes of the contents.
  abbrev pub after_hook : Option (Value F) → Contents → Contents
  after_hook (some (dict after)) c =
      if content_changed (payload_of json c) after
      then rewritten after c
      else record c { content_redacted = false }
  after_hook _ c = dropped

  -- `apply_to_content`
  unfoldable pub apply_to_content : Option (Hook F) → RedactionContext → Contents → Contents
  unfolding maybe_load dump_field content_changed
  apply_to_content none ctx c = record c { content_redacted = false }
  apply_to_content (some hook) ctx c = after_hook (hook (dict (payload_of json c)) ctx) c

  -- The row of `event_contents` that `insert_event` writes, if any.
  unfoldable pub content_row : Option (Hook F) → RedactionContext → Contents → Option Contents
  unfolding apply_to_content
  content_row hook ctx c =
      if str_eq ctx.capture_mode "replay" && has_content c
      then some (apply_to_content hook ctx c)
      else none
