-- ===== src/Redaction/Floor.antt =====
-- The guarantee of inkfoot/storage/redaction.py: whatever a custom hook does, what replay stores has
-- passed the floor.
use ink_foot.Redaction.FloorLast.{Scrubbed, Floored, regex_redactor-Floored, floor_last}
use ink_foot.Prelude.{
  String, ◌≡◌, refl, ap, inl, inr, ◌⊎◌, Bool, true, false, ◌&&◌, ◌||◌, Option, none, some, List, [],
  ◌∷◌, arith, str_eq, if◌then◌else◌, Bool-cases,
}
use ink_foot.Value.{Value, null, boolean, int, real, nan, text, list, dict, Fields, find, get}
use ink_foot.Value.Equality.{
  differs, AllTexts, AllTextsFields, AllTexts-get, same-AllTexts, differs-same,
}
use ink_foot.Redaction.{
  Pattern, RedactionContext, Hook, regex_redactor, composed, compose, present,
  resolve_redaction_hook, Json, Contents, dropped, maybe_load, dump_or_quote, dump_present,
  dump_field, payload_of, content_changed, after_hook, apply_to_content, has_content, content_row,
}

abbrev row_or : Contents → Option Contents → Contents
row_or c none = c
row_or c (some row) = row

module _ {F : Type 0} (ps : List Pattern) where
  module _ (json : Json F) (number_eq : Value F → Value F → Bool) where
    -- Nothing, or the text of a value all of whose texts are outputs of the floor: a text that is
    -- written for it, or the given one.
    abbrev pub Safe : Option String → Option String → Type 0
    Safe given stored =
        (stored ≡ none)
        ⊎ ((v : Value F) × AllTexts (Scrubbed ps) v
            × ((stored ≡ some (dump_or_quote json v (json.dumps v)))
                ⊎ ((stored ≡ given) × (v ≡ maybe_load json given))))

    pub record RowIsSafe (given row : Contents) : Type 0 where
      pub request : Safe given.request_json row.request_json
      pub response : Safe given.response_json row.response_json
      pub tool_result : Safe given.tool_result_json row.tool_result_json

    dump_field-Safe :
        (v : Value F) (given : Option String)
        → AllTexts (Scrubbed ps) v
        → Safe given (dump_field json v given)
    unfolding dump_field
    dump_field-Safe v none h = inl refl
    dump_field-Safe v (some raw) h = present_or_null v h
      where
        present_or_null :
            (v : Value F) → AllTexts (Scrubbed ps) v → Safe (some raw) (dump_present json v)
        present_or_null null h = inl refl
        present_or_null (boolean b) h = inr (boolean b, h, inl refl)
        present_or_null (int n) h = inr (int n, h, inl refl)
        present_or_null (real x) h = inr (real x, h, inl refl)
        present_or_null nan h = inr (nan, h, inl refl)
        present_or_null (text s) h = inr (text s, h, inl refl)
        present_or_null (list vs) h = inr (list vs, h, inl refl)
        present_or_null (dict fs) h = inr (dict fs, h, inl refl)

    Safe_kept :
        (k : String) (given : Option String) (after : Fields F)
        → AllTextsFields (Scrubbed ps) after
        → differs number_eq (maybe_load json given) (get k after) ≡ false
        → Safe given given
    Safe_kept k given after h e = inr (
      maybe_load json given,
      same-AllTexts (Scrubbed ps) number_eq (maybe_load json given) (get k after)
          (differs-same number_eq (maybe_load json given) (get k after) e)
          (AllTexts-get (Scrubbed ps) k after h),
      inr (refl, refl),
    )

    dropped-RowIsSafe : (c : Contents) → RowIsSafe c dropped
    dropped-RowIsSafe c = record { request = inl refl; response = inl refl; tool_result = inl refl }

    none_of_three : (x y z : Bool) → x || y || z ≡ false → (x ≡ false) × (y ≡ false) × (z ≡ false)
    none_of_three x y z h = ground arith

    after_hook-RowIsSafe :
        (o : Option (Value F)) (c : Contents)
        → Floored ps o
        → RowIsSafe c (after_hook json number_eq o c)
    unfolding content_changed find
    after_hook-RowIsSafe none c h = dropped-RowIsSafe c
    after_hook-RowIsSafe (some null) c h = dropped-RowIsSafe c
    after_hook-RowIsSafe (some (boolean b)) c h = dropped-RowIsSafe c
    after_hook-RowIsSafe (some (int n)) c h = dropped-RowIsSafe c
    after_hook-RowIsSafe (some (real x)) c h = dropped-RowIsSafe c
    after_hook-RowIsSafe (some nan) c h = dropped-RowIsSafe c
    after_hook-RowIsSafe (some (text s)) c h = dropped-RowIsSafe c
    after_hook-RowIsSafe (some (list vs)) c h = dropped-RowIsSafe c
    after_hook-RowIsSafe (some (dict after)) c h =
        elim (Bool-cases (content_changed json number_eq (payload_of json c) after)) [
          | inl changed ↦ rw changed (record {
            request =
                dump_field-Safe _ c.request_json (AllTexts-get (Scrubbed ps) "request" after h);
            response =
                dump_field-Safe _ c.response_json (AllTexts-get (Scrubbed ps) "response" after h);
            tool_result =
                dump_field-Safe _ c.tool_result_json
                  (AllTexts-get (Scrubbed ps) "tool_result" after h);
          })
          | inr kept ↦
              let (first, second, third) = none_of_three _ _ _ kept in
              rw kept (record {
                request = Safe_kept "request" c.request_json after h first;
                response = Safe_kept "response" c.response_json after h second;
                tool_result = Safe_kept "tool_result" c.tool_result_json after h third;
              })
        ]

    apply_to_content-RowIsSafe :
        (custom : Option (Hook F)) (mode : String) (ctx : RedactionContext) (c : Contents)
        → str_eq mode "replay" ≡ true
        → RowIsSafe c
            (apply_to_content json number_eq (resolve_redaction_hook ps mode custom) ctx c)
    unfolding apply_to_content resolve_redaction_hook compose present
    apply_to_content-RowIsSafe none mode ctx c replay = rw replay (
        after_hook-RowIsSafe (regex_redactor ps (dict (payload_of json c)) ctx) c
          (regex_redactor-Floored ps (dict (payload_of json c)) ctx))
    apply_to_content-RowIsSafe (some custom) mode ctx c replay = rw replay (
        after_hook-RowIsSafe
          (composed (custom ∷ regex_redactor ps ∷ []) (dict (payload_of json c)) ctx) c
          (floor_last ps custom (dict (payload_of json c)) ctx))

    stored_row : {a b : Contents} → some a ≡ some b → a ≡ b
    stored_row {a} e = ap (λ o. row_or a o) e

    left_true : (x y : Bool) → x && y ≡ true → x ≡ true
    left_true x y h = ground arith

    -- Under the hook that a capture mode calls for, the row of contents that an event of that mode
    -- leaves, if it leaves one, holds in each of its three fields nothing, or a text for a value all of whose
    -- texts are outputs of the patterns: whatever value of JSON the custom hook returns, and also where it raises.
    -- A hook that returns another object is not covered.
    pub content_row-RowIsSafe :
        (custom : Option (Hook F)) (ctx : RedactionContext) (c row : Contents)
        → content_row json number_eq (resolve_redaction_hook ps ctx.capture_mode custom) ctx c
          ≡ some row
        → RowIsSafe c row
    unfolding content_row
    content_row-RowIsSafe custom ctx c row stored =
        when_stored (str_eq ctx.capture_mode "replay" && has_content c) refl stored
      where
        when_stored :
            (writes : Bool)
            → str_eq ctx.capture_mode "replay" && has_content c ≡ writes
            → (if writes
                then some (
                    apply_to_content json number_eq
                      (resolve_redaction_hook ps ctx.capture_mode custom)
                      ctx
                      c)
                else none)
              ≡ some row
            → RowIsSafe c row
        when_stored true replay stored = rw (← stored_row stored) (
            apply_to_content-RowIsSafe custom ctx.capture_mode ctx c
              (left_true (str_eq ctx.capture_mode "replay") (has_content c) replay))
        when_stored false replay stored = cc stored
