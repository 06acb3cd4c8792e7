-- ===== src/Redaction/FloorLast.antt =====
-- What the floor of inkfoot/storage/redaction.py puts out, and that it runs last.
use ink_foot.Prelude.{ℕ, String, ◌≡◌, refl, Option, none, some, List, [], ◌∷◌}
use ink_foot.Prelude.Dict.{Dict}
use ink_foot.Value.{
  Value, null, boolean, int, real, nan, text, list, dict, Items, nil, cons, Fields, end, field,
}
use ink_foot.Value.Equality.{AllTexts, AllTextsItems, AllTextsFields}
use ink_foot.Redaction.{
  Pattern, placeholder, RedactionContext, scrub_str, Hook, scrub, scrub_items, scrub_fields,
  regex_redactor, composed,
}

-- An output of the floor.
pub record Scrubbed (ps : List Pattern) (t : String) : Type 0 where
  pub original : String
  pub output : (scrub_str ps original []).0 ≡ t

-- The counts are written, not read.
scrub_str-counts :
    (ps : List Pattern) (s : String) (c d : Dict ℕ) → (scrub_str ps s c).0 ≡ (scrub_str ps s d).0
unfolding scrub_str
scrub_str-counts [] s c d = refl
scrub_str-counts ((name, subn) ∷ ps) s c d = scrub_str-counts ps (subn (placeholder name) s).0 _ _

module _ {F : Type 0} (ps : List Pattern) where
  mutual
    unfolding scrub AllTexts

    scrub-AllTexts : (v : Value F) (c : Dict ℕ) → AllTexts (Scrubbed ps) (scrub ps v c).0
    scrub-AllTexts null c = tt
    scrub-AllTexts (boolean b) c = tt
    scrub-AllTexts (int n) c = tt
    scrub-AllTexts (real x) c = tt
    scrub-AllTexts nan c = tt
    scrub-AllTexts (text s) c = record { original = s; output = scrub_str-counts ps s [] c }
    scrub-AllTexts (list vs) c = scrub_items-AllTexts vs c
    scrub-AllTexts (dict fs) c = scrub_fields-AllTexts fs c

    scrub_items-AllTexts :
        (vs : Items F) (c : Dict ℕ) → AllTextsItems (Scrubbed ps) (scrub_items ps vs c).0
    scrub_items-AllTexts nil c = tt
    scrub_items-AllTexts (cons v vs) c =
        (scrub-AllTexts v c, scrub_items-AllTexts vs (scrub ps v c).1)

    scrub_fields-AllTexts :
        (fs : Fields F) (c : Dict ℕ) → AllTextsFields (Scrubbed ps) (scrub_fields ps fs c).0
    scrub_fields-AllTexts end c = tt
    scrub_fields-AllTexts (field k v fs) c =
        (scrub-AllTexts v c, scrub_fields-AllTexts fs (scrub ps v c).1)

  -- A mapping that a hook returns has passed the floor.
  abbrev pub Floored : Option (Value F) → Type 0
  Floored (some (dict fs)) = AllTextsFields (Scrubbed ps) fs
  Floored _ = Unit

  pub regex_redactor-Floored :
      (payload : Value F) (ctx : RedactionContext) → Floored (regex_redactor ps payload ctx)
  unfolding regex_redactor
  regex_redactor-Floored (dict fs) ctx = scrub_fields-AllTexts fs []
  regex_redactor-Floored null ctx = tt
  regex_redactor-Floored (boolean b) ctx = tt
  regex_redactor-Floored (int n) ctx = tt
  regex_redactor-Floored (real x) ctx = tt
  regex_redactor-Floored nan ctx = tt
  regex_redactor-Floored (text s) ctx = tt
  regex_redactor-Floored (list vs) ctx = tt

  pub floor_last :
      (custom : Hook F) (payload : Value F) (ctx : RedactionContext)
      → Floored (composed (custom ∷ regex_redactor ps ∷ []) payload ctx)
  unfolding composed
  floor_last custom payload ctx = after_custom (custom payload ctx)
    where
      passed :
          (o : Option (Value F)) → Floored o → Floored (elim o [ none ↦ none | some v ↦ some v ])
      passed none h = tt
      passed (some v) h = h

      after_custom :
          (o : Option (Value F))
          → Floored (elim o [ none ↦ none | some v ↦ composed (regex_redactor ps ∷ []) v ctx ])
      after_custom none = tt
      after_custom (some v) = passed (regex_redactor ps v ctx) (regex_redactor-Floored v ctx)
