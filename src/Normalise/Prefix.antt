-- ===== src/Normalise/Prefix.antt =====
-- The stable prefix of a run's system blocks, `update_stable_prefix` of inkfoot/normalise/__init__.py.
use ink_foot.Prelude.{◌≡◌, refl, ap, ◌∙◌, inl, inr, arith, ◌==◌, str_eq, if◌then◌else◌, Bool-cases}
use Prim.Native.Char.{code, Char}
use Prim.Native.String.{String}
use Prim.Native.String.{◌++◌ as text_append}
use package.text.Mathlib.TextEquality.{Char-path}
use package.text.Mathlib.TextLemmas.{nil-append, cons-append}
use ink_foot.Normalise.{common_prefix, update_stable_prefix, drop_length}

-- A text is the first part of another, and the rest is what `drop_length` leaves.
abbrev pub Splits : String → String → Type 0
Splits p s = text_append p (drop_length p s) ≡ s

Splits-cons :
    (c d : Char) (p s : String)
    → c ≡ d
    → Splits p s
    → text_append (String.◌∷◌ c p) (drop_length p s) ≡ String.◌∷◌ d s
Splits-cons c d p s h k = rw (cons-append c p (drop_length p s), k, h) refl

common_prefix-Splits : (s t : String) → Splits (common_prefix s t) s × Splits (common_prefix s t) t
unfolding common_prefix drop_length
common_prefix-Splits String.[] t = (refl, nil-append t)
common_prefix-Splits (String.◌∷◌ c s) String.[] = (nil-append (String.◌∷◌ c s), refl)
common_prefix-Splits (String.◌∷◌ c s) (String.◌∷◌ d t) = elim (Bool-cases (code c == code d)) [
  | inl e ↦
      let rest = common_prefix-Splits s t in
      rw e
        (Splits-cons c c _ s refl rest.0, Splits-cons c d _ t (Char-path c d (ground arith)) rest.1)
  | inr e ↦ rw e (nil-append (String.◌∷◌ c s), nil-append (String.◌∷◌ d t))
]

drop_self : (s : String) → text_append s (drop_length s s) ≡ s
unfolding drop_length
drop_self String.[] = refl
drop_self (String.◌∷◌ c s) = cons-append c _ _ ∙ ap (λ r. String.◌∷◌ c r) (drop_self s)

-- What follows the new prefix in the block, put behind it, is the block again, so the static and the
-- dynamic text are the whole system block; and the new prefix begins the old one, unless that is empty.
pub update_stable_prefix-Splits :
    (current block : String)
    → Splits (update_stable_prefix current block) block
      × Splits
          (update_stable_prefix current block)
          (if str_eq current "" then update_stable_prefix current block else current)
unfolding update_stable_prefix
update_stable_prefix-Splits current block = elim (Bool-cases (str_eq current "")) [
  | inl e ↦ rw e (drop_self block, drop_self block)
  | inr e ↦ let both = common_prefix-Splits current block in rw e (both.1, both.0)
]
