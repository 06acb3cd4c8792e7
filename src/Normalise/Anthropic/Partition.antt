-- ===== src/Normalise/Anthropic/Partition.antt =====
-- The texts of an Anthropic request's messages, as inkfoot/normalise/anthropic.py reads them: what is
-- no tool's result is in the user's input or in the memory.
pub mod Conversation
use ink_foot.Prelude.{
  ℕ, suc, ◌+◌, ◌≤◌, ◌<◌, ◌≡◌, refl, inl, inr, Bool, true, false, ◌||◌, Option, none, some, List, [],
  ◌∷◌, ◌++◌, map, arith, ◌==◌, if◌then◌else◌, Bool-cases,
}
use Prim.Native.String.{String}
use Prim.Native.String.{◌++◌ as text_append}
use Prim.Native.String.{count as chars}
use package.text.Mathlib.TextLemmas.{length-append as chars-append}
use ink_foot.Prelude.Texts.{join}
use ink_foot.Value.{Value, text, list}
use ink_foot.Value.Truth.{to_list, attr}
use ink_foot.Normalise.Anthropic.{
  levels, is_at, block_text, is_tool_result, result_texts, spoken_texts, spoken, results, is_user,
  last_user, said_by, current_user_text, tool_result_parts, tool_results_text, last_user_index,
  memory_parts, memory_text,
}

-- The characters of texts.
unfoldable pub total : List String → ℕ
total [] = 0
total (s ∷ ss) = chars s + total ss

pub total-append : (ss ts : List String) → total (ss ++ ts) ≡ total ss + total ts
unfolding total
total-append [] ts = omega arith
total-append (s ∷ ss) ts = omega (arith, total-append ss ts)

pub chars-join : (ss : List String) → chars (join "" ss) ≡ total ss
unfolding join total
chars-join [] = refl
chars-join (s ∷ []) = omega arith
chars-join (s ∷ t ∷ ts) = omega (
  arith,
  chars-append s (text_append "" (join "" (t ∷ ts))),
  chars-append "" (join "" (t ∷ ts)),
  chars-join (t ∷ ts),
)

-- An index, if there is one, is below a number.
abbrev Below : ℕ → Option ℕ → Type 0
Below i none = Unit
Below i (some j) = j < i

not_at : (i : ℕ) (last : Option ℕ) → Below i last → is_at i last ≡ false
not_at i none h = refl
not_at i (some j) h = ground arith

Below-suc : (i : ℕ) (last : Option ℕ) → Below i last → Below (suc i) last
Below-suc i none h = tt
Below-suc i (some j) h = omega arith

module _ {F : Type 0} where
  -- What the messages say besides tool results.
  abbrev pub said : List (Value F) → ℕ
  said [] = 0
  said (m ∷ ms) = total (spoken (attr "content" m)) + said ms

  abbrev has_user : List (Value F) → Bool
  has_user [] = false
  has_user (m ∷ ms) = is_user m || has_user ms

  -- A last index that lies before the messages takes none of them.
  memory-before :
      (i : ℕ) (last : Option ℕ) (ms : List (Value F))
      → Below i last
      → total (memory_parts i last ms) ≡ said ms
  unfolding memory_parts total
  memory-before i last [] h = refl
  memory-before i last (m ∷ ms) h = rw (not_at i last h) (
      omega (
        arith,
        total-append (spoken (attr "content" m)) (memory_parts (suc i) last ms),
        memory-before (suc i) last ms (Below-suc i last h),
      ))

  last_user-none :
      (i : ℕ) (ms : List (Value F)) (last : Option ℕ) (u : Option (Value F))
      → has_user ms ≡ false
      → (last_user_index i ms last ≡ last) × (last_user ms u ≡ u)
  unfolding last_user_index last_user
  last_user-none i [] last u h = (refl, refl)
  last_user-none i (m ∷ ms) last u h = ground (arith, last_user-none (suc i) ms last u)

  -- The last user message is at its index or after it.
  index-from :
      (i : ℕ) (ms : List (Value F)) (last : Option ℕ)
      → has_user ms ≡ true
      → (j : ℕ) × (last_user_index i ms last ≡ some j) × (i ≤ j)
  unfolding last_user_index
  index-from i [] last h = absurd (ground arith)
  index-from i (m ∷ ms) last h = elim (Bool-cases (has_user ms)) [
    | inl more ↦
        let r = index-from (suc i) ms (if is_user m then some i else last) more in
        (r.0, r.1, omega (arith, r.2))
    | inr none_left ↦
        let user : is_user m ≡ true = ground arith in
        rw user (i, (last_user-none (suc i) ms (some i) none none_left).0, omega arith)
  ]

  memory-after :
      (i : ℕ) (ms : List (Value F)) (last : Option ℕ) (u : Option (Value F))
      → has_user ms ≡ true
      → total (memory_parts i (last_user_index i ms last) ms) + chars (said_by (last_user ms u))
        ≡ said ms
  unfolding memory_parts last_user_index last_user total
  memory-after i [] last u h = absurd (ground arith)
  memory-after i (m ∷ ms) last u h = elim (Bool-cases (has_user ms)) [
    | inl more ↦
        let last' : Option ℕ = if is_user m then some i else last in
        let u' : Option (Value F) = if is_user m then some m else u in
        let r = index-from (suc i) ms last' more in
        let later : is_at i (last_user_index (suc i) ms last') ≡ false =
          rw r.1 (ground (arith, r.2)) in
        rw later (
          omega (
            arith,
            total-append (spoken (attr "content" m))
                (memory_parts (suc i) (last_user_index (suc i) ms last') ms),
            memory-after (suc i) ms last' u' more,
          ))
    | inr none_left ↦
        let user : is_user m ≡ true = ground arith in
        let same : i == i ≡ true = ground arith in
        let past = last_user-none (suc i) ms (some i) (some m) none_left in
        rw (user, past.0, past.1, same)
          (omega (
            arith,
            memory-before (suc i) (some i) ms (omega arith),
            chars-join (spoken (attr "content" m)),
          ))
  ]

  -- What the current input and the memory hold is what the messages say besides tool results.
  pub said_split :
      (ms : List (Value F)) → chars (current_user_text ms) + chars (memory_text ms) ≡ said ms
  unfolding current_user_text memory_text
  said_split ms = elim (Bool-cases (has_user ms)) [
    | inl some_user ↦ omega (
      arith,
      memory-after 0 ms none none some_user,
      chars-join (memory_parts 0 (last_user_index 0 ms none) ms),
    )
    | inr no_user ↦
        let past = last_user-none 0 ms none none no_user in
        rw (past.0, past.1)
          (omega (arith, memory-before 0 none ms tt, chars-join (memory_parts 0 none ms)))
  ]
