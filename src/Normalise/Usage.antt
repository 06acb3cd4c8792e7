-- ===== src/Normalise/Usage.antt =====
-- inkfoot/providers/base.py and the usage mapping of inkfoot/providers/anthropic.py. A response is a
-- document (`Value`), an SDK object the mapping of its attributes; Python's `int` on texts and floats
-- is a parameter.
use ink_foot.Prelude.Int.{ℤ, pos, ◌+ℤ◌, ◌≤ℤ◌, ltb_ℤ, leb_ℤ, clamp, +ℤ_nonneg, clamp_nonneg}
use ink_foot.Prelude.{
  String, ◌≡◌, refl, inl, inr, Bool, true, false, Option, List, [], ◌∷◌, arith, if◌then◌else◌,
  Bool-cases, Option-cases, none,
}
use mathlib.Core.Option
use ink_foot.Value.{Value, boolean, int, real, text, list, dict, Fields, end, find, get}
use ink_foot.Value.Truth.{to_list, is_text, attr}
use ink_foot.Normalise.{CacheStatus, hit, partial, miss, not_applicable, some}

pub record TokenUsage : Type 0 where
  pub input_tokens : ℤ
  pub output_tokens : ℤ
  pub cache_read_tokens : ℤ
  pub cache_creation_tokens : ℤ
  pub reasoning_tokens : ℤ
  pub cache_status : CacheStatus

infixl 5 ◌>>=◌
abbrev ◌>>=◌ : {A B : Type 0} → Option A → (A → Option B) → Option B
◌>>=◌ none f = none
◌>>=◌ (some a) f = f a

-- `TokenUsage.__post_init__` accepts the counters.
abbrev pub IsValid : TokenUsage → Type 0
IsValid u =
    (pos 0 ≤ℤ u.input_tokens)
    × (pos 0 ≤ℤ u.output_tokens)
    × (pos 0 ≤ℤ u.cache_read_tokens)
    × (pos 0 ≤ℤ u.cache_creation_tokens)
    × (pos 0 ≤ℤ u.reasoning_tokens)

pub record Casts (F : Type 0) : Type 0 where
  -- `int(s)`, where `none` is a `ValueError`
  pub int_of_text : String → Option ℤ
  -- `int(x)`, where `none` is the `OverflowError` of an infinity
  pub int_of_float : F → Option ℤ

abbrev pub or_zero : Option ℤ → ℤ
or_zero none = pos 0
or_zero (some n) = n

module _ {F : Type 0} where
  -- `isinstance(v, int)` holds for bools too.
  abbrev pub tokens_of : Value F → ℤ
  tokens_of (int n) = clamp n
  tokens_of (boolean true) = pos 1
  tokens_of _ = pos 0

  -- `extract_usage`
  abbrev pub usage_of : Value F → Fields F
  usage_of (dict fs) = fs
  usage_of _ = end

  pub extract_usage : Value F → Fields F
  unfolding find
  extract_usage r = usage_of (attr "usage" r)

  -- The sum over the `thinking` blocks.
  pub thinking_sum : List (Value F) → ℤ → ℤ
  unfolding find
  thinking_sum [] total = total
  thinking_sum (b ∷ bs) total =
      thinking_sum bs
        (if is_text "thinking" (attr "type" b) then total +ℤ tokens_of (attr "tokens" b) else total)

  abbrev pub content_of : Value F → List (Value F)
  content_of (list bs) = to_list bs
  content_of _ = []

  -- `usage.thinking_tokens` where it is an int of 0 or more, else the sum over the blocks.
  abbrev pub thinking_or : Value F → ℤ → ℤ
  thinking_or (int n) sum = if leb_ℤ (pos 0) n then n else sum
  thinking_or _ sum = sum

  -- `reasoning_token_count`
  pub reasoning_token_count : Value F → ℤ
  unfolding extract_usage thinking_sum find
  reasoning_token_count r =
      thinking_or (get "thinking_tokens" (extract_usage r))
        (thinking_sum (content_of (attr "content" r)) (pos 0))

tokens_of_nonneg : {F : Type 0} (v : Value F) → pos 0 ≤ℤ tokens_of v
tokens_of_nonneg (int n) = clamp_nonneg n
tokens_of_nonneg (boolean true) = omega arith
tokens_of_nonneg v = omega arith

thinking_sum_nonneg :
    {F : Type 0} (bs : List (Value F)) (total : ℤ) → pos 0 ≤ℤ total → pos 0 ≤ℤ thinking_sum bs total
unfolding thinking_sum
thinking_sum_nonneg [] total h = h
thinking_sum_nonneg (b ∷ bs) total h = elim (Bool-cases (is_text "thinking" (attr "type" b))) [
  | inl e ↦ rw e (
      thinking_sum_nonneg bs (total +ℤ tokens_of (attr "tokens" b))
        (+ℤ_nonneg total (tokens_of (attr "tokens" b)) h (tokens_of_nonneg (attr "tokens" b))))
  | inr e ↦ rw e (thinking_sum_nonneg bs total h)
]

thinking_or_nonneg :
    {F : Type 0} (v : Value F) (sum : ℤ) → pos 0 ≤ℤ sum → pos 0 ≤ℤ thinking_or v sum
thinking_or_nonneg (int n) sum h = ground arith
thinking_or_nonneg v sum h = h

reasoning_token_count_nonneg : {F : Type 0} (r : Value F) → pos 0 ≤ℤ reasoning_token_count r
unfolding reasoning_token_count
reasoning_token_count_nonneg r =
    thinking_or_nonneg (get "thinking_tokens" (extract_usage r)) _
      (thinking_sum_nonneg (content_of (attr "content" r)) (pos 0) (omega arith))

-- A chain that returns has returned at its first step.
bind-eq-some :
    {A B : Type 0} (m : Option A) (f : A → Option B) {b : B}
    → (m >>= f) ≡ some b
    → (a : A) × (m ≡ some a) × (f a ≡ some b)
bind-eq-some none f h = cc
bind-eq-some (some a) f h = (a, refl, h)

module _ {F : Type 0} (casts : Casts F) where
  -- `coerce_token_count`; `none` where the cast raises what is not caught.
  pub coerce_token_count : Value F → Option ℤ
  coerce_token_count (int n) = some (clamp n)
  coerce_token_count (text s) = some (clamp (or_zero (casts.int_of_text s)))
  coerce_token_count (real x) = Option.map clamp (casts.int_of_float x)
  coerce_token_count _ = some (pos 0)

  -- `cache_status_from_usage`, from the two counts
  abbrev pub cache_status_of : Bool → Bool → CacheStatus
  cache_status_of true true = partial
  cache_status_of true false = hit
  cache_status_of false true = miss
  cache_status_of false false = not_applicable

  abbrev pub usage_from : ℤ → ℤ → ℤ → ℤ → ℤ → TokenUsage
  usage_from cache_read cache_creation fresh out reasoning = record {
    input_tokens = fresh +ℤ cache_read +ℤ cache_creation;
    output_tokens = out;
    cache_read_tokens = cache_read;
    cache_creation_tokens = cache_creation;
    reasoning_tokens = reasoning;
    cache_status = cache_status_of (ltb_ℤ (pos 0) cache_read) (ltb_ℤ (pos 0) cache_creation);
  }

  -- `AnthropicProvider.map_usage`
  unfoldable pub map_usage : Value F → Option TokenUsage
  unfolding coerce_token_count reasoning_token_count extract_usage find
  map_usage r =
      let usage = extract_usage r in
      do
        cache_read ← coerce_token_count (get "cache_read_input_tokens" usage)
        cache_creation ← coerce_token_count (get "cache_creation_input_tokens" usage)
        fresh ← coerce_token_count (get "input_tokens" usage)
        out ← coerce_token_count (get "output_tokens" usage)
        some (usage_from cache_read cache_creation fresh out (reasoning_token_count r))

  coerce_token_count_nonneg : (v : Value F) (n : ℤ) → coerce_token_count v ≡ some n → pos 0 ≤ℤ n
  unfolding coerce_token_count
  coerce_token_count_nonneg (int m) n h = ground (arith, clamp_nonneg m)
  coerce_token_count_nonneg (text s) n h =
      ground (arith, clamp_nonneg (or_zero (casts.int_of_text s)))
  coerce_token_count_nonneg (real x) n h = elim (Option-cases (casts.int_of_float x)) [
    | inl e ↦ absurd (let k = rw e at h in cc)
    | inr (m, e) ↦ ground (arith, clamp_nonneg m)
  ]
  coerce_token_count_nonneg v n h = ground arith

  -- Whatever the response holds, the counters of the mapped usage are not negative, so the checks of
  -- `TokenUsage.__post_init__` never raise.
  pub map_usage-IsValid : (r : Value F) (u : TokenUsage) → map_usage r ≡ some u → IsValid u
  unfolding map_usage
  map_usage-IsValid r u h =
      let usage = extract_usage r in
      let a = bind-eq-some (coerce_token_count (get "cache_read_input_tokens" usage)) _ h in
      let b = bind-eq-some (coerce_token_count (get "cache_creation_input_tokens" usage)) _ a.2 in
      let c = bind-eq-some (coerce_token_count (get "input_tokens" usage)) _ b.2 in
      let d = bind-eq-some (coerce_token_count (get "output_tokens" usage)) _ c.2 in
      let read = coerce_token_count_nonneg (get "cache_read_input_tokens" usage) a.0 a.1 in
      let written = coerce_token_count_nonneg (get "cache_creation_input_tokens" usage) b.0 b.1 in
      let fresh = coerce_token_count_nonneg (get "input_tokens" usage) c.0 c.1 in
      let out = coerce_token_count_nonneg (get "output_tokens" usage) d.0 d.1 in
      let reasoning = reasoning_token_count_nonneg r in
      let e : usage_from a.0 b.0 c.0 d.0 (reasoning_token_count r) ≡ u = cc (d.2) in
      rw (← e) (
        +ℤ_nonneg (c.0 +ℤ a.0) b.0 (+ℤ_nonneg c.0 a.0 fresh read) written,
        out,
        read,
        written,
        reasoning,
      )
