-- ===== src/Emit/Anthropic.antt =====
-- `AnthropicTranslator.translate` (inkfoot/normalise/anthropic.py) as the translator of inkfoot/shims/_emit.py.
use ink_foot.Prelude.{
  String, ◌≡◌, sym, ap, Bool, Option, none, some, List, str_eq, inl, inr, Bool-cases,
}
use mathlib.Core.Option
use mathlib.Core.Option.{some-injective}
use ink_foot.Value.{Value, null, boolean, int, real, nan, text, list, dict, Fields, get}
use ink_foot.Normalise.{NeutralCall, InMemoryRunState}
use ink_foot.Normalise.Usage.{Casts, TokenUsage}
use ink_foot.Normalise.Translate.{
  Tokeniser, Timing, Counts, call_of, finish, with_usage, for_model, translate,
}

module _ {F : Type 0} (is_zero : F → Bool) (casts : Casts F) (tok : Tokeniser F) where
  mapped-sequence :
      (model : String) (request : Fields F) (response : Value F) (timing : Timing)
      (usage : TokenUsage) (c : Counts) (state : InMemoryRunState) (tools : Option (List (Value F)))
      (call : NeutralCall F)
      → Option.map (call_of is_zero casts tok model request response timing usage c state) tools
        ≡ some call
      → call.sequence ≡ timing.sequence
  unfolding call_of
  mapped-sequence model request response timing usage c state none call found = cc found
  mapped-sequence model request response timing usage c state (some tools) call found =
      sym (ap (λ q. q.sequence) (some-injective _ _ found))

  finish-sequence :
      (model : String) (request : Fields F) (response : Value F) (timing : Timing)
      (usage : TokenUsage) (c : Option Counts) (state : InMemoryRunState) (call : NeutralCall F)
      → (finish is_zero casts tok model request response timing usage c state).1 ≡ some call
      → call.sequence ≡ timing.sequence
  finish-sequence model request response timing usage none state call found = cc found
  finish-sequence model request response timing usage (some c) state call found =
      mapped-sequence model request response timing usage c state _ call found

  with_usage-sequence :
      (model : String) (request : Fields F) (response : Value F) (timing : Timing)
      (usage : Option TokenUsage) (state : InMemoryRunState) (call : NeutralCall F)
      → (with_usage is_zero casts tok model request response timing usage state).1 ≡ some call
      → call.sequence ≡ timing.sequence
  with_usage-sequence model request response timing none state call found = cc found
  with_usage-sequence model request response timing (some usage) state call found =
      finish-sequence model request response timing usage _ _ call found

  for_model-sequence :
      (request : Fields F) (response : Value F) (timing : Timing) (state : InMemoryRunState)
      (v : Value F) (call : NeutralCall F)
      → (for_model is_zero casts tok request response timing state v).1 ≡ some call
      → call.sequence ≡ timing.sequence
  for_model-sequence request response timing state (text model) call found =
      elim (Bool-cases (str_eq model "")) [
        | inl blank ↦ cc (rw blank at found)
        | inr named ↦
            with_usage-sequence model request response timing _ state call (rw named at found)
      ]
  for_model-sequence request response timing state null call found = cc found
  for_model-sequence request response timing state (boolean b) call found = cc found
  for_model-sequence request response timing state (int n) call found = cc found
  for_model-sequence request response timing state (real x) call found = cc found
  for_model-sequence request response timing state nan call found = cc found
  for_model-sequence request response timing state (list vs) call found = cc found
  for_model-sequence request response timing state (dict fs) call found = cc found

  -- A call is numbered as the caller says.
  pub translate-sequence :
      (request : Fields F) (response : Value F) (timing : Timing) (state : InMemoryRunState)
      (call : NeutralCall F)
      → (translate is_zero casts tok request response timing state).1 ≡ some call
      → call.sequence ≡ timing.sequence
  unfolding translate
  translate-sequence request response timing state call found =
      for_model-sequence request response timing state (get "model" request) call found
