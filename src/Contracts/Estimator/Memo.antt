-- ===== src/Contracts/Estimator/Memo.antt =====
-- The token memo of inkfoot/contracts/enforcer.py against counting every text afresh.
use ink_foot.Prelude.Int.{ℤ, eq_of_parts}
use ink_foot.Prelude.{
  sym, ap, ◌∙◌, ℕ, ◌+◌, ◌≤◌, String, ◌≡◌, refl, inl, inr, Bool, true, false, Option, some, List, [],
  ◌∷◌, ◌++◌, arith, leb, if◌then◌else◌, Bool-cases, Option-cases,
}
use mathlib.Core.Option.{some-injective}
use ink_foot.Prelude.Lists.{All}
use text.Mathlib.TextEquality.{eq_iff}
use ink_foot.Contracts.Estimator.{
  Tokens, Memo, MemoKey, eq_key, eq_int, recall, key_of, max_entries, cached_token_count,
  count_parts, count_input_tokens, count_tool_tokens, estimate_call, price_guess, predicted_output,
  system_texts, message_texts, tool_texts, length, Float, Fields, get,
}

eq_int→eq : (a b : ℤ) → eq_int a b ≡ true → a ≡ b
eq_int→eq a b h = ground (arith, eq_of_parts a b)

module _ {F : Type 0} (t : Tokens F) where
  -- The tokens of a list of texts, each counted afresh.
  unfoldable pub fresh_count : List String → String → ℕ
  fresh_count [] model = 0
  fresh_count (s ∷ ss) model = t.tokenise s model + fresh_count ss model

  IsBounded : Memo → Type 0
  IsBounded memo = length memo ≤ max_entries

  cached_token_count-IsBounded :
      (s model : String) (memo : Memo)
      → IsBounded memo
      → IsBounded (cached_token_count t s model memo).1
  unfolding cached_token_count IsBounded
  cached_token_count-IsBounded s model memo h =
      elim (Option-cases (recall (key_of t s model) memo)) [
        | inl e ↦ rw (e, cached_token_count) (ground arith)
        | inr (n, e) ↦ rw (e, cached_token_count) h
      ]

  count_parts-IsBounded :
      (ss : List String) (model : String) (memo : Memo)
      → IsBounded memo
      → IsBounded (count_parts t ss model memo).1
  unfolding count_parts
  count_parts-IsBounded [] model memo h = h
  count_parts-IsBounded (s ∷ ss) model memo h =
      count_parts-IsBounded ss model _ (cached_token_count-IsBounded s model memo h)

  -- The texts of a request on the input side.
  abbrev pub input_texts : Fields F → List String
  input_texts kwargs =
      system_texts t (get "system" kwargs) ++ message_texts t (get "messages" kwargs)

module _ {F : Type 0} (t : Tokens F) (Known : String → Type 0) where
  -- No two of the known texts have the same hash and length and different counts.
  unfoldable pub NoCollision : Type 0
  NoCollision =
      (r s model : String)
      → Known r
      → Known s
      → t.hash r ≡ t.hash s
      → t.len r ≡ t.len s
      → t.tokenise r model ≡ t.tokenise s model

  -- An entry of the memo is the tokeniser's count of a known text.
  abbrev pub IsCount : MemoKey × ℕ → Type 0
  IsCount (k, n) =
      (s : String) × (model : String) × (Known s)
      × (k ≡ key_of t s model)
      × (n ≡ t.tokenise s model)

  abbrev pub IsFaithful : Memo → Type 0
  IsFaithful memo = All IsCount memo

  same_count :
      NoCollision
      → (r s m n : String) → Known r
      → Known s
      → eq_key (key_of t r m) (key_of t s n) ≡ true
      → t.tokenise r m ≡ t.tokenise s n
  unfolding NoCollision
  same_count ok r s m n kr ks h =
      ground (arith, eq_iff m n, eq_int→eq (t.hash r) (t.hash s), ok r s m kr ks)

  -- What the memo recalls for a known text is the tokeniser's count of it.
  recall-IsFaithful :
      NoCollision
      → (s model : String) (n : ℕ) (memo : Memo) → Known s
      → IsFaithful memo
      → recall (key_of t s model) memo ≡ some n
      → n ≡ t.tokenise s model
  unfolding recall
  recall-IsFaithful ok s model n [] known h found = cc found
  recall-IsFaithful ok s model n ((k, m) ∷ memo) known ((r, m', kr, key, count), rest) found =
      elim (Bool-cases (eq_key k (key_of t s model))) [
        | inl e ↦
            sym (some-injective _ _ (sym (rw e refl) ∙ found))
            ∙ count
            ∙ same_count ok r s m' model kr known
                (ap (λ j. eq_key j (key_of t s model)) (sym key) ∙ e)
        | inr e ↦ recall-IsFaithful ok s model n memo known rest (sym (rw e refl) ∙ found)
      ]

  kept-IsFaithful : (b : Bool) (memo : Memo) → IsFaithful memo → IsFaithful (if b then [] else memo)
  kept-IsFaithful true memo h = tt
  kept-IsFaithful false memo h = h

  cached_token_count-IsFaithful :
      NoCollision
      → (s model : String) (memo : Memo) → Known s
      → IsFaithful memo
      → ((cached_token_count t s model memo).0 ≡ t.tokenise s model)
        × IsFaithful (cached_token_count t s model memo).1
  unfolding cached_token_count
  cached_token_count-IsFaithful ok s model memo known h =
      elim (Option-cases (recall (key_of t s model) memo)) [
        | inl e ↦
            rw (e, cached_token_count)
              (
                refl,
                (
                  (s, model, known, refl, refl),
                  kept-IsFaithful (leb max_entries (length memo)) memo h,
                ),
              )
        | inr (n, e) ↦ rw (e, cached_token_count) (recall-IsFaithful ok s model n memo known h e, h)
      ]

  count_parts-IsFaithful :
      NoCollision
      → (ss : List String) (model : String) (memo : Memo) → All Known ss
      → IsFaithful memo
      → ((count_parts t ss model memo).0 ≡ fresh_count t ss model)
        × IsFaithful (count_parts t ss model memo).1
  unfolding count_parts fresh_count
  count_parts-IsFaithful ok [] model memo known h = (refl, h)
  count_parts-IsFaithful ok (s ∷ ss) model memo (ks, kss) h =
      let one = cached_token_count-IsFaithful ok s model memo ks h in
      let rest =
        count_parts-IsFaithful ok ss model (cached_token_count t s model memo).1 kss one.1 in
      (omega (arith, one.0, rest.0), rest.1)

  count_input_tokens-IsFaithful :
      NoCollision
      → (kwargs : Fields F) (model : String) (memo : Memo) → All Known (input_texts t kwargs)
      → IsFaithful memo
      → ((count_input_tokens t kwargs model memo).0 ≡ fresh_count t (input_texts t kwargs) model)
        × IsFaithful (count_input_tokens t kwargs model memo).1
  unfolding count_input_tokens
  count_input_tokens-IsFaithful ok kwargs = count_parts-IsFaithful ok (input_texts t kwargs)

  count_tool_tokens-IsFaithful :
      NoCollision
      → (kwargs : Fields F) (model : String) (memo : Memo)
      → All Known (tool_texts t (get "tools" kwargs))
      → IsFaithful memo
      → ((count_tool_tokens t kwargs model memo).0
          ≡ fresh_count t (tool_texts t (get "tools" kwargs)) model)
        × IsFaithful (count_tool_tokens t kwargs model memo).1
  unfolding count_tool_tokens
  count_tool_tokens-IsFaithful ok kwargs =
      count_parts-IsFaithful ok (tool_texts t (get "tools" kwargs))

module _ (f : Float) where
  open f use {F}

  -- Among texts of which no two have one hash and length and different counts, with a memo whose entries
  -- are counts of such texts: the estimate of a call whose texts are among them is the price of its texts
  -- counted afresh, and the entries of the memo it leaves are counts of such texts again.
  pub estimate_call-fresh :
      (t : Tokens F) (Known : String → Type 0) (provider model : String) (kwargs : Fields F)
      (avg : Option F) (memo : Memo)
      → NoCollision t Known
      → All Known (input_texts t kwargs)
      → All Known (tool_texts t (get "tools" kwargs))
      → IsFaithful t Known memo
      → ((estimate_call f t provider model kwargs avg memo).0
          ≡ price_guess provider model
              (fresh_count t (input_texts t kwargs) model)
              (fresh_count t (tool_texts t (get "tools" kwargs)) model)
              (predicted_output f avg))
        × IsFaithful t Known (estimate_call f t provider model kwargs avg memo).1
  unfolding estimate_call
  estimate_call-fresh t Known provider model kwargs avg memo ok known_input known_tools h =
      let input = count_input_tokens-IsFaithful t Known ok kwargs model memo known_input h in
      let tools = count_tool_tokens-IsFaithful t Known ok kwargs model _ known_tools input.1 in
      (rw (input.0, tools.0) refl, tools.1)

  -- An estimate leaves at most 4096 entries in the memo, if there were no more before.
  pub estimate_call-IsBounded :
      (t : Tokens F) (provider model : String) (kwargs : Fields F) (avg : Option F) (memo : Memo)
      → length memo ≤ max_entries
      → length (estimate_call f t provider model kwargs avg memo).1 ≤ max_entries
  unfolding estimate_call count_input_tokens count_tool_tokens IsBounded
  estimate_call-IsBounded t provider model kwargs avg memo h =
      count_parts-IsBounded t (tool_texts t (get "tools" kwargs)) model
        ((count_input_tokens t kwargs model memo).1)
        (count_parts-IsBounded t (input_texts t kwargs) model memo h)
