-- ===== src/Contracts/Estimator/Tests.antt =====
-- The estimate of inkfoot/contracts/enforcer.py with a tokeniser that counts characters.
use ink_foot.Prelude.Int.{ℤ, pos}
use ink_foot.Prelude.{◌≡◌, refl, true, String, none, [], ◌∷◌}
use ink_foot.Prelude.Lists.{elem}
use Prim.Native.String.{count as chars}
use ink_foot.Float.Fixed.{millionths}
use ink_foot.Value.{find, text, list, cons, nil, field, end, Key}
use ink_foot.Contracts.Estimator.{Memo, key_of, Tokens, estimate_call, price_guess, Fields}
use ink_foot.Contracts.Estimator.Memo.{IsFaithful, NoCollision, fresh_count, estimate_call-fresh}

abbrev per_char : Tokens ℤ
per_char = record {
  tokenise = λ s m. chars s;
  dumps = λ v. "message";
  serialise_tools = λ vs. "tools";
  hash = λ s. pos 0;
  len = chars;
}

abbrev request : Fields ℤ
request = field (Key.name "system") (text "be brief") (
    field (Key.name "messages") (list (cons (text "a") (cons (text "b") nil)))
      (field (Key.name "tools") (list (cons (text "search") nil)) end))

-- The texts of the request.
abbrev Known : String → Type 0
Known s = elem s ("be brief" ∷ "message" ∷ "tools" ∷ []) ≡ true

-- The tools were counted before.
abbrev warm : Memo
warm = (key_of per_char "tools" "gpt-4o", 5) ∷ []

no_collision : NoCollision per_char Known
unfolding NoCollision
no_collision r s model kr ks h k = k

estimate_call-fresh_example :
    ((estimate_call millionths per_char "openai" "gpt-4o" request none warm).0
      ≡ price_guess "openai" "gpt-4o" 22 5 (pos 500))
    × IsFaithful per_char Known
        (estimate_call millionths per_char "openai" "gpt-4o" request none warm).1
unfolding fresh_count find
estimate_call-fresh_example =
    estimate_call-fresh millionths per_char Known "openai" "gpt-4o" request none warm no_collision
      (refl, (refl, (refl, tt))) (refl, tt) (("tools", "gpt-4o", refl, refl, refl), tt)
