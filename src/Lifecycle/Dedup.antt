-- ===== src/Lifecycle/Dedup.antt =====
-- The sets of responses and errors that were emitted, inkfoot/_run_lifecycle.py. An `OrderedDict` is the
-- list of its keys, the oldest first. The lock makes each operation one step.
pub mod Window
use ink_foot.Prelude.{
  ℕ, zero, suc, String, Bool, true, false, ◌&&◌, ◌||◌, Option, none, some, List, [], ◌∷◌, ◌++◌, ltb,
  ◌==◌, str_eq, if◌then◌else◌,
}
use ink_foot.Prelude.Lists.{length}
use ink_foot.Prelude.Dict.{Dict, lookup, insert, remove}

module _ {A : Type 0} (same : A → A → Bool) where
  -- `k in seen`
  abbrev pub holds : A → List A → Bool
  holds k [] = false
  holds k (j ∷ js) = same j k || holds k js

  abbrev pub without : A → List A → List A
  without k [] = []
  without k (j ∷ js) = let rest = without k js in if same j k then rest else j ∷ rest

  -- `seen.move_to_end(k)`
  abbrev pub move_to_end : A → List A → List A
  move_to_end k seen = without k seen ++ k ∷ []

-- `while len(seen) > cap: seen.popitem(last=False)`
unfoldable pub trim : {A : Type 0} → ℕ → List A → List A
trim cap [] = []
trim cap (k ∷ ks) = let rest = trim cap ks in if ltb cap (length (k ∷ ks)) then rest else k ∷ ks

-- `_EMITTED_RESPONSE_IDS_PER_RUN`, `_EMITTED_ERRORS_PER_RUN` and `_ERROR_CHAIN_MAX_DEPTH`
abbrev pub responses_per_run : ℕ
responses_per_run = 1000

abbrev pub errors_per_run : ℕ
errors_per_run = 200

abbrev pub chain_max_depth : ℕ
chain_max_depth = 16

-- One run's set after an id, and whether it is the first sighting.
unfoldable pub see_response : String → List String → Bool × List String
unfolding trim
see_response id seen =
    if holds str_eq id seen
    then (false, move_to_end str_eq id seen)
    else (true, trim responses_per_run (seen ++ id ∷ []))

-- The identity of an exception object, and the name of its type.
abbrev pub ErrorKey : Type 0
ErrorKey = ℕ × String

abbrev pub same_key : ErrorKey → ErrorKey → Bool
same_key (i, s) (j, t) = i == j && str_eq s t

abbrev pub holds_id : ℕ → List ErrorKey → Bool
holds_id i [] = false
holds_id i ((j, t) ∷ keys) = j == i || holds_id i keys

-- The chain of an exception: `next` is `node.__cause__ or node.__context__`. The fuel is the loop's own
-- bound on the length of the chain.
unfoldable pub chain_from :
    ℕ → (ErrorKey → Option ErrorKey) → Option ErrorKey → List ErrorKey → List ErrorKey
chain_from zero next exc chain = chain
chain_from (suc n) next none chain = chain
chain_from (suc n) next (some key) chain =
    let longer = chain_from n next (next key) (chain ++ key ∷ []) in
    if holds_id key.0 chain then chain else longer

abbrev pub any_held : List ErrorKey → List ErrorKey → Bool
any_held [] seen = false
any_held (k ∷ ks) seen = holds same_key k seen || any_held ks seen

-- One run's set after an exception; the chain starts with the exception itself.
unfoldable pub see_error :
    (ErrorKey → Option ErrorKey) → ErrorKey → List ErrorKey → Bool × List ErrorKey
unfolding trim chain_from
see_error next exc seen =
    if any_held (chain_from chain_max_depth next (some exc) []) seen
    then (false, seen)
    else (true, trim errors_per_run (seen ++ exc ∷ []))

abbrev pub or_empty : {A : Type 0} → Option (List A) → List A
or_empty none = []
or_empty (some xs) = xs

-- `_record_emitted_response_id`
unfoldable pub record_emitted_response_id :
    String → String → Dict (List String) → Bool × Dict (List String)
unfolding lookup insert see_response
record_emitted_response_id run_id id sets =
    let (first, seen) = see_response id (or_empty (lookup run_id sets)) in
    (first, insert run_id seen sets)

-- `_record_emitted_error`
unfoldable pub record_emitted_error :
    (ErrorKey → Option ErrorKey)
    → String
    → ErrorKey
    → Dict (List ErrorKey)
    → Bool × Dict (List ErrorKey)
unfolding lookup insert see_error
record_emitted_error next run_id exc sets =
    let (first, seen) = see_error next exc (or_empty (lookup run_id sets)) in
    (first, insert run_id seen sets)
