-- ===== src/Prelude/Texts.antt =====
-- Python's `sep.join(parts)`, and the search for a whole word that `re.search` makes for the pattern
-- `\bword\b` under IGNORECASE, with ASCII's letters and digits as the word characters.
use ink_foot.Prelude.{
  ℕ, ◌+◌, ◌≡◌, refl, Bool, true, false, not, ◌&&◌, ◌||◌, Option, none, some, List, [], ◌∷◌, leb,
  ◌==◌, if◌then◌else◌,
}
use Prim.Native.Char.{code}
use Prim.Native.String.{String}
use Prim.Native.String.{◌++◌ as text_append}

-- `sep.join(parts)`
unfoldable pub join : String → List String → String
join sep [] = ""
join sep (s ∷ []) = s
join sep (s ∷ t ∷ ts) = text_append s (text_append sep (join sep (t ∷ ts)))

-- The code points of a text.
abbrev pub codes : String → List ℕ
codes String.[] = []
codes (String.◌∷◌ c s) = code c ∷ codes s

abbrev between : ℕ → ℕ → ℕ → Bool
between lo hi c = leb lo c && leb c hi

-- Case folding and `\w`, for the characters of ASCII.
pub lower : ℕ → ℕ
lower c = if between b'A' b'Z' c then c + 32 else c

pub is_word : ℕ → Bool
is_word c = between b'a' b'z' c || between b'A' b'Z' c || between b'0' b'9' c || c == b'_'

abbrev word_at : Option ℕ → Bool
word_at none = false
word_at (some c) = is_word c

abbrev head : List ℕ → Option ℕ
head [] = none
head (c ∷ cs) = some c

-- `\b` between two neighbours; the ends of the text are no word characters.
pub boundary : Option ℕ → Option ℕ → Bool
unfolding is_word
boundary a b = if word_at a then not (word_at b) else word_at b

-- The word, and then a boundary, from here on.
pub ends_word : Option ℕ → List ℕ → List ℕ → Bool
unfolding boundary lower
ends_word last [] cs = boundary last (head cs)
ends_word last (w ∷ ws) [] = false
ends_word last (w ∷ ws) (c ∷ cs) =
    let rest = ends_word (some c) ws cs in if lower w == lower c then rest else false

pub search_from : Option ℕ → List ℕ → List ℕ → Bool
unfolding ends_word
search_from prev ws [] = boundary prev none && ends_word prev ws []
search_from prev ws (c ∷ cs) =
    let rest = search_from (some c) ws cs in
    if boundary prev (some c) && ends_word prev ws (c ∷ cs) then true else rest

-- `re.search(rf"\b{re.escape(word)}\b", text, re.IGNORECASE) is not None`
unfoldable pub search_word : String → String → Bool
unfolding search_from
search_word word s = search_from none (codes word) (codes s)

finds_word : search_word "datadog_metrics" "Use Datadog_Metrics, please" ≡ true
unfolding search_word
finds_word = refl

finds_no_part : search_word "metrics" "Use datadog_metrics" ≡ false
unfolding search_word
finds_no_part = refl
