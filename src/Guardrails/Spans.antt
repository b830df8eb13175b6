-- ===== src/Guardrails/Spans.antt =====
-- src/inboxlume/semantic_guardrails.py: `_tokenize`, `_phrase_spans` and `_nearby`.
use inboxlume.Base.{
  ℕ, suc, ◌+◌, ◌-◌, Bool, true, false, ◌&&◌, String, Char, List, [], ◌∷◌, ◌++◌, length, leb, str_eq,
  if◌then◌else◌,
}
use inboxlume.Models.{Platform}

-- A finished word is kept unless it is empty.
abbrev pub push_word : String → List String → List String
push_word String.[] words = words
push_word (String.◌∷◌ c w) words = String.◌∷◌ c w ∷ words

-- The run of word characters at the start of the text, and the words after it.
unfoldable pub split_words : (Char → Bool) → String → String × List String
split_words is_word String.[] = (String.[], [])
split_words is_word (String.◌∷◌ c s) =
    let (w, words) = split_words is_word s in
    if is_word c then (String.◌∷◌ c w, words) else (String.[], push_word w words)

-- `_WORD.findall(value.casefold())`: the maximal runs of `[^\W_]`.
unfoldable pub tokenize : Platform → String → List String
tokenize py value = let (w, words) = split_words py.is_word (py.casefold value) in push_word w words

abbrev pub Span : Type 0
Span = ℕ × ℕ

unfoldable pub is_prefix_of : List String → List String → Bool
is_prefix_of [] ts = true
is_prefix_of (w ∷ ws) [] = false
is_prefix_of (w ∷ ws) (t ∷ ts) = str_eq t w && is_prefix_of ws ts

-- The inner loop of `_phrase_spans`, from a start: `tokens[start : start + width] == phrase`.
unfoldable pub spans_from : List String → ℕ → List String → List Span
spans_from phrase start [] =
    if is_prefix_of phrase [] then (start, start + length phrase) ∷ [] else []
spans_from phrase start (t ∷ ts) =
    let rest = spans_from phrase (suc start) ts in
    if is_prefix_of phrase (t ∷ ts) then (start, start + length phrase) ∷ rest else rest

unfoldable pub phrase_spans : Platform → List String → List String → List Span
phrase_spans py tokens [] = []
phrase_spans py tokens (phrase ∷ phrases) =
    spans_from (tokenize py phrase) 0 tokens ++ phrase_spans py tokens phrases

unfoldable pub nearby : Span → Span → ℕ → Bool
nearby (l0, l1) (r0, r1) maximum_gap =
    if leb l1 r0
    then leb (r0 - l1) maximum_gap
    else if leb r1 l0
    then leb (l0 - r1) maximum_gap
    else true
