-- ===== src/Capability/Tokens.antt =====
-- `tokenize` and `_token_match` of src/suns_chan/memory.py, on ASCII texts, and the overlap of two
-- sets of tokens that src/suns_chan/capability.py and src/suns_chan/knowledge.py compute.
use Prim.Native.Char.{code}
use Prim.Native.String.{len, ◌++◌ as str_append}
use text.Mathlib.Text.{starts_with}
use sunns_chan.Prelude.{
  ℕ, ◌+◌, String, Bool, not, ◌&&◌, ◌||◌, List, [], ◌∷◌, if◌then◌else◌, leb, ltb, str_eq, any,
  select, member, lower,
}

-- `[a-z0-9]`
unfoldable pub is_token_char : ℕ → Bool
is_token_char c = leb b'a' c && leb c b'z' || leb b'0' c && leb c b'9'

-- `_STOPWORDS`
abbrev pub stopwords : List String
stopwords =
    "the" ∷ "and" ∷ "for" ∷ "with" ∷ "was" ∷ "were" ∷ "what" ∷ "why" ∷ "how" ∷ "did" ∷ "does"
    ∷ "are" ∷ "you" ∷ "your" ∷ "have" ∷ "has" ∷ "had" ∷ "this" ∷ "that" ∷ "from" ∷ "about" ∷ "into"
    ∷ "when" ∷ "where" ∷ "which" ∷ "while" ∷ "after" ∷ "before" ∷ []

-- A token that is longer than two characters and no stop word.
unfoldable pub keep_token : String → Bool
keep_token t = ltb 2 (len t) && not (member t stopwords)

-- The maximal runs of token characters; `run` is the one that is being read.
unfoldable pub runs : String → String → List String
unfolding is_token_char
runs run String.[] = if str_eq run "" then [] else run ∷ []
runs run (String.◌∷◌ c s) =
    let rest = runs "" s in
    if is_token_char (code c)
    then runs (str_append run (String.◌∷◌ c "")) s
    else if str_eq run ""
    then rest
    else run ∷ rest

-- `tokenize`
unfoldable pub tokenize : String → List String
unfolding runs
tokenize text = select keep_token (runs "" (lower text))

-- `set(tokens)`
unfoldable pub distinct : List String → List String
distinct [] = []
distinct (t ∷ ts) = let rest = distinct ts in if member t rest then rest else t ∷ rest

-- `q != t and len(q) >= 4 and (t.startswith(q) or q.startswith(t))`
unfoldable pub near : String → String → Bool
near q t = not (str_eq q t) && leb 4 (len q) && (starts_with t q || starts_with q t)

-- `_token_match`
unfoldable pub token_match : String → String → Bool
token_match q t = str_eq q t || leb 4 (len q) && starts_with t q || leb 4 (len t) && starts_with q t

-- One for a token that is in both, and one for a query token with a near one.
unfoldable pub token_score : List String → String → ℕ
token_score tokens q = (if member q tokens then 1 else 0) + (if any (near q) tokens then 1 else 0)

unfoldable pub sum_scores : List String → List String → ℕ
sum_scores tokens [] = 0
sum_scores tokens (q ∷ qs) = token_score tokens q + sum_scores tokens qs

-- `len(query_tokens & tokens)` and the near matches.
unfoldable pub overlap : List String → List String → ℕ
overlap query tokens = sum_scores (distinct tokens) (distinct query)
