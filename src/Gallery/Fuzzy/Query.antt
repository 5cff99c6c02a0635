-- ===== src/Gallery/Fuzzy/Query.antt =====
-- A query matches when all its words do.
use deedlit_dev.Base.{
  ℕ, ◌≡◌, refl, ◌≢◌, ◌↔◌, Bool, true, false, List, [], ◌∷◌, ◌++◌, arith, leb, if◌then◌else◌,
  &&-true, length, all, All, Text, text_eq_iff, is_space,
}
use deedlit_dev.Gallery.Fuzzy.{
  words_onto, query_tokens, normalize, fuzzy_token_match, matches_query,
}
use deedlit_dev.Gallery.Fuzzy.Laws.{IsSubsequence, IsSimple, fuzzy_token_match_iff}

-- A run of code units that are not white space, with at least one in it.
abbrev pub IsWord : Text → Type 0
IsWord w = (w ≢ []) × All (λ c. is_space c ≡ false) w

All-snoc :
    (w : Text) (c : ℕ)
    → All (λ c. is_space c ≡ false) w
    → is_space c ≡ false
    → All (λ c. is_space c ≡ false) (w ++ c ∷ [])
All-snoc [] c h k = (k, tt)
All-snoc (d ∷ w) c h k = (h.0, All-snoc w c h.1 k)

words_onto-IsWord :
    (word s : Text) → All (λ c. is_space c ≡ false) word → All IsWord (words_onto word s)
unfolding words_onto
words_onto-IsWord word [] h = ground (arith, text_eq_iff word [])
words_onto-IsWord word (c ∷ s) h = ground (
  arith,
  text_eq_iff word [],
  words_onto-IsWord [] s tt,
  words_onto-IsWord (word ++ c ∷ []) s,
  All-snoc word c h,
)

-- The tokens of a query are words: not empty, and free of white space.
pub query_tokens-IsWord : (query : Text) → All IsWord (query_tokens query)
unfolding query_tokens
query_tokens-IsWord query = words_onto-IsWord [] (normalize query) tt

all_iff :
    (hay : Text) (tokens : List Text)
    → IsSimple hay
    → All IsWord tokens
    → (all (λ t. fuzzy_token_match t hay) tokens ≡ true) ↔ All (λ t. IsSubsequence t hay) tokens
all_iff hay [] simple words = ((λ _. tt), (λ _. refl))
all_iff hay ([] ∷ tokens) simple words = absurd (words.0.0 refl)
all_iff hay ((c ∷ t) ∷ tokens) simple words =
    let first = fuzzy_token_match_iff c t hay simple in
    let rest = all_iff hay tokens simple words.1 in
    (
      (λ h. let (x, y) = &&-true _ _ h in (first.0 x, rest.0 y)),
      (λ h. rw (first.1 h.0, rest.1 h.1)),
    )

none_or_all :
    (tokens : List Text) (p : Text → Bool)
    → (if leb (length tokens) 0 then true else all p tokens) ≡ all p tokens
none_or_all [] p = refl
none_or_all (t ∷ tokens) p = ground arith

-- A query matches a text exactly when each of its words is a subsequence of the normalized text; a query with
-- no word matches every text. The normalized text holds no surrogate pair.
pub matches_query_iff :
    (query haystack : Text)
    → IsSimple (normalize haystack)
    → (matches_query query haystack ≡ true)
      ↔ All (λ t. IsSubsequence t (normalize haystack)) (query_tokens query)
unfolding matches_query
matches_query_iff query haystack simple =
    let words = query_tokens-IsWord query in
    let each = all_iff (normalize haystack) (query_tokens query) simple words in
    rw (none_or_all (query_tokens query) (λ t. fuzzy_token_match t (normalize haystack))) each
