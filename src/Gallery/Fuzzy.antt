-- ===== src/Gallery/Fuzzy.antt =====
-- `normalize`, `fuzzyTokenMatch` and `matchesQuery` of features/gallery/lib/filtering.ts and
-- features/books/lib/filtering.ts.
pub mod Laws
pub mod Query
use deedlit_dev.Base.{
  ℕ, zero, suc, ◌+◌, ◌-◌, ◌*◌, ◌/◌, ◌%◌, ◌≤◌, ◌<◌, ◌≡◌, refl, sym, ap, ◌∙◌, subst, ◌≢◌, ◌↔◌, ◌⊎◌,
  inl, inr, Bool, true, false, not, ◌&&◌, ◌||◌, Option, none, some, List, [], ◌∷◌, ◌++◌, map,
  append_assoc, append-nil, arith, ltb, leb, ◌==◌, if◌then◌else◌, Bool-cases, Option-cases, or_else,
  or_option, &&-true, ||-true, length, take, drop, get_elem?, slice, filter, any, all, find, concat,
  replicate, All, length-append, length-drop, length-take, take-append-drop, drop-nil, drop-drop,
  get_elem?-drop, take-append, drop-append, filter-append, length-filter-le, filter_idem,
  concat-append, length-map, take-drop-take, take-append-le, drop-append-le, Text, Bytes, codes,
  text_eq, text_eq_iff, text_eq_refl, has, is_space, trim_start, trim, lower_unit, to_lower,
  starts_with, ends_with, includes, split_at, join,
}

-- `normalize`: lower case, then trimmed.
unfoldable pub normalize : Text → Text
normalize value = trim (to_lower value)

-- `for (const char of haystack)`: code points, so a surrogate pair is one character.
abbrev pub is_high : ℕ → Bool
is_high c = leb 0xd800 c && leb c 0xdbff

abbrev pub is_low : ℕ → Bool
is_low c = leb 0xdc00 c && leb c 0xdfff

unfoldable pub characters : Text → List Text
characters [] = []
characters (c ∷ []) = (c ∷ []) ∷ []
characters (c ∷ d ∷ s) =
    let pair = characters s in
    let single = characters (d ∷ s) in
    if is_high c && is_low d then (c ∷ d ∷ []) ∷ pair else (c ∷ []) ∷ single

-- The loop over the characters; `token` is what `index` has not passed yet.
unfoldable pub match_in_order : Text → List Text → Bool
match_in_order token [] = false
match_in_order [] (char ∷ rest) = match_in_order [] rest
match_in_order (t ∷ token) (char ∷ rest) = elim (text_eq char (t ∷ [])) [
  | true ↦ elim token [ [] ↦ true | u ∷ more ↦ match_in_order (u ∷ more) rest ]
  | false ↦ match_in_order (t ∷ token) rest
]

unfoldable pub fuzzy_token_match : Text → Text → Bool
fuzzy_token_match token haystack =
    if includes token haystack then true else match_in_order token (characters haystack)

-- `split(/\s+/).filter(Boolean)`: the maximal runs without white space.
unfoldable pub words_onto : Text → Text → List Text
words_onto word [] = if text_eq word [] then [] else word ∷ []
words_onto word (c ∷ s) =
    let next = words_onto [] s in
    let same = words_onto (word ++ c ∷ []) s in
    if is_space c then (if text_eq word [] then next else word ∷ next) else same

unfoldable pub query_tokens : Text → List Text
query_tokens query = words_onto [] (normalize query)

-- `haystack` is the text searched, before `normalize`.
unfoldable pub matches_query : Text → Text → Bool
matches_query query haystack =
    let tokens = query_tokens query in
    if leb (length tokens) 0
    then true
    else all (λ token. fuzzy_token_match token (normalize haystack)) tokens
