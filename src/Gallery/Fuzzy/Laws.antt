-- ===== src/Gallery/Fuzzy/Laws.antt =====
-- A token matches exactly when it is a subsequence of the text.
use deedlit_dev.Base.{
  ℕ, ◌≡◌, refl, sym, ap, ◌∙◌, subst, ◌≢◌, ◌↔◌, ◌⊎◌, inl, inr, true, false, List, [], ◌∷◌, ◌++◌, map,
  arith, ◌==◌, Bool-cases, &&-true, ||-true, concat, All, Text, text_eq, text_eq_iff, text_eq_refl,
  starts_with, includes,
}
use deedlit_dev.Gallery.Fuzzy.{is_high, characters, match_in_order, fuzzy_token_match}

-- `t` can be read off `s` from left to right, with gaps.
pub data IsSubsequence : Text → Text → Type 0 where
  done : {s : Text} → IsSubsequence [] s
  take_one : {c d : ℕ} {t s : Text} → c ≡ d → IsSubsequence t s → IsSubsequence (c ∷ t) (d ∷ s)
  skip_one : {d : ℕ} {t s : Text} → IsSubsequence t s → IsSubsequence t (d ∷ s)

starts_with-IsSubsequence : (t s : Text) → starts_with t s ≡ true → IsSubsequence t s
unfolding starts_with
starts_with-IsSubsequence [] s h = done
starts_with-IsSubsequence (c ∷ t) [] h = cc
starts_with-IsSubsequence (c ∷ t) (d ∷ s) h =
    let (same, rest) = &&-true (c == d) (starts_with t s) h in
    take_one (ground arith) (starts_with-IsSubsequence t s rest)

includes-IsSubsequence : (t s : Text) → includes t s ≡ true → IsSubsequence t s
unfolding includes
includes-IsSubsequence t [] h = starts_with-IsSubsequence t [] h
includes-IsSubsequence t (c ∷ s) h = elim (||-true _ _ h) [
  | inl e ↦ starts_with-IsSubsequence t (c ∷ s) e
  | inr e ↦ skip_one (includes-IsSubsequence t s e)
]

IsSubsequence-append : (xs : Text) {t s : Text} → IsSubsequence t s → IsSubsequence t (xs ++ s)
IsSubsequence-append [] h = h
IsSubsequence-append (x ∷ xs) h = skip_one (IsSubsequence-append xs h)

concat-characters : (s : Text) → concat (characters s) ≡ s
unfolding characters
concat-characters [] = refl
concat-characters (c ∷ []) = refl
concat-characters (c ∷ d ∷ s) = ground (arith, concat-characters s, concat-characters (d ∷ s))

match_in_order_miss :
    (t : ℕ) (ts char : Text) (rest : List Text)
    → text_eq char (t ∷ []) ≡ false
    → match_in_order (t ∷ ts) (char ∷ rest) ≡ match_in_order (t ∷ ts) rest
unfolding match_in_order
match_in_order_miss t ts char rest e = rw (e, match_in_order)

match_in_order_hit :
    (t u : ℕ) (ts char : Text) (rest : List Text)
    → text_eq char (t ∷ []) ≡ true
    → match_in_order (t ∷ u ∷ ts) (char ∷ rest) ≡ match_in_order (u ∷ ts) rest
unfolding match_in_order
match_in_order_hit t u ts char rest e = rw (e, match_in_order)

match_in_order-IsSubsequence :
    (t : Text) (cs : List Text) → match_in_order t cs ≡ true → IsSubsequence t (concat cs)
match_in_order-IsSubsequence [] cs h = done
match_in_order-IsSubsequence (t ∷ ts) [] h = unfold match_in_order in cc
match_in_order-IsSubsequence (t ∷ []) (char ∷ rest) h = elim (Bool-cases (text_eq char (t ∷ []))) [
  | inl e ↦ rw ((text_eq_iff char (t ∷ [])).0 e) (take_one refl done)
  | inr e ↦
      IsSubsequence-append char (
        match_in_order-IsSubsequence (t ∷ []) rest (sym (match_in_order_miss t [] char rest e) ∙ h))
]
match_in_order-IsSubsequence (t ∷ u ∷ ts) (char ∷ rest) h =
    elim (Bool-cases (text_eq char (t ∷ []))) [
      | inl e ↦ rw ((text_eq_iff char (t ∷ [])).0 e) (
          take_one refl (
            match_in_order-IsSubsequence (u ∷ ts) rest
              (sym (match_in_order_hit t u ts char rest e) ∙ h)))
      | inr e ↦ IsSubsequence-append char (
          match_in_order-IsSubsequence (t ∷ u ∷ ts) rest
            (sym (match_in_order_miss t (u ∷ ts) char rest e) ∙ h))
    ]

-- No code unit of the text opens a surrogate pair.
abbrev pub IsSimple : Text → Type 0
IsSimple = All (λ c. is_high c ≡ false)

characters-simple : (s : Text) → IsSimple s → characters s ≡ map (λ c. c ∷ []) s
unfolding characters
characters-simple [] h = refl
characters-simple (c ∷ []) h = refl
characters-simple (c ∷ d ∷ s) h = rw h.0 (ap (◌∷◌ (c ∷ [])) (characters-simple (d ∷ s) h.1))

-- What is left of a subsequence once its first unit is read as early as possible.
IsSubsequence-tail : {c : ℕ} {t s : Text} → IsSubsequence (c ∷ t) s → IsSubsequence t s
IsSubsequence-tail (take_one e h) = skip_one h
IsSubsequence-tail (skip_one h) = skip_one (IsSubsequence-tail h)

IsSubsequence-greedy : {c d : ℕ} {t s : Text} → IsSubsequence (c ∷ t) (d ∷ s) → IsSubsequence t s
IsSubsequence-greedy (take_one e h) = h
IsSubsequence-greedy (skip_one h) = IsSubsequence-tail h

IsSubsequence-skip :
    {c d : ℕ} {t s : Text} → c ≢ d → IsSubsequence (c ∷ t) (d ∷ s) → IsSubsequence (c ∷ t) s
IsSubsequence-skip ne (take_one e h) = absurd (ne e)
IsSubsequence-skip ne (skip_one h) = h

not-IsSubsequence-nil : {c : ℕ} {t : Text} → ¬ IsSubsequence (c ∷ t) []
not-IsSubsequence-nil h = elim h [ ]

-- Whatever the text, a token that matches is a subsequence of it.
pub fuzzy_token_match-IsSubsequence :
    (t haystack : Text) → fuzzy_token_match t haystack ≡ true → IsSubsequence t haystack
fuzzy_token_match-IsSubsequence t haystack h = elim (Bool-cases (includes t haystack)) [
  | inl e ↦ includes-IsSubsequence t haystack e
  | inr e ↦ subst (IsSubsequence t) (concat-characters haystack) (
      match_in_order-IsSubsequence t (characters haystack)
        (unfold fuzzy_token_match in (rw e at h)))
]

fuzzy_token_match-true :
    (t haystack : Text)
    → match_in_order t (characters haystack) ≡ true
    → fuzzy_token_match t haystack ≡ true
unfolding fuzzy_token_match
fuzzy_token_match-true t haystack h = ground arith

match_in_order_last :
    (t : ℕ) (char : Text) (rest : List Text)
    → text_eq char (t ∷ []) ≡ true
    → match_in_order (t ∷ []) (char ∷ rest) ≡ true
unfolding match_in_order
match_in_order_last t char rest e = rw (e, match_in_order)

single_eq : (c d : ℕ) → (c ≡ d) ⊎ ((c ≢ d) × (text_eq (d ∷ []) (c ∷ []) ≡ false))
single_eq c d = elim (Bool-cases (text_eq (d ∷ []) (c ∷ []))) [
  | inl e ↦ inl (ground (arith, text_eq_iff (d ∷ []) (c ∷ [])))
  | inr e ↦ inr ((λ same. ground (arith, text_eq_iff (d ∷ []) (c ∷ []))), e)
]

match_in_order-singles :
    (c : ℕ) (t s : Text)
    → IsSubsequence (c ∷ t) s
    → match_in_order (c ∷ t) (map (λ u. u ∷ []) s) ≡ true
match_in_order-singles c t [] h = absurd (not-IsSubsequence-nil h)
match_in_order-singles c [] (d ∷ s) h = elim (single_eq c d) [
  | inl e ↦ rw e (match_in_order_last d (d ∷ []) (map (λ u. u ∷ []) s) (text_eq_refl (d ∷ [])))
  | inr (ne, e) ↦
      match_in_order_miss c [] (d ∷ []) (map (λ u. u ∷ []) s) e
      ∙ match_in_order-singles c [] s (IsSubsequence-skip ne h)
]
match_in_order-singles c (u ∷ t) (d ∷ s) h = elim (single_eq c d) [
  | inl e ↦
      match_in_order_hit c u t (d ∷ []) (map (λ u. u ∷ []) s) (rw e (text_eq_refl (d ∷ [])))
      ∙ match_in_order-singles u t s (IsSubsequence-greedy h)
  | inr (ne, e) ↦
      match_in_order_miss c (u ∷ t) (d ∷ []) (map (λ u. u ∷ []) s) e
      ∙ match_in_order-singles c (u ∷ t) s (IsSubsequence-skip ne h)
]

-- On a text with no surrogate pair, a non-empty token matches exactly when its code units occur in
-- the text in their order, with gaps or without.
pub fuzzy_token_match_iff :
    (c : ℕ) (t haystack : Text)
    → IsSimple haystack
    → (fuzzy_token_match (c ∷ t) haystack ≡ true) ↔ IsSubsequence (c ∷ t) haystack
fuzzy_token_match_iff c t haystack simple =
    (fuzzy_token_match-IsSubsequence (c ∷ t) haystack, λ h. found h)
  where
    found : IsSubsequence (c ∷ t) haystack → fuzzy_token_match (c ∷ t) haystack ≡ true
    found h =
        fuzzy_token_match-true (c ∷ t) haystack
          (rw (characters-simple haystack simple) (match_in_order-singles c t haystack h))
