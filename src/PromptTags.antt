-- ===== src/PromptTags.antt =====
-- lib/prompt-tags.ts of deedlit.dev.comfyhelper. A set is the list of its members in order.
use deedlit_dev.Base.{
  ◌≡◌, refl, ap, inl, inr, Bool, true, false, not, ◌&&◌, Option, none, some, List, [], ◌∷◌, map,
  arith, ◌==◌, if◌then◌else◌, Bool-cases, filter, Text, text_eq, text_eq_iff, text_eq_refl, has,
  trim, to_lower, split_at, IsDistinct,
}

unfoldable pub normalize_tag : Text → Text
normalize_tag tag = to_lower (trim tag)

unfoldable pub normalize_prompt_token : Text → Text
normalize_prompt_token value = normalize_tag (map (λ c. if c == 10 then b' ' else c) value)

abbrev pub is_not_empty : Text → Bool
is_not_empty t = not (text_eq t [])

-- `Array.from(new Set(xs))`, with what was seen before.
unfoldable pub unseen : List Text → List Text → List Text
unseen seen [] = []
unseen seen (x ∷ xs) =
    let skipped = unseen seen xs in
    let kept = x ∷ unseen (x ∷ seen) xs in if has x seen then skipped else kept

unfoldable pub normalize_excluded_tags : List Text → List Text
normalize_excluded_tags tags = unseen [] (filter is_not_empty (map normalize_prompt_token tags))

-- A set and an array are treated alike.
unfoldable pub to_excluded_tag_set : Option (List Text) → List Text
to_excluded_tag_set none = []
to_excluded_tag_set (some exclude) = normalize_excluded_tags exclude

unfoldable pub tags_of : Text → List Text → List Text
tags_of prompt excluded = unseen [] (
    filter (λ entry. not (has entry excluded))
      (filter is_not_empty (map normalize_prompt_token (split_at b',' prompt))))

unfoldable pub extract_tags_from_prompt : Option Text → Option (List Text) → List Text
extract_tags_from_prompt none exclude = []
extract_tags_from_prompt (some []) exclude = []
extract_tags_from_prompt (some (c ∷ s)) exclude = tags_of (c ∷ s) (to_excluded_tag_set exclude)

has-unseen :
    (a : Text) (seen xs : List Text) → has a (unseen seen xs) ≡ (has a xs && not (has a seen))
unfolding unseen has
has-unseen a seen [] = refl
has-unseen a seen (x ∷ xs) =
    ground (arith, text_eq_iff a x, has-unseen a seen xs, has-unseen a (x ∷ seen) xs)

fresh_unseen : (x : Text) (seen xs : List Text) → has x (unseen (x ∷ seen) xs) ≡ false
unfolding has
fresh_unseen x seen xs = ground (arith, has-unseen x (x ∷ seen) xs, text_eq_refl x)

unseen-IsDistinct : (seen xs : List Text) → IsDistinct (unseen seen xs)
unfolding unseen
unseen-IsDistinct seen [] = tt
unseen-IsDistinct seen (x ∷ xs) =
    ground
      (arith, unseen-IsDistinct seen xs, unseen-IsDistinct (x ∷ seen) xs, fresh_unseen x seen xs)

has_passing :
    (a : Text) (p : Text → Bool) (xs : List Text) → has a (filter p xs) ≡ (has a xs && p a)
unfolding has
has_passing a p [] = refl
has_passing a p (x ∷ xs) =
    let cong : text_eq a x ≡ true → p a ≡ p x = λ e. ap p ((text_eq_iff a x).0 e) in
    ground (arith, cong, has_passing a p xs)

has-tags_of :
    (prompt : Text) (excluded : List Text) (t : Text)
    → has t (tags_of prompt excluded) ≡ (
        (has t (map normalize_prompt_token (split_at b',' prompt)) && is_not_empty t)
        && not (has t excluded))
unfolding tags_of
has-tags_of prompt excluded t =
    let parts = map normalize_prompt_token (split_at b',' prompt) in
    let seen =
      has-unseen t [] (filter (λ entry. not (has entry excluded)) (filter is_not_empty parts)) in
    let kept = has_passing t (λ entry. not (has entry excluded)) (filter is_not_empty parts) in
    let full = has_passing t is_not_empty parts in
    let none_seen : has t [] ≡ false = unfold has in refl in
    ground (arith, seen, kept, full, none_seen)

no_parts :
    (t : Text) (b : Bool)
    → has t [] ≡ ((has t (map normalize_prompt_token (split_at b',' [])) && is_not_empty t) && b)
unfolding has split_at normalize_prompt_token normalize_tag trim
no_parts t b = elim (Bool-cases (text_eq t [])) [ inl e ↦ rw e refl | inr e ↦ rw e refl ]

-- The tags of a prompt are listed once each: they are the normalized parts between its commas that
-- are not empty and not excluded.
pub extract_tags_from_prompt-IsDistinct :
    (prompt : Text) (exclude : Option (List Text))
    → let tags = extract_tags_from_prompt (some prompt) exclude in
      IsDistinct tags
      × ((t : Text)
          → has t tags ≡ (
              (has t (map normalize_prompt_token (split_at b',' prompt)) && is_not_empty t)
              && not (has t (to_excluded_tag_set exclude))))
extract_tags_from_prompt-IsDistinct [] exclude = (
  unfold extract_tags_from_prompt in tt,
  λ t. unfold extract_tags_from_prompt in no_parts t (not (has t (to_excluded_tag_set exclude))),
)
extract_tags_from_prompt-IsDistinct (c ∷ s) exclude = (
  unfold extract_tags_from_prompt tags_of in
      unseen-IsDistinct [] (
        filter (λ entry. not (has entry (to_excluded_tag_set exclude)))
          (filter is_not_empty (map normalize_prompt_token (split_at b',' (c ∷ s))))),
  unfold extract_tags_from_prompt in has-tags_of (c ∷ s) (to_excluded_tag_set exclude),
)
