-- ===== src/Gallery/Filter.antt =====
-- `applyGalleryFilters` of features/gallery/lib/filtering.ts.
use deedlit_dev.Base.{
  ℕ, ◌≡◌, ◌≤◌, refl, ◌≢◌, Bool, false, Option, none, some, List, [], ◌∷◌, ◌++◌, arith, ltb, or_else,
  filter, All, Text,
}
use mathlib.Core.List.{Perm}
use deedlit_dev.Gallery.Fuzzy.{matches_query}
use deedlit_dev.Gallery.Sort.{
  sort, sort-perm, sort-IsSorted_on, All-sort, IsOrder, IsSorted, ascending-IsOrder,
  descending-IsOrder, flip-IsOrder, key-IsOrder,
}

pub record ImageAsset : Type 0 where
  pub id : Text
  pub title : Text
  pub src : Text
  pub reference_href : Text
  pub created_at : Text

pub data GallerySort : Type 0 where
  created_desc created_asc title_asc title_desc : GallerySort

pub record GalleryFilterState : Type 0 where
  pub query : Text
  pub sort : GallerySort

-- What the code takes from the platform: whether `localeCompare` (numeric, base letters) of two
-- titles is positive, and `Date.parse`, with `none` for NaN. Times count from a date before all
-- that occur.
pub record Platform : Type 0 where
  pub title_after : Text → Text → Bool
  pub parse_date : Text → Option ℕ

abbrev time_after : Option ℕ → Option ℕ → Bool
time_after (some a) (some b) = ltb b a
time_after _ _ = false

-- Whether the comparator's value at `(a, b)` is positive.
unfoldable pub gallery_after : Platform → GallerySort → ImageAsset → ImageAsset → Bool
gallery_after env title_asc a b = env.title_after a.title b.title
gallery_after env title_desc a b = env.title_after b.title a.title
gallery_after env created_asc a b =
    time_after (env.parse_date a.created_at) (env.parse_date b.created_at)
gallery_after env created_desc a b =
    time_after (env.parse_date b.created_at) (env.parse_date a.created_at)

abbrev pub asset_text : ImageAsset → Text
asset_text asset = asset.title ++ (b' ' ∷ asset.id)

unfoldable pub apply_gallery_filters :
    Platform → List ImageAsset → GalleryFilterState → List ImageAsset
apply_gallery_filters env assets state =
    let filtered = filter (λ asset. matches_query state.query (asset_text asset)) assets in
    sort (gallery_after env state.sort) filtered

-- The gallery shows every asset that matches the query, as often as it is listed, and no other.
pub apply_gallery_filters-perm :
    (env : Platform) (assets : List ImageAsset) (state : GalleryFilterState)
    → Perm
        (apply_gallery_filters env assets state)
        (filter (λ asset. matches_query state.query (asset_text asset)) assets)
unfolding apply_gallery_filters
apply_gallery_filters-perm env assets state = sort-perm (gallery_after env state.sort) _

abbrev time_of : Platform → ImageAsset → ℕ
time_of env asset = or_else (env.parse_date asset.created_at) 0

abbrev pub IsDated : Platform → ImageAsset → Type 0
IsDated env asset = env.parse_date asset.created_at ≢ none

-- The comparator where every date is valid.
abbrev dated_after : Platform → GallerySort → ImageAsset → ImageAsset → Bool
dated_after env title_asc a b = env.title_after a.title b.title
dated_after env title_desc a b = env.title_after b.title a.title
dated_after env created_asc a b = ltb (time_of env b) (time_of env a)
dated_after env created_desc a b = ltb (time_of env a) (time_of env b)

dated_after-IsOrder :
    (env : Platform) (mode : GallerySort) → IsOrder env.title_after → IsOrder (dated_after env mode)
dated_after-IsOrder env title_asc order = key-IsOrder env.title_after (λ a. a.title) order
dated_after-IsOrder env title_desc order = flip-IsOrder env.title_after (λ a. a.title) order
dated_after-IsOrder env created_asc order = ascending-IsOrder (time_of env)
dated_after-IsOrder env created_desc order = descending-IsOrder (time_of env)

dated_agree :
    (env : Platform) (mode : GallerySort) (a b : ImageAsset)
    → IsDated env a
    → IsDated env b
    → gallery_after env mode a b ≡ dated_after env mode a b
unfolding gallery_after
dated_agree env title_asc a b h k = refl
dated_agree env title_desc a b h k = refl
dated_agree env created_asc a b h k = ground arith
dated_agree env created_desc a b h k = ground arith

All-filter {ℓ} :
    {A : Type ℓ} (P : A → Type 0) (p : A → Bool) (xs : List A) → All P xs → All P (filter p xs)
All-filter P p [] h = tt
All-filter P p (x ∷ xs) h = ground (arith, All-filter P p xs h.1)

-- What stands before another in the chosen order: by title, or by time, oldest or newest first.
abbrev pub Precedes : Platform → GallerySort → ImageAsset → ImageAsset → Type 0
Precedes env title_asc a b = env.title_after a.title b.title ≡ false
Precedes env title_desc a b = env.title_after b.title a.title ≡ false
Precedes env created_asc a b = time_of env a ≤ time_of env b
Precedes env created_desc a b = time_of env b ≤ time_of env a

-- Each asset precedes every later one.
abbrev pub InOrder : Platform → GallerySort → List ImageAsset → Type 0
InOrder env mode [] = Unit {0}
InOrder env mode (a ∷ as_) = All (Precedes env mode a) as_ × InOrder env mode as_

dated-Precedes :
    (env : Platform) (mode : GallerySort) (a b : ImageAsset)
    → IsDated env a
    → IsDated env b
    → gallery_after env mode a b ≡ false
    → Precedes env mode a b
unfolding gallery_after
dated-Precedes env title_asc a b h k e = e
dated-Precedes env title_desc a b h k e = e
dated-Precedes env created_asc a b h k e = ground arith
dated-Precedes env created_desc a b h k e = ground arith

All-Precedes :
    (env : Platform) (mode : GallerySort) (a : ImageAsset) (as_ : List ImageAsset)
    → IsDated env a
    → All (IsDated env) as_
    → All (λ b. gallery_after env mode a b ≡ false) as_
    → All (Precedes env mode a) as_
All-Precedes env mode a [] d ds h = tt
All-Precedes env mode a (b ∷ as_) d ds h =
    (dated-Precedes env mode a b d ds.0 h.0, All-Precedes env mode a as_ d ds.1 h.1)

IsSorted-InOrder :
    (env : Platform) (mode : GallerySort) (as_ : List ImageAsset)
    → All (IsDated env) as_
    → IsSorted (gallery_after env mode) as_
    → InOrder env mode as_
IsSorted-InOrder env mode [] d h = tt
IsSorted-InOrder env mode (a ∷ as_) d h =
    (All-Precedes env mode a as_ d.0 d.1 h.0, IsSorted-InOrder env mode as_ d.1 h.1)

-- Where every asset has a valid date and titles compare consistently, the result is a rearrangement of the assets
-- that match the query, each of which precedes every later one: for the created orders its time is at most, or at
-- least, that of the later one, and for the title orders its title does not compare as after, or before, that of
-- the later one.
pub apply_gallery_filters-IsSorted :
    (env : Platform) (assets : List ImageAsset) (state : GalleryFilterState)
    → IsOrder env.title_after
    → All (IsDated env) assets
    → InOrder env state.sort (apply_gallery_filters env assets state)
      × Perm
          (apply_gallery_filters env assets state)
          (filter (λ asset. matches_query state.query (asset_text asset)) assets)
unfolding apply_gallery_filters
apply_gallery_filters-IsSorted env assets state order dated =
    let shown = filter (λ asset. matches_query state.query (asset_text asset)) assets in
    let valid = All-filter (IsDated env) _ assets dated in
    (
      IsSorted-InOrder env state.sort (sort (gallery_after env state.sort) shown)
          (All-sort (IsDated env) (gallery_after env state.sort) (dated_after env state.sort)
            (λ a b h k. dated_agree env state.sort a b h k) shown valid)
          (sort-IsSorted_on (IsDated env) (gallery_after env state.sort)
            (dated_after env state.sort) (λ a b h k. dated_agree env state.sort a b h k) shown
            (dated_after-IsOrder env state.sort order) valid),
      apply_gallery_filters-perm env assets state,
    )
