-- ===== src/Gallery/Books.antt =====
-- `applyBookFilters` of features/books/lib/filtering.ts.
use deedlit_dev.Base.{
  ℕ, ◌≤◌, ◌<◌, ◌≡◌, refl, ◌↔◌, ◌⊎◌, inl, inr, Bool, true, false, not, ◌&&◌, ◌||◌, List, [], ◌∷◌,
  ◌++◌, arith, ltb, if◌then◌else◌, ||-true, filter, any, Text, has, In, has_iff,
}
use mathlib.Core.List.{Perm}
use deedlit_dev.Gallery.Fuzzy.{matches_query}
use deedlit_dev.Gallery.Sort.{
  sort, sort-perm, sort-IsSorted, sort_stable, ties, IsOrder, IsSorted, ascending-IsOrder,
  descending-IsOrder, flip-IsOrder, key-IsOrder,
}

-- Ratings are counted in hundredths.
pub record BookItem : Type 0 where
  pub id : Text
  pub title : Text
  pub author : Text
  pub year : ℕ
  pub note : Text
  pub goodreads_url : Text
  pub rating : ℕ
  pub ratings_count : ℕ
  pub pages : ℕ
  pub genres : List Text
  pub tags : List Text
  pub publisher : Text
  pub description : Text
  pub cover_url : Text

pub data BookSort : Type 0 where
  rating_desc rating_asc year_desc year_asc title_asc title_desc pages_desc pages_asc : BookSort

pub record BookFilterState : Type 0 where
  pub query : Text
  pub sort : BookSort
  pub selected_genres : List Text
  pub selected_tags : List Text
  pub min_rating : ℕ
  pub min_pages : ℕ
  pub max_pages : ℕ

abbrev pub book_text : BookItem → Text
book_text book =
    book.title ++ (b' ' ∷ (book.author ++ (b' ' ∷ (book.note ++ (b' ' ∷ book.description)))))

-- The test of the genre and the tag filter: nothing is selected, or something selected is there.
abbrev pub selected : List Text → List Text → Bool
selected [] present = true
selected (s ∷ ss) present = any (λ x. has x present) (s ∷ ss)

unfoldable pub passes : BookFilterState → BookItem → Bool
passes state book =
    if not (matches_query state.query (book_text book))
    then false
    else if not (selected state.selected_genres book.genres)
    then false
    else if not (selected state.selected_tags book.tags)
    then false
    else if ltb book.rating state.min_rating
    then false
    else if ltb book.pages state.min_pages
        || (ltb 0 state.max_pages && ltb state.max_pages book.pages)
    then false
    else true

-- Whether the comparator's value at `(a, b)` is positive; `title_after` is that of `localeCompare`.
unfoldable pub book_after : (Text → Text → Bool) → BookSort → BookItem → BookItem → Bool
book_after title_after title_asc a b = title_after a.title b.title
book_after title_after title_desc a b = title_after b.title a.title
book_after title_after rating_desc a b = ltb a.rating b.rating
book_after title_after rating_asc a b = ltb b.rating a.rating
book_after title_after year_desc a b = ltb a.year b.year
book_after title_after year_asc a b = ltb b.year a.year
book_after title_after pages_desc a b = ltb a.pages b.pages
book_after title_after pages_asc a b = ltb b.pages a.pages

unfoldable pub apply_book_filters :
    (Text → Text → Bool) → List BookItem → BookFilterState → List BookItem
apply_book_filters title_after books state =
    sort (book_after title_after state.sort) (filter (passes state) books)

-- Nothing is chosen, or the two lists share an entry.
abbrev pub Shares : List Text → List Text → Type 0
Shares chosen present = (chosen ≡ []) ⊎ ((x : Text) × In x chosen × In x present)

-- What the filters promise of a book that is shown.
pub record Accepts (state : BookFilterState) (book : BookItem) : Type 0 where
  pub query : matches_query state.query (book_text book) ≡ true
  pub genres : Shares state.selected_genres book.genres
  pub tags : Shares state.selected_tags book.tags
  pub rating : state.min_rating ≤ book.rating
  pub enough_pages : state.min_pages ≤ book.pages
  pub few_pages : 0 < state.max_pages → book.pages ≤ state.max_pages

shared_of_any :
    (xs present : List Text)
    → any (λ x. has x present) xs ≡ true
    → (x : Text) × In x xs × In x present
shared_of_any [] present h = cc
shared_of_any (y ∷ ys) present h = elim (||-true (has y present) _ h) [
  | inl e ↦ (y, inl refl, (has_iff y present).0 e)
  | inr e ↦ let (x, here, there) = shared_of_any ys present e in (x, inr here, there)
]

any_of_shared :
    (xs present : List Text) (x : Text)
    → In x xs
    → In x present
    → any (λ x. has x present) xs ≡ true
any_of_shared [] present x h k = absurd h
any_of_shared (y ∷ ys) present x (inl e) k = rw (← e, (has_iff x present).1 k)
any_of_shared (y ∷ ys) present x (inr h) k =
    let rest = any_of_shared ys present x h k in ground arith

selected_iff : (xs present : List Text) → (selected xs present ≡ true) ↔ Shares xs present
selected_iff [] present = ((λ _. inl refl), (λ _. refl))
selected_iff (y ∷ ys) present = (
  (λ h. inr (shared_of_any (y ∷ ys) present h)),
  (λ h. elim h [ inl e ↦ cc | inr (x, here, there) ↦ any_of_shared (y ∷ ys) present x here there ]),
)

-- A book passes the filters exactly when it matches the query, shares a genre and a tag with the
-- selected ones (where any are selected), and has rating and pages within the bounds; a `maxPages`
-- of 0 is no bound.
pub passes_iff :
    (state : BookFilterState) (book : BookItem) → (passes state book ≡ true) ↔ Accepts state book
unfolding passes
passes_iff state book = ground (
  arith,
  selected_iff state.selected_genres book.genres,
  selected_iff state.selected_tags book.tags,
)

-- The result holds every book that passes, as often as it is listed, and no other.
pub apply_book_filters-perm :
    (title_after : Text → Text → Bool) (books : List BookItem) (state : BookFilterState)
    → Perm (apply_book_filters title_after books state) (filter (passes state) books)
unfolding apply_book_filters
apply_book_filters-perm title_after books state =
    sort-perm (book_after title_after state.sort) (filter (passes state) books)

book_after-IsOrder :
    (title_after : Text → Text → Bool) (mode : BookSort)
    → IsOrder title_after
    → IsOrder (book_after title_after mode)
unfolding book_after
book_after-IsOrder f title_asc order = key-IsOrder f (λ b. b.title) order
book_after-IsOrder f title_desc order = flip-IsOrder f (λ b. b.title) order
book_after-IsOrder f rating_desc order = descending-IsOrder (λ b. b.rating)
book_after-IsOrder f rating_asc order = ascending-IsOrder (λ b. b.rating)
book_after-IsOrder f year_desc order = descending-IsOrder (λ b. b.year)
book_after-IsOrder f year_asc order = ascending-IsOrder (λ b. b.year)
book_after-IsOrder f pages_desc order = descending-IsOrder (λ b. b.pages)
book_after-IsOrder f pages_asc order = ascending-IsOrder (λ b. b.pages)

-- Where titles compare consistently, the books are sorted by the chosen order, and books that tie
-- with any given one keep the order of the list.
pub apply_book_filters-IsSorted :
    (title_after : Text → Text → Bool) (books : List BookItem) (state : BookFilterState)
    → IsOrder title_after
    → let after = book_after title_after state.sort in
      IsSorted after (apply_book_filters title_after books state)
      × ((b : BookItem)
          → filter (ties after b) (apply_book_filters title_after books state)
            ≡ filter (ties after b) (filter (passes state) books))
unfolding apply_book_filters
apply_book_filters-IsSorted title_after books state order =
    let after = book_after title_after state.sort in
    let orders = book_after-IsOrder title_after state.sort order in
    (
      sort-IsSorted after orders (filter (passes state) books),
      λ b. sort_stable after orders b (filter (passes state) books),
    )
