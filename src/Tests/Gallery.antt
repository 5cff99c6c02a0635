-- ===== src/Tests/Gallery.antt =====
-- The filters on small lists.
use deedlit_dev.Base.{
  ℕ, ◌≡◌, refl, ◌↔◌, Bool, true, false, some, List, [], ◌∷◌, ltb, length, filter, All, Text, codes,
  text_eq, trim, lower_unit, starts_with, includes,
}
use mathlib.Core.List.{Perm}
use deedlit_dev.Gallery.Fuzzy.{
  normalize, words_onto, query_tokens, fuzzy_token_match, matches_query, match_in_order, characters,
}
use deedlit_dev.Gallery.Fuzzy.Laws.{IsSubsequence, fuzzy_token_match_iff}
use deedlit_dev.Gallery.Fuzzy.Query.{matches_query_iff}
use deedlit_dev.Gallery.Sort.{sort, IsOrder, ascending-IsOrder}
use deedlit_dev.Gallery.Filter.{
  ImageAsset, Platform, GalleryFilterState, created_desc, apply_gallery_filters, gallery_after,
  asset_text, InOrder, apply_gallery_filters-perm, apply_gallery_filters-IsSorted,
}
use deedlit_dev.Gallery.Books.{
  BookItem, BookFilterState, rating_desc, passes, Accepts, passes_iff, apply_book_filters,
  apply_book_filters-perm,
}

-- Titles by their length.
abbrev longer : Text → Text → Bool
longer a b = ltb (length b) (length a)

fuzzy_runs :
    (fuzzy_token_match (codes "wlk") (codes "walk") ≡ true)
    × (fuzzy_token_match (codes "run") (codes "walk") ≡ false)
unfolding fuzzy_token_match match_in_order characters includes starts_with text_eq
fuzzy_runs = (refl, refl)

fuzzy_token_match_iff_example :
    (fuzzy_token_match (codes "wlk") (codes "walk") ≡ true)
    ↔ IsSubsequence (codes "wlk") (codes "walk")
fuzzy_token_match_iff_example =
    fuzzy_token_match_iff b'w' (codes "lk") (codes "walk") (refl, (refl, (refl, (refl, tt))))

tokens_run : query_tokens (codes "  Red  fox ") ≡ codes "red" ∷ codes "fox" ∷ []
unfolding query_tokens normalize words_onto trim lower_unit text_eq
tokens_run = refl

abbrev platform : Platform
platform = record { title_after = longer; parse_date = λ t. some (length t) }

abbrev asset : Text → Text → ImageAsset
asset id title = record {
  id = id;
  title = title;
  src = [];
  reference_href = [];
  created_at = title;
}

abbrev assets : List ImageAsset
assets = asset (codes "i") (codes "Red") ∷ asset (codes "j") (codes "Blue") ∷ []

abbrev all_assets : GalleryFilterState
all_assets = record { query = codes "e"; sort = created_desc }

gallery_runs :
    apply_gallery_filters platform assets all_assets
    ≡ asset (codes "j") (codes "Blue") ∷ asset (codes "i") (codes "Red") ∷ []
unfolding apply_gallery_filters sort gallery_after matches_query query_tokens normalize words_onto
    trim lower_unit text_eq fuzzy_token_match match_in_order characters includes starts_with
gallery_runs = refl

normalize_red : normalize (codes "Red i") ≡ codes "red i"
unfolding normalize trim lower_unit
normalize_red = refl

matches_query_iff_example :
    (matches_query (codes "rd") (codes "Red i") ≡ true)
    ↔ All (λ t. IsSubsequence t (normalize (codes "Red i"))) (query_tokens (codes "rd"))
matches_query_iff_example =
    matches_query_iff (codes "rd") (codes "Red i")
      (rw normalize_red (refl, (refl, (refl, (refl, (refl, tt))))))

apply_gallery_filters-perm_example :
    Perm
      (apply_gallery_filters platform assets all_assets)
      (filter (λ a. matches_query (codes "e") (asset_text a)) assets)
apply_gallery_filters-perm_example = apply_gallery_filters-perm platform assets all_assets

longer-IsOrder : IsOrder longer
longer-IsOrder = ascending-IsOrder length

apply_gallery_filters-IsSorted_example :
    InOrder platform created_desc (apply_gallery_filters platform assets all_assets)
    × Perm
        (apply_gallery_filters platform assets all_assets)
        (filter (λ asset. matches_query all_assets.query (asset_text asset)) assets)
apply_gallery_filters-IsSorted_example =
    apply_gallery_filters-IsSorted platform assets all_assets longer-IsOrder
      ((λ e. cc), ((λ e. cc), tt))

abbrev book : Text → ℕ → ℕ → BookItem
book title rating pages = record {
  id = title;
  title = title;
  author = [];
  year = 1999;
  note = [];
  goodreads_url = [];
  rating = rating;
  ratings_count = 1;
  pages = pages;
  genres = codes "fantasy" ∷ [];
  tags = [];
  publisher = [];
  description = [];
  cover_url = [];
}

abbrev books : List BookItem
books = book (codes "Dune") 430 600 ∷ book (codes "Emma") 410 300 ∷ []

abbrev rated : BookFilterState
rated = record {
  query = [];
  sort = rating_desc;
  selected_genres = codes "fantasy" ∷ [];
  selected_tags = [];
  min_rating = 400;
  min_pages = 0;
  max_pages = 0;
}

passes_iff_example :
    (passes rated (book (codes "Dune") 430 600) ≡ true)
    ↔ Accepts rated (book (codes "Dune") 430 600)
passes_iff_example = passes_iff rated (book (codes "Dune") 430 600)

apply_book_filters-perm_example :
    Perm (apply_book_filters longer books rated) (filter (passes rated) books)
apply_book_filters-perm_example = apply_book_filters-perm longer books rated
