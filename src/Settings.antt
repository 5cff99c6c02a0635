-- ===== src/Settings.antt =====
-- lib/store/settings.tsx of deedlit.dev.comfyhelper: the preferences of the library and how a stored
-- blob is merged over the defaults. A number is of a type `N` that the runtime orders; the literals
-- of the source are the images of natural numbers.
pub mod Fields
pub mod Merge
pub mod Provider
use deedlit_dev.Base.{
  ℕ, zero, suc, ◌+◌, ◌-◌, ◌*◌, ◌/◌, ◌%◌, ◌≤◌, ◌<◌, ◌≡◌, refl, sym, ap, ◌∙◌, subst, ◌≢◌, ◌↔◌, ◌⊎◌,
  inl, inr, Bool, true, false, not, ◌&&◌, ◌||◌, Option, none, some, List, [], ◌∷◌, ◌++◌, map,
  reverse, append_assoc, append-nil, arith, ltb, leb, ◌==◌, if◌then◌else◌, Bool-cases, Option-cases,
  or_else, or_option, &&-true, ||-true, length, take, drop, get_elem?, slice, filter, any, all,
  find, concat, replicate, All, length-append, length-drop, length-take, take-append-drop, drop-nil,
  drop-drop, get_elem?-drop, take-append, drop-append, filter-append, length-filter-le, filter_idem,
  concat-append, length-map, take-drop-take, take-append-le, drop-append-le, Text, Bytes, codes,
  text_eq, text_eq_iff, text_eq_refl, has, is_space, trim_start, trim, lower_unit, to_lower,
  starts_with, ends_with, includes, split_at, join, In, has_iff, cut_last_dot, extname, IsDistinct,
  append_cancel,
}

pub record Numbers (N : Type 0) : Type 0 where
  pub number_leb : N → N → Bool
  pub literal : ℕ → N

-- A field of the stored object: `number none` is not finite, an entry of a list is `none` where it is
-- no text, and `other` stands for what is absent or of another type.
pub data Value (N : Type 0) : Type 0 where
  flag : Bool → Value N
  number : Option N → Value N
  text : Text → Value N
  listed : List (Option Text) → Value N
  other : Value N

-- `r[k]` of the stored object.
abbrev pub Blob : Type 0 → Type 0
Blob N = Text → Value N

abbrev pub browse_modes : List Text
browse_modes = codes "browse" ∷ codes "semantic" ∷ codes "image" ∷ []

abbrev pub view_modes : List Text
view_modes = codes "grid" ∷ codes "list" ∷ codes "masonry" ∷ []

abbrev pub sort_modes : List Text
sort_modes =
    codes "relevance"
    ∷ codes "newest"
    ∷ codes "oldest"
    ∷ codes "created_desc"
    ∷ codes "created_asc"
    ∷ codes "rating_desc"
    ∷ codes "rating_asc"
    ∷ codes "name_asc"
    ∷ codes "name_desc"
    ∷ []

abbrev pub group_modes : List Text
group_modes = codes "none" ∷ codes "folder" ∷ []

abbrev pub densities : List Text
densities = codes "compact" ∷ codes "comfortable" ∷ codes "spacious" ∷ []

abbrev pub image_fits : List Text
image_fits = codes "contain" ∷ codes "cover" ∷ []

abbrev pub safety_classes : List Text
safety_classes = codes "sfw" ∷ codes "nsfw" ∷ codes "explicit" ∷ []

pub record LibrarySettings (N : Type 0) : Type 0 where
  pub page_size : N
  pub default_mode : Text
  pub infinite_scroll : Bool
  pub view_mode : Text
  pub sort_mode : Text
  pub group_by : Text
  pub grid_density : Text
  pub show_scores : Bool
  pub show_card_meta : Bool
  pub viewer_image_fit : Text
  pub viewer_full_resolution : Bool
  pub show_prompt : Bool
  pub show_description : Bool
  pub show_generation_params : Bool
  pub show_relationship_graph : Bool
  pub graph_depth : N
  pub show_similar : Bool
  pub similar_count : N
  pub similar_min_score : N
  pub auto_load_suggestions : Bool
  pub show_related_tags : Bool
  pub related_tags_count : N
  pub default_min_rating : N
  pub default_favorites_only : Bool
  pub default_min_score : N
  pub default_safety : List Text
  pub slideshow_interval : N
  pub slideshow_loop : Bool
  pub slideshow_shuffle : Bool

module _ {N : Type 0} (n : Numbers N) where
  abbrev pub default_settings : LibrarySettings N
  default_settings = record {
    page_size = n.literal 40;
    default_mode = codes "browse";
    infinite_scroll = false;
    view_mode = codes "grid";
    sort_mode = codes "newest";
    group_by = codes "none";
    grid_density = codes "comfortable";
    show_scores = true;
    show_card_meta = true;
    viewer_image_fit = codes "contain";
    viewer_full_resolution = false;
    show_prompt = true;
    show_description = true;
    show_generation_params = true;
    show_relationship_graph = true;
    graph_depth = n.literal 1;
    show_similar = true;
    similar_count = n.literal 12;
    similar_min_score = n.literal 0;
    auto_load_suggestions = true;
    show_related_tags = true;
    related_tags_count = n.literal 12;
    default_min_rating = n.literal 0;
    default_favorites_only = false;
    default_min_score = n.literal 0;
    default_safety = safety_classes;
    slideshow_interval = n.literal 5;
    slideshow_loop = true;
    slideshow_shuffle = false;
  }

  -- `Math.min(max, Math.max(min, value))`.
  unfoldable pub clamp : N → ℕ → ℕ → N
  clamp value low high =
      let raised = if n.number_leb (n.literal low) value then value else n.literal low in
      if n.number_leb raised (n.literal high) then raised else n.literal high

  unfoldable pub num : Value N → ℕ → ℕ → N → N
  num (number (some v)) low high fallback = clamp v low high
  num _ low high fallback = fallback

unfoldable pub bool : {N : Type 0} → Value N → Bool → Bool
bool (flag b) fallback = b
bool _ fallback = fallback

unfoldable pub one_of : {N : Type 0} → Value N → List Text → Text → Text
one_of (text t) allowed fallback = if has t allowed then t else fallback
one_of _ allowed fallback = fallback

-- The allowed entries, each once, at its first place; `seen` holds those met.
unfoldable pub allowed_once : List Text → List Text → List (Option Text) → List Text
allowed_once allowed seen [] = []
allowed_once allowed seen (none ∷ xs) = allowed_once allowed seen xs
allowed_once allowed seen (some t ∷ xs) =
    let skipped = allowed_once allowed seen xs in
    let kept = t ∷ allowed_once allowed (t ∷ seen) xs in
    if has t allowed && not (has t seen) then kept else skipped

unfoldable pub subset_of : {N : Type 0} → Value N → List Text → List Text → List Text
subset_of (listed xs) allowed fallback = allowed_once allowed [] xs
subset_of _ allowed fallback = fallback

module _ {N : Type 0} (n : Numbers N) where
  -- `raw` is `none` where the stored value is no object.
  unfoldable pub merge_settings : Option (Blob N) → LibrarySettings N
  merge_settings none = default_settings n
  merge_settings (some r) = record {
    page_size = num n (r (codes "pageSize")) 10 200 (n.literal 40);
    default_mode = one_of (r (codes "defaultMode")) browse_modes (codes "browse");
    infinite_scroll = bool (r (codes "infiniteScroll")) false;
    view_mode = one_of (r (codes "viewMode")) view_modes (codes "grid");
    sort_mode = one_of (r (codes "sortMode")) sort_modes (codes "newest");
    group_by = one_of (r (codes "groupBy")) group_modes (codes "none");
    grid_density = one_of (r (codes "gridDensity")) densities (codes "comfortable");
    show_scores = bool (r (codes "showScores")) true;
    show_card_meta = bool (r (codes "showCardMeta")) true;
    viewer_image_fit = one_of (r (codes "viewerImageFit")) image_fits (codes "contain");
    viewer_full_resolution = bool (r (codes "viewerFullResolution")) false;
    show_prompt = bool (r (codes "showPrompt")) true;
    show_description = bool (r (codes "showDescription")) true;
    show_generation_params = bool (r (codes "showGenerationParams")) true;
    show_relationship_graph = bool (r (codes "showRelationshipGraph")) true;
    graph_depth = num n (r (codes "graphDepth")) 1 3 (n.literal 1);
    show_similar = bool (r (codes "showSimilar")) true;
    similar_count = num n (r (codes "similarCount")) 0 48 (n.literal 12);
    similar_min_score = num n (r (codes "similarMinScore")) 0 1 (n.literal 0);
    auto_load_suggestions = bool (r (codes "autoLoadSuggestions")) true;
    show_related_tags = bool (r (codes "showRelatedTags")) true;
    related_tags_count = num n (r (codes "relatedTagsCount")) 0 40 (n.literal 12);
    default_min_rating = num n (r (codes "defaultMinRating")) 0 5 (n.literal 0);
    default_favorites_only = bool (r (codes "defaultFavoritesOnly")) false;
    default_min_score = num n (r (codes "defaultMinScore")) 0 1 (n.literal 0);
    default_safety = subset_of (r (codes "defaultSafety")) safety_classes safety_classes;
    slideshow_interval = num n (r (codes "slideshowInterval")) 1 60 (n.literal 5);
    slideshow_loop = bool (r (codes "slideshowLoop")) true;
    slideshow_shuffle = bool (r (codes "slideshowShuffle")) false;
  }

-- The object that is stored, as it is read back: a field for each setting.
unfoldable pub blob_of : {N : Type 0} → LibrarySettings N → Blob N
blob_of s k =
    if text_eq k (codes "pageSize")
    then number (some s.page_size)
    else if text_eq k (codes "defaultMode")
    then text s.default_mode
    else if text_eq k (codes "infiniteScroll")
    then flag s.infinite_scroll
    else if text_eq k (codes "viewMode")
    then text s.view_mode
    else if text_eq k (codes "sortMode")
    then text s.sort_mode
    else if text_eq k (codes "groupBy")
    then text s.group_by
    else if text_eq k (codes "gridDensity")
    then text s.grid_density
    else if text_eq k (codes "showScores")
    then flag s.show_scores
    else if text_eq k (codes "showCardMeta")
    then flag s.show_card_meta
    else if text_eq k (codes "viewerImageFit")
    then text s.viewer_image_fit
    else if text_eq k (codes "viewerFullResolution")
    then flag s.viewer_full_resolution
    else if text_eq k (codes "showPrompt")
    then flag s.show_prompt
    else if text_eq k (codes "showDescription")
    then flag s.show_description
    else if text_eq k (codes "showGenerationParams")
    then flag s.show_generation_params
    else if text_eq k (codes "showRelationshipGraph")
    then flag s.show_relationship_graph
    else if text_eq k (codes "graphDepth")
    then number (some s.graph_depth)
    else if text_eq k (codes "showSimilar")
    then flag s.show_similar
    else if text_eq k (codes "similarCount")
    then number (some s.similar_count)
    else if text_eq k (codes "similarMinScore")
    then number (some s.similar_min_score)
    else if text_eq k (codes "autoLoadSuggestions")
    then flag s.auto_load_suggestions
    else if text_eq k (codes "showRelatedTags")
    then flag s.show_related_tags
    else if text_eq k (codes "relatedTagsCount")
    then number (some s.related_tags_count)
    else if text_eq k (codes "defaultMinRating")
    then number (some s.default_min_rating)
    else if text_eq k (codes "defaultFavoritesOnly")
    then flag s.default_favorites_only
    else if text_eq k (codes "defaultMinScore")
    then number (some s.default_min_score)
    else if text_eq k (codes "defaultSafety")
    then listed (map some s.default_safety)
    else if text_eq k (codes "slideshowInterval")
    then number (some s.slideshow_interval)
    else if text_eq k (codes "slideshowLoop")
    then flag s.slideshow_loop
    else if text_eq k (codes "slideshowShuffle")
    then flag s.slideshow_shuffle
    else other
