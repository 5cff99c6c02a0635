-- ===== src/Settings/Merge.antt =====
-- A merge gives valid settings, and gives settings that are valid back.
use deedlit_dev.Base.{◌≡◌, refl, Option, none, some, [], arith, codes, text_eq, has}
use deedlit_dev.Settings.{
  Numbers, Blob, LibrarySettings, default_settings, bool, subset_of, merge_settings, blob_of,
  browse_modes, view_modes, sort_modes, group_modes, densities, image_fits, safety_classes,
}
use deedlit_dev.Settings.Fields.{
  IsOrdered, IsValid, num_bounds, one_of-allowed, subset_of-All, subset_of-IsDistinct,
  safety_classes-All, safety_classes-IsDistinct, allowed_once_same, num_inside, one_of_allowed,
}

module _ {N : Type 0} (n : Numbers N) (ord : IsOrdered n) where
  merged : (r : Blob N) → IsValid n (merge_settings n (some r))
  unfolding merge_settings
  merged r = record {
    page_size = num_bounds n ord (r (codes "pageSize")) 10 200 40 (omega arith) (omega arith);
    default_mode =
        one_of-allowed (r (codes "defaultMode")) browse_modes (codes "browse")
          (unfold has text_eq in refl);
    view_mode =
        one_of-allowed (r (codes "viewMode")) view_modes (codes "grid")
          (unfold has text_eq in refl);
    sort_mode =
        one_of-allowed (r (codes "sortMode")) sort_modes (codes "newest")
          (unfold has text_eq in refl);
    group_by =
        one_of-allowed (r (codes "groupBy")) group_modes (codes "none")
          (unfold has text_eq in refl);
    grid_density =
        one_of-allowed (r (codes "gridDensity")) densities (codes "comfortable")
          (unfold has text_eq in refl);
    viewer_image_fit =
        one_of-allowed (r (codes "viewerImageFit")) image_fits (codes "contain")
          (unfold has text_eq in refl);
    graph_depth = num_bounds n ord (r (codes "graphDepth")) 1 3 1 (omega arith) (omega arith);
    similar_count = num_bounds n ord (r (codes "similarCount")) 0 48 12 (omega arith) (omega arith);
    similar_min_score =
        num_bounds n ord (r (codes "similarMinScore")) 0 1 0 (omega arith) (omega arith);
    related_tags_count =
        num_bounds n ord (r (codes "relatedTagsCount")) 0 40 12 (omega arith) (omega arith);
    default_min_rating =
        num_bounds n ord (r (codes "defaultMinRating")) 0 5 0 (omega arith) (omega arith);
    default_min_score =
        num_bounds n ord (r (codes "defaultMinScore")) 0 1 0 (omega arith) (omega arith);
    default_safety =
        subset_of-All (r (codes "defaultSafety")) safety_classes safety_classes safety_classes-All;
    default_safety_once =
        subset_of-IsDistinct (r (codes "defaultSafety")) safety_classes safety_classes
          safety_classes-IsDistinct;
    slideshow_interval =
        num_bounds n ord (r (codes "slideshowInterval")) 1 60 5 (omega arith) (omega arith);
  }

  defaults : IsValid n (default_settings n)
  defaults = record {
    page_size = (ord.literals 10 40 (omega arith), ord.literals 40 200 (omega arith));
    default_mode = unfold has text_eq in refl;
    view_mode = unfold has text_eq in refl;
    sort_mode = unfold has text_eq in refl;
    group_by = unfold has text_eq in refl;
    grid_density = unfold has text_eq in refl;
    viewer_image_fit = unfold has text_eq in refl;
    graph_depth = (ord.literals 1 1 (omega arith), ord.literals 1 3 (omega arith));
    similar_count = (ord.literals 0 12 (omega arith), ord.literals 12 48 (omega arith));
    similar_min_score = (ord.literals 0 0 (omega arith), ord.literals 0 1 (omega arith));
    related_tags_count = (ord.literals 0 12 (omega arith), ord.literals 12 40 (omega arith));
    default_min_rating = (ord.literals 0 0 (omega arith), ord.literals 0 5 (omega arith));
    default_min_score = (ord.literals 0 0 (omega arith), ord.literals 0 1 (omega arith));
    default_safety = safety_classes-All;
    default_safety_once = safety_classes-IsDistinct;
    slideshow_interval = (ord.literals 1 5 (omega arith), ord.literals 5 60 (omega arith));
  }

  -- Whatever is stored, also what is no object: the settings made of it are valid. Each number is
  -- within the bounds of its field, each choice is one of those allowed, and the safety classes are
  -- allowed ones, each once.
  pub merge_settings-IsValid : (raw : Option (Blob N)) → IsValid n (merge_settings n raw)
  merge_settings-IsValid none = unfold merge_settings in defaults
  merge_settings-IsValid (some r) = merged r

  -- Valid settings that are stored and merged again are the same settings.
  pub merge_settings-blob_of :
      (s : LibrarySettings N) → IsValid n s → merge_settings n (some (blob_of s)) ≡ s
  unfolding merge_settings blob_of bool text_eq subset_of has
  merge_settings-blob_of s v = λ i. record {
    page_size = num_inside n s.page_size 10 200 (n.literal 40) v.page_size i;
    default_mode = one_of_allowed n s.default_mode browse_modes (codes "browse") v.default_mode i;
    infinite_scroll = s.infinite_scroll;
    view_mode = one_of_allowed n s.view_mode view_modes (codes "grid") v.view_mode i;
    sort_mode = one_of_allowed n s.sort_mode sort_modes (codes "newest") v.sort_mode i;
    group_by = one_of_allowed n s.group_by group_modes (codes "none") v.group_by i;
    grid_density = one_of_allowed n s.grid_density densities (codes "comfortable") v.grid_density i;
    show_scores = s.show_scores;
    show_card_meta = s.show_card_meta;
    viewer_image_fit =
        one_of_allowed n s.viewer_image_fit image_fits (codes "contain") v.viewer_image_fit i;
    viewer_full_resolution = s.viewer_full_resolution;
    show_prompt = s.show_prompt;
    show_description = s.show_description;
    show_generation_params = s.show_generation_params;
    show_relationship_graph = s.show_relationship_graph;
    graph_depth = num_inside n s.graph_depth 1 3 (n.literal 1) v.graph_depth i;
    show_similar = s.show_similar;
    similar_count = num_inside n s.similar_count 0 48 (n.literal 12) v.similar_count i;
    similar_min_score = num_inside n s.similar_min_score 0 1 (n.literal 0) v.similar_min_score i;
    auto_load_suggestions = s.auto_load_suggestions;
    show_related_tags = s.show_related_tags;
    related_tags_count =
        num_inside n s.related_tags_count 0 40 (n.literal 12) v.related_tags_count i;
    default_min_rating = num_inside n s.default_min_rating 0 5 (n.literal 0) v.default_min_rating i;
    default_favorites_only = s.default_favorites_only;
    default_min_score = num_inside n s.default_min_score 0 1 (n.literal 0) v.default_min_score i;
    default_safety =
        allowed_once_same safety_classes [] s.default_safety v.default_safety v.default_safety_once
          (λ a h. refl) i;
    slideshow_interval =
        num_inside n s.slideshow_interval 1 60 (n.literal 5) v.slideshow_interval i;
    slideshow_loop = s.slideshow_loop;
    slideshow_shuffle = s.slideshow_shuffle;
  }
