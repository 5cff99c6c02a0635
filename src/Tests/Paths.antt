-- ===== src/Tests/Paths.antt =====
-- The path helpers on short paths.
use deedlit_dev.Base.{
  ◌≡◌, refl, ◌≢◌, true, [], ◌∷◌, ◌++◌, Text, codes, text_eq, has, trim, lower_unit, split_at, In,
  IsDistinct,
}
use deedlit_dev.Paths.{
  normalize_path, path_key, collect_paths, split_paths, lines_of, drop_crs, drop_cr, tidy_body,
  strip_trailing, drop_seps, collapse, cut_lead, is_drive, has_mixed_separators,
}
use deedlit_dev.Paths.Laws.{keys, split_paths-IsDistinct}

abbrev blob : Text
blob = codes "/a//b/" ++ (13 ∷ 10 ∷ codes "/A/b" ++ (10 ∷ codes " C:/ "))

normalize_runs :
    (normalize_path (codes " //srv//x/ ") ≡ codes "//srv/x")
    × (normalize_path (codes "C:/") ≡ codes "C:/")
    × (has_mixed_separators (codes "K:\\a/b") ≡ true)
unfolding normalize_path tidy_body strip_trailing drop_seps collapse cut_lead is_drive trim text_eq
    has_mixed_separators
normalize_runs = (refl, refl, refl)

split_runs : split_paths blob ≡ codes "/a/b" ∷ codes "C:/" ∷ []
unfolding split_paths collect_paths lines_of drop_crs drop_cr normalize_path tidy_body
    strip_trailing drop_seps collapse cut_lead is_drive trim text_eq has lower_unit split_at
split_runs = refl

-- Normalizing is not idempotent: dropping the last separator can bare a space.
normalize_twice :
    (normalize_path (codes "a/ /") ≡ codes "a/ ") × (normalize_path (codes "a/ ") ≡ codes "a")
unfolding normalize_path tidy_body strip_trailing drop_seps collapse cut_lead is_drive trim text_eq
normalize_twice = (refl, refl)

split_paths-IsDistinct_example :
    IsDistinct (keys (split_paths blob))
    × ((line : Text)
        → In line (lines_of blob)
        → normalize_path line ≢ []
        → has (path_key line) (keys (split_paths blob)) ≡ true)
split_paths-IsDistinct_example = split_paths-IsDistinct blob
