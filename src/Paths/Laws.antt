-- ===== src/Paths/Laws.antt =====
-- Paths.
use deedlit_dev.Base.{
  ◌≡◌, refl, ap, ◌∙◌, ◌≢◌, inl, inr, true, false, ◌||◌, List, [], ◌∷◌, map, arith, Text,
  text_eq_iff, text_eq_refl, has, to_lower, In, IsDistinct,
}
use deedlit_dev.Paths.{normalize_path, path_key, collect_paths, split_paths, lines_of}

abbrev pub keys : List Text → List Text
keys = map to_lower

-- A key that was seen before is not collected again.
collect_paths-fresh :
    (seen lines : List Text) (key : Text)
    → has key seen ≡ true
    → has key (keys (collect_paths seen lines)) ≡ false
unfolding collect_paths has
collect_paths-fresh seen [] key h = refl
collect_paths-fresh seen (line ∷ lines) key h =
    let k = to_lower (normalize_path line) in
    ground (
      arith,
      collect_paths-fresh seen lines key h,
      collect_paths-fresh (k ∷ seen) lines key,
      text_eq_iff key k,
    )

collect_paths-IsDistinct : (seen lines : List Text) → IsDistinct (keys (collect_paths seen lines))
unfolding collect_paths
collect_paths-IsDistinct seen [] = tt
collect_paths-IsDistinct seen (line ∷ lines) =
    let k = to_lower (normalize_path line) in
    ground (
      arith,
      collect_paths-IsDistinct seen lines,
      collect_paths-IsDistinct (k ∷ seen) lines,
      collect_paths-fresh (k ∷ seen) lines k (unfold has in rw (text_eq_refl k)),
    )

collect_paths_keeps :
    (seen lines : List Text) (line : Text)
    → In line lines
    → normalize_path line ≢ []
    → has (to_lower (normalize_path line)) seen
        || has (to_lower (normalize_path line)) (keys (collect_paths seen lines))
      ≡ true
unfolding collect_paths has
collect_paths_keeps seen [] line h ne = absurd h
collect_paths_keeps seen (l ∷ lines) line (inl e) ne = rw e (
    ground (
      arith,
      text_eq_iff (normalize_path l) [],
      text_eq_refl (to_lower (normalize_path l)),
      λ (x : normalize_path l ≡ []). ne (ap normalize_path e ∙ x),
    ))
collect_paths_keeps seen (l ∷ lines) line (inr h) ne = ground (
  arith,
  collect_paths_keeps seen lines line h ne,
  collect_paths_keeps (to_lower (normalize_path l) ∷ seen) lines line h ne,
  text_eq_iff (to_lower (normalize_path line)) (to_lower (normalize_path l)),
)

-- The paths of a blob are collected once each: no two have the same lower-case form, and
-- every line that does not normalize to nothing is represented.
pub split_paths-IsDistinct :
    (raw : Text)
    → IsDistinct (keys (split_paths raw))
      × ((line : Text)
          → In line (lines_of raw)
          → normalize_path line ≢ []
          → has (path_key line) (keys (split_paths raw)) ≡ true)
unfolding split_paths path_key has
split_paths-IsDistinct raw = (
  collect_paths-IsDistinct [] (lines_of raw),
  λ line h ne. collect_paths_keeps [] (lines_of raw) line h ne,
)
