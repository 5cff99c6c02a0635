-- ===== src/Gallery/Ids.antt =====
-- The ids of the image index: deedlit.dev/src/features/gallery/server/image-index.ts.
pub mod Fresh
use deedlit_dev.Base.{
  ℕ, zero, suc, ◌+◌, ◌-◌, ◌*◌, ◌/◌, ◌%◌, ◌≤◌, ◌<◌, ◌≡◌, refl, sym, ap, ◌∙◌, subst, ◌≢◌, ◌↔◌, ◌⊎◌,
  inl, inr, Bool, true, false, not, ◌&&◌, ◌||◌, Option, none, some, List, [], ◌∷◌, ◌++◌, map,
  append_assoc, append-nil, arith, ltb, leb, ◌==◌, if◌then◌else◌, Bool-cases, Option-cases, or_else,
  or_option, &&-true, ||-true, length, take, drop, get_elem?, slice, filter, any, all, concat,
  replicate, All, length-append, length-drop, length-take, take-append-drop, drop-nil, drop-drop,
  get_elem?-drop, take-append, drop-append, filter-append, length-filter-le, filter_idem,
  concat-append, length-map, take-drop-take, take-append-le, drop-append-le, Text, Bytes, codes,
  text_eq, text_eq_iff, text_eq_refl, has, is_space, trim_start, trim, lower_unit, to_lower,
  starts_with, ends_with, includes, split_at, join, In, has_iff, cut_last_dot, extname, IsDistinct,
  append_cancel,
}
use deedlit_dev.Base.Decimal.{show}
use deedlit_dev.Gallery.Sort.{sort}

pub record IndexedImage : Type 0 where
  pub id : Text
  pub filename : Text
  pub created_at : Text
  pub created_at_ms : ℕ

-- A directory entry with what `stat` says of it. Times are milliseconds; `birthtime_ms` is `none`
-- where it is not finite.
pub record DirEntry : Type 0 where
  pub name : Text
  pub is_file : Bool
  pub birthtime_ms : Option ℕ
  pub mtime_ms : ℕ

-- What the code takes from Node: sixteen hex digits of the SHA-256 of a name, whether
-- `localeCompare` of two names is positive, and a time printed by `toISOString`.
pub record Node : Type 0 where
  pub base_id : Text → Text
  pub name_after : Text → Text → Bool
  pub iso_string : ℕ → Text

abbrev pub image_exts : List Text
image_exts =
    codes ".png" ∷ codes ".jpg" ∷ codes ".jpeg" ∷ codes ".webp" ∷ codes ".avif" ∷ codes ".svg" ∷ []

abbrev pub excluded_files : List Text
excluded_files = codes "og-cover.svg" ∷ codes "icon.svg" ∷ []

unfoldable pub get_created_at_ms : DirEntry → ℕ
get_created_at_ms stat = elim stat.birthtime_ms [
  | none ↦ stat.mtime_ms
  | some t ↦ if ltb 0 t then t else stat.mtime_ms
]

unfoldable pub is_indexed : DirEntry → Bool
unfolding extname
is_indexed entry =
    entry.is_file
    && not (has entry.name excluded_files)
    && has (to_lower (extname entry.name)) image_exts

-- Whether the comparator of the scan is positive: newest first, then names downwards.
unfoldable pub scan_after : Node → DirEntry → DirEntry → Bool
unfolding get_created_at_ms
scan_after node a b =
    let ta = get_created_at_ms a in
    let tb = get_created_at_ms b in
    if not (tb == ta) then ltb ta tb else node.name_after b.name a.name

-- `while (used.has(id))`, on fuel.
unfoldable pub fresh_loop : ℕ → List Text → Text → Text → ℕ → Text
fresh_loop zero used base id suffix = id
fresh_loop (suc fuel) used base id suffix =
    let next = fresh_loop fuel used base (base ++ (b'-' ∷ show suffix)) (suffix + 1) in
    if has id used then next else id

-- One more candidate than there are used ids is fuel enough.
unfoldable pub fresh_id : List Text → Text → Text
fresh_id used base = fresh_loop (length used + 1) used base base 1

-- The loop over the sorted files.
unfoldable pub assign_ids : Node → List Text → List DirEntry → List IndexedImage
assign_ids node used [] = []
assign_ids node used (item ∷ items) =
    let id = fresh_id used (node.base_id item.name) in
    record {
      id = id;
      filename = item.name;
      created_at = node.iso_string (get_created_at_ms item);
      created_at_ms = get_created_at_ms item;
    }
    ∷ assign_ids node (id ∷ used) items

unfoldable pub scan_image_dir : Node → List DirEntry → List IndexedImage
unfolding is_indexed assign_ids fresh_id fresh_loop scan_after
scan_image_dir node entries =
    assign_ids node [] (sort (scan_after node) (filter is_indexed entries))

-- `images.find((image) => image.id === id) ?? null`.
unfoldable pub find_image : Text → List IndexedImage → Option IndexedImage
find_image id [] = none
find_image id (image ∷ images) = if text_eq image.id id then some image else find_image id images
