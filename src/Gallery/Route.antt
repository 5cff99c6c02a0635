-- ===== src/Gallery/Route.antt =====
-- The `GET` handler of deedlit.dev/src/app/image/route.ts.
pub mod Laws
use deedlit_dev.Base.{
  ℕ, zero, suc, ◌+◌, ◌-◌, ◌*◌, ◌/◌, ◌%◌, ◌≤◌, ◌<◌, ◌≡◌, refl, sym, ap, ◌∙◌, subst, ◌≢◌, ◌↔◌, ◌⊎◌,
  inl, inr, Bool, true, false, not, ◌&&◌, ◌||◌, Option, none, some, List, [], ◌∷◌, ◌++◌, map,
  append_assoc, append-nil, arith, ltb, leb, ◌==◌, if◌then◌else◌, Bool-cases, Option-cases, or_else,
  or_option, &&-true, ||-true, length, take, drop, get_elem?, slice, filter, any, all, find, concat,
  replicate, All, length-append, length-drop, length-take, take-append-drop, drop-nil, drop-drop,
  get_elem?-drop, take-append, drop-append, filter-append, length-filter-le, filter_idem,
  concat-append, length-map, take-drop-take, take-append-le, drop-append-le, Text, Bytes, codes,
  text_eq, text_eq_iff, text_eq_refl, has, is_space, trim_start, trim, lower_unit, to_lower,
  starts_with, ends_with, includes, split_at, join, In, has_iff, cut_last_dot, extname, IsDistinct,
  append_cancel,
}
use deedlit_dev.Base.Outcome.{Outcome, returned, thrown}
use deedlit_dev.Png.Strip.{strip_png_metadata}
use deedlit_dev.Gallery.Ids.{IndexedImage, find_image}

abbrev pub allowed_exts : List Text
allowed_exts =
    codes ".png" ∷ codes ".jpg" ∷ codes ".jpeg" ∷ codes ".webp" ∷ codes ".avif" ∷ codes ".svg" ∷ []

abbrev pub max_id_length : ℕ
max_id_length = 100

-- One code unit of `/^[a-zA-Z0-9_-]+$/`.
unfoldable pub is_id_unit : ℕ → Bool
is_id_unit c =
    (leb b'a' c && leb c b'z')
    || (leb b'A' c && leb c b'Z')
    || (leb b'0' c && leb c b'9')
    || c == b'_'
    || c == b'-'

unfoldable pub valid_id : Text → Bool
valid_id [] = false
valid_id (c ∷ s) = all is_id_unit (c ∷ s)

-- What the handler meets: the image index, where `path.resolve` takes a file of the image
-- directory and the directory itself, and what reading a file gives.
pub record Site : Type 0 where
  pub index : List IndexedImage
  pub resolve : Text → Text
  pub image_dir : Text
  pub read_file : Text → Outcome Bytes

pub record Served : Type 0 where
  pub content_type : Text
  pub content_disposition : Text
  pub body : Bytes

pub data Response : Type 0 where
  failure : ℕ → Text → Response
  served : Served → Response

unfoldable pub content_type_for : Text → Text
content_type_for ext =
    if text_eq ext (codes ".png")
    then codes "image/png"
    else if text_eq ext (codes ".jpg") || text_eq ext (codes ".jpeg")
    then codes "image/jpeg"
    else if text_eq ext (codes ".webp")
    then codes "image/webp"
    else if text_eq ext (codes ".avif")
    then codes "image/avif"
    else codes "image/svg+xml"

-- The `try` block and its `catch`.
unfoldable pub respond : Text → Text → Outcome Bytes → Response
respond id ext (thrown e) = failure 404 (codes "Not found")
respond id ext (returned original) =
    let body = if text_eq ext (codes ".png") then strip_png_metadata original else original in
    served (record {
      content_type = content_type_for ext;
      content_disposition = codes "inline; filename=\"image-" ++ (id ++ (ext ++ codes "\""));
      body = body;
    })

-- From the file name on.
unfoldable pub serve : Site → Text → Text → Response
serve site id filename =
    let ext = to_lower (extname filename) in
    if not (has ext allowed_exts)
    then failure 400 (codes "Unsupported type")
    else if not (starts_with site.image_dir (site.resolve filename))
    then failure 403 (codes "Forbidden")
    else respond id ext (site.read_file filename)

unfoldable pub get_image : Site → Text → Option Text → Response
get_image site method id =
    if not (text_eq method (codes "GET"))
    then failure 405 (codes "Method not allowed")
    else elim id [
      | none ↦ failure 400 (codes "Missing id")
      | some [] ↦ failure 400 (codes "Missing id")
      | some (c ∷ s) ↦
          if not (valid_id (c ∷ s)) || ltb max_id_length (length (c ∷ s))
          then failure 400 (codes "Invalid id")
          else elim (find_image (c ∷ s) site.index) [
            | none ↦ failure 404 (codes "Not found")
            | some image ↦ serve site (c ∷ s) image.filename
          ]
    ]
