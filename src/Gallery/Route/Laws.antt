-- ===== src/Gallery/Route/Laws.antt =====
-- What is known of an image that the route serves.
use deedlit_dev.Base.{
  ◌≤◌, ◌≡◌, refl, sym, ap, ◌∙◌, subst, ◌≢◌, inl, inr, true, Option, none, some, [], ◌∷◌, arith,
  Option-cases, length, Text, Bytes, codes, text_eq, text_eq_iff, has, to_lower, starts_with,
  extname,
}
use deedlit_dev.Base.Outcome.{Outcome, returned, thrown}
use deedlit_dev.Png.Strip.{strip_png_metadata}
use deedlit_dev.Png.Reader.{Runtime, read_embedded_metadata_from_png}
use deedlit_dev.Png.Clean.{has_plain_types, read_stripped}
use deedlit_dev.Gallery.Ids.{IndexedImage, find_image}
use deedlit_dev.Gallery.Route.{
  allowed_exts, max_id_length, valid_id, Site, Served, served, content_type_for, respond, serve,
  get_image,
}

abbrev pub ext_of : IndexedImage → Text
ext_of image = to_lower (extname image.filename)

-- The request for `id` was answered with this image of the index.
pub record IsServed (site : Site) (method : Text) (id : Option Text) (r : Served) : Type 0 where
  pub asked : Text
  pub image : IndexedImage
  pub original : Bytes
  pub is_get : method ≡ codes "GET"
  pub has_id : id ≡ some asked
  pub is_valid : valid_id asked ≡ true
  pub is_short : length asked ≤ max_id_length
  pub is_indexed : find_image asked site.index ≡ some image
  pub is_allowed : has (ext_of image) allowed_exts ≡ true
  pub is_inside : starts_with site.image_dir (site.resolve image.filename) ≡ true
  pub was_read : site.read_file image.filename ≡ returned original
  pub content_type : r.content_type ≡ content_type_for (ext_of image)
  pub png_body : ext_of image ≡ codes ".png" → r.body ≡ strip_png_metadata original
  pub other_body : ext_of image ≢ codes ".png" → r.body ≡ original

respond-eq-served :
    (id ext : Text) (m : Outcome Bytes) (r : Served)
    → respond id ext m ≡ served r
    → (b : Bytes) × (m ≡ returned b)
      × (r.content_type ≡ content_type_for ext)
      × (ext ≡ codes ".png" → r.body ≡ strip_png_metadata b)
      × (ext ≢ codes ".png" → r.body ≡ b)
unfolding respond
respond-eq-served id ext (thrown e) r h = cc
respond-eq-served id ext (returned b) r h = (
  b,
  refl,
  ground arith,
  (λ e. ground (arith, text_eq_iff ext (codes ".png"))),
  (λ ne. ground (arith, text_eq_iff ext (codes ".png"))),
)

serve-eq-served :
    (site : Site) (id filename : Text) (r : Served)
    → serve site id filename ≡ served r
    → let ext = to_lower (extname filename) in
      (has ext allowed_exts ≡ true)
      × (starts_with site.image_dir (site.resolve filename) ≡ true)
      × (respond id ext (site.read_file filename) ≡ served r)
unfolding serve
serve-eq-served site id filename r h = ground arith

get_image_found :
    (site : Site) (method asked : Text) (image : IndexedImage) (r : Served)
    → text_eq method (codes "GET") ≡ true
    → (valid_id asked ≡ true) × (length asked ≤ max_id_length)
    → find_image asked site.index ≡ some image
    → serve site asked image.filename ≡ served r
    → IsServed site method (some asked) r
get_image_found site method asked image r get ok found h =
    let (allowed, inside, answered) = serve-eq-served site asked image.filename r h in
    let (original, was_read, kind, png, other) =
      respond-eq-served asked (ext_of image) (site.read_file image.filename) r answered in
    record {
      asked = asked;
      image = image;
      original = original;
      is_get = (text_eq_iff method (codes "GET")).0 get;
      has_id = refl;
      is_valid = ok.0;
      is_short = ok.1;
      is_indexed = found;
      is_allowed = allowed;
      is_inside = inside;
      was_read = was_read;
      content_type = kind;
      png_body = png;
      other_body = other;
    }

png_of_content_type : (ext : Text) → content_type_for ext ≡ codes "image/png" → ext ≡ codes ".png"
unfolding content_type_for
png_of_content_type ext h = ground (arith, text_eq_iff ext (codes ".png"))

-- What a served request passed before the file was looked at.
get_image_guards :
    (site : Site) (method : Text) (id : Option Text) (r : Served)
    → get_image site method id ≡ served r
    → (asked : Text) × (image : IndexedImage) × (id ≡ some asked)
      × (text_eq method (codes "GET") ≡ true)
      × (valid_id asked ≡ true)
      × (length asked ≤ max_id_length)
      × (find_image asked site.index ≡ some image)
      × (serve site asked image.filename ≡ served r)
unfolding get_image
get_image_guards site method none r h = absurd (ground arith)
get_image_guards site method (some []) r h = absurd (ground arith)
get_image_guards site method (some (c ∷ s)) r h =
    elim (Option-cases (find_image (c ∷ s) site.index)) [
      | inl e ↦ absurd (ground arith)
      | inr (image, e) ↦
          (c ∷ s, image, refl, ground arith, ground arith, ground arith, e, ground arith)
    ]

-- A request that is answered with a file was a GET for a valid id of at most 100 units, of an image that is
-- in the index, with an allowed extension and a resolved path that begins with the text of the image
-- directory's; the content type is that of the extension, the body is the file, and that of a PNG is
-- stripped.
pub get_image-IsServed :
    (site : Site) (method : Text) (id : Option Text) (r : Served)
    → get_image site method id ≡ served r
    → IsServed site method id r
get_image-IsServed site method id r h =
    let (asked, image, e, get, valid, short, found, answered) =
      get_image_guards site method id r h in
    subst (λ i. IsServed site method i r) (sym e)
      (get_image_found site method asked image r get (valid, short) found answered)

-- In a body served as image/png whose chunk types have no high bit set the metadata reader finds no embedded
-- metadata and meets no error.
pub get_image_clean :
    (rt : Runtime) (site : Site) (method : Text) (id : Option Text) (r : Served)
    → get_image site method id ≡ served r
    → r.content_type ≡ codes "image/png"
    → has_plain_types r.body ≡ true
    → read_embedded_metadata_from_png rt (returned r.body)
      ≡ record { metadata = none; error = none }
get_image_clean rt site method id r h png plain =
    let s = get_image-IsServed site method id r h in
    let stripped : r.body ≡ strip_png_metadata s.original =
      s.png_body (png_of_content_type (ext_of s.image) (sym s.content_type ∙ png)) in
    rw stripped (read_stripped rt s.original (ap has_plain_types (sym stripped) ∙ plain))
