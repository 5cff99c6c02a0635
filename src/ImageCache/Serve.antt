-- ===== src/ImageCache/Serve.antt =====
-- The routes of app/api/library/images/[imageId] that serve bytes: file, thumbnail and grid. The
-- upstream, `encodeURIComponent` and sharp are parameters. A write to the cache, which the code does
-- not wait for, is done when the answer is given.
pub mod Laws
use deedlit_dev.Base.{
  ℕ, zero, suc, ◌+◌, ◌-◌, ◌*◌, ◌/◌, ◌%◌, ◌≤◌, ◌<◌, ◌≡◌, refl, sym, ap, ◌∙◌, subst, ◌≢◌, ◌↔◌, ◌⊎◌,
  inl, inr, Bool, true, false, not, ◌&&◌, ◌||◌, Option, none, some, List, [], ◌∷◌, ◌++◌, map,
  reverse, append_assoc, append-nil, arith, ltb, leb, ◌==◌, if◌then◌else◌, Bool-cases, Option-cases,
  or_else, or_option, &&-true, ||-true, length, take, drop, get_elem?, slice, filter, any, all,
  find, concat, replicate, All, length-append, length-drop, length-take, take-append-drop, drop-nil,
  drop-drop, get_elem?-drop, take-append, drop-append, filter-append, length-filter-le, filter_idem,
  concat-append, length-map, take-drop-take, take-append-le, drop-append-le, Text, Bytes, codes,
  text_eq, text_eq_iff, text_eq_refl, has, is_space, trim_start, trim, lower_unit, to_lower,
  starts_with, ends_with, includes, split_at, join, In, has_iff, cut_last_dot, extname, IsDistinct,
  append_cancel,
}
use deedlit_dev.Base.Outcome.{Outcome, returned, thrown}
use deedlit_dev.ImageCache.{
  ImageKind, thumb, orig, grid, kind_text, CachedImage, Redis, get_cached_image, set_cached_image,
}

-- A response with its body, or the error of a `fetch`.
pub record Upstream : Type 0 where
  pub ok : Bool
  pub has_body : Bool
  pub status : ℕ
  pub content_type : Option Text
  pub body : Outcome Bytes

pub data Answer : Type 0 where
  not_modified : Text → Answer
  served : Text → Text → Bytes → Answer
  json_error : Text → ℕ → Answer

-- A picture's sides where sharp finds them, and the small picture that it makes.
pub record Sharp : Type 0 where
  pub metadata : Bytes → Outcome (Option ℕ × Option ℕ)
  pub small : Bytes → Outcome Bytes

unfoldable pub strip_slashes : Text → Text
strip_slashes [] = []
strip_slashes (c ∷ s) = elim (strip_slashes s) [
  | d ∷ t ↦ c ∷ d ∷ t
  | [] ↦ if c == b'/' then [] else c ∷ []
]

-- The setting DEEDLIT_BLOB_URL, or else the gateway's address.
unfoldable pub get_blob_base_url : Option Text → Text → Text
unfolding strip_slashes trim
get_blob_base_url none gateway = strip_slashes gateway
get_blob_base_url (some v) gateway = elim (trim v) [
  | [] ↦ strip_slashes gateway
  | c ∷ t ↦ strip_slashes (c ∷ t)
]

pub data BlobKind : Type 0 where
  thumbnail embedding original : BlobKind

abbrev pub catalog_kind : BlobKind → Text
catalog_kind embedding = codes "embedding"
catalog_kind _ = codes "thumbnail"

unfoldable pub blob_url : (Text → Text) → Text → Text → BlobKind → Option Text
blob_url encode [] sha256 kind = none
blob_url encode (c ∷ base) sha256 kind =
    some ((c ∷ base) ++ (codes "/blobs/" ++ (encode sha256 ++ (b'/' ∷ catalog_kind kind))))

abbrev pub etag_of : Text → ImageKind → Text
etag_of image_id kind = b'"' ∷ (image_id ++ (b'-' ∷ (kind_text kind ++ b'"' ∷ [])))

-- What a route needs besides the request.
pub record Env (W : Type 0) : Type 0 where
  pub redis : Option (Redis W)
  pub base : Text
  pub encode : Text → Text
  pub fetch : Text → Outcome Upstream
  pub sharp : Sharp

abbrev pub matches : Option Text → Text → Bool
matches none etag = false
matches (some v) etag = text_eq v etag

module _ {W : Type 0} (env : Env W) where
  -- The image is kept and served.
  abbrev pub keep : Text → ImageKind → Bytes → Text → W → Answer × W
  keep image_id kind content content_type w = (
    served (etag_of image_id kind) content_type content,
    set_cached_image env.redis image_id kind content content_type w,
  )

  -- What the route does with the bytes and the type of the upstream's answer.
  abbrev pub Fill : Type 0
  Fill = Bytes → Option Text → W → Answer × W

  abbrev pub fill_as : Text → ImageKind → Text → Fill
  fill_as image_id kind default content content_type w =
      keep image_id kind content (or_else content_type default) w

  abbrev pub max_edge : Option ℕ × Option ℕ → ℕ
  max_edge (width, height) =
      let a = or_else width 0 in let b = or_else height 0 in if leb a b then b else a

  abbrev pub grid_max_edge : ℕ
  grid_max_edge = 512

  abbrev pub fill_shrunk : Text → W → Outcome Bytes → Answer × W
  fill_shrunk image_id w (thrown e) = (json_error e 500, w)
  fill_shrunk image_id w (returned out) = keep image_id grid out (codes "image/webp") w

  -- A picture that is small enough is served as it is.
  unfoldable pub fill_measured :
      Text → Bytes → Option Text → W → Outcome (Option ℕ × Option ℕ) → Answer × W
  fill_measured image_id content content_type w (thrown e) = (json_error e 500, w)
  fill_measured image_id content content_type w (returned sides) =
      if ltb 0 (max_edge sides) && leb (max_edge sides) grid_max_edge
      then keep image_id grid content (or_else content_type (codes "image/webp")) w
      else fill_shrunk image_id w (env.sharp.small content)

  unfoldable pub fill_grid : Text → Fill
  unfolding fill_measured
  fill_grid image_id content content_type w =
      fill_measured image_id content content_type w (env.sharp.metadata content)

  abbrev pub read_body : Fill → Option Text → W → Outcome Bytes → Answer × W
  read_body fill content_type w (thrown e) = (json_error e 500, w)
  read_body fill content_type w (returned content) = fill content content_type w

  unfoldable pub read_upstream : Text → Fill → W → Outcome Upstream → Answer × W
  read_upstream not_found fill w (thrown e) = (json_error e 500, w)
  read_upstream not_found fill w (returned res) =
      if not res.ok || not res.has_body
      then (json_error not_found (if res.status == 404 then 404 else 502), w)
      else read_body fill res.content_type w res.body

  abbrev pub from_url : Text → Text → Fill → W → Option Text → Answer × W
  from_url not_configured not_found fill w none = (json_error not_configured 404, w)
  from_url not_configured not_found fill w (some url) =
      read_upstream not_found fill w (env.fetch url)

  abbrev pub from_cache : Text → (W → Answer × W) → W → Option CachedImage → Answer × W
  from_cache etag miss w none = miss w
  from_cache etag miss w (some cached) = (served etag cached.content_type cached.content, w)

  -- The steps that the routes share: the validator, the cache, the upstream.
  unfoldable pub serve :
      Text → ImageKind → BlobKind → Text → Text → Fill → Option Text → W → Answer × W
  unfolding read_upstream blob_url
  serve image_id kind blob not_configured not_found fill if_none_match w =
      let etag = etag_of image_id kind in
      if matches if_none_match etag
      then (not_modified etag, w)
      else from_cache etag
          (λ v.
            from_url not_configured not_found fill v (blob_url env.encode env.base image_id blob))
          w (get_cached_image env.redis image_id kind w)

  unfoldable pub get_file : Text → Option Text → W → Answer × W
  unfolding serve
  get_file image_id =
      serve image_id orig original (codes "Image serving is not configured (set DEEDLIT_BLOB_URL).")
        (codes "Image not found.") (fill_as image_id orig (codes "image/jpeg"))

  unfoldable pub get_thumbnail : Text → Option Text → W → Answer × W
  unfolding serve
  get_thumbnail image_id =
      serve image_id thumb thumbnail
        (codes "Thumbnail serving is not configured (set DEEDLIT_BLOB_URL).")
        (codes "Thumbnail not found.") (fill_as image_id thumb (codes "image/webp"))

  unfoldable pub get_grid : Text → Option Text → W → Answer × W
  unfolding serve fill_grid
  get_grid image_id =
      serve image_id grid thumbnail
        (codes "Image serving is not configured (set DEEDLIT_BLOB_URL).") (codes "Image not found.")
        (fill_grid image_id)

  -- The three routes, by the kind of image that they serve.
  unfoldable pub get_image : ImageKind → Text → Option Text → W → Answer × W
  unfolding get_file get_thumbnail get_grid
  get_image orig image_id = get_file image_id
  get_image thumb image_id = get_thumbnail image_id
  get_image grid image_id = get_grid image_id
