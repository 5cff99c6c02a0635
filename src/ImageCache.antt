-- ===== src/ImageCache.antt =====
-- lib/library/image-cache.ts of deedlit.dev.comfyhelper. Redis is a parameter: the pair of reads and
-- the pair of writes that the code sends in one pipeline.
pub mod Serve
use deedlit_dev.Base.{ℕ, ◌*◌, ◌≡◌, refl, Option, none, some, ◌∷◌, ◌++◌, or_else, Text, Bytes, codes}
use deedlit_dev.Base.Outcome.{Outcome, returned, thrown}

pub data ImageKind : Type 0 where
  thumb orig grid : ImageKind

pub record CachedImage : Type 0 where
  pub content : Bytes
  pub content_type : Text

-- A pipeline may give no results. A write that fails leaves some state behind.
pub record Redis (W : Type 0) : Type 0 where
  pub get_both : Text → Text → W → Outcome (Option (Option Bytes × Option Text))
  pub set_both : ℕ → Text → Bytes → Text → Text → W → W

abbrev pub ttl : ℕ
ttl = 7 * 24 * 60 * 60

unfoldable pub kind_text : ImageKind → Text
kind_text thumb = codes "thumb"
kind_text orig = codes "orig"
kind_text grid = codes "grid"

unfoldable pub data_key : Text → ImageKind → Text
data_key sha256 kind = codes "img:" ++ (sha256 ++ (b':' ∷ (kind_text kind ++ codes ":data")))

unfoldable pub ct_key : Text → ImageKind → Text
ct_key sha256 kind = codes "img:" ++ (sha256 ++ (b':' ∷ (kind_text kind ++ codes ":ct")))

unfoldable pub default_type : ImageKind → Text
default_type orig = codes "image/jpeg"
default_type _ = codes "image/webp"

unfoldable pub read_results :
    ImageKind → Outcome (Option (Option Bytes × Option Text)) → Option CachedImage
read_results kind (thrown e) = none
read_results kind (returned none) = none
read_results kind (returned (some (none, ct))) = none
read_results kind (returned (some (some content, ct))) =
    some (record { content = content; content_type = or_else ct (default_type kind) })

unfoldable pub get_cached_image :
    {W : Type 0} → Option (Redis W) → Text → ImageKind → W → Option CachedImage
get_cached_image none sha256 kind w = none
get_cached_image (some redis) sha256 kind w =
    read_results kind (redis.get_both (data_key sha256 kind) (ct_key sha256 kind) w)

unfoldable pub set_cached_image :
    {W : Type 0} → Option (Redis W) → Text → ImageKind → Bytes → Text → W → W
set_cached_image none sha256 kind content content_type w = w
set_cached_image (some redis) sha256 kind content content_type w =
    redis.set_both ttl (data_key sha256 kind) content (ct_key sha256 kind) content_type w

-- Where Redis answers a pair of reads with what was written last, an image that was cached is found.
pub get_cached_image-set_cached_image :
    {W : Type 0} (redis : Redis W) (sha256 : Text) (kind : ImageKind) (content : Bytes)
    (content_type : Text) (w : W)
    → ((t : ℕ) (k l : Text) (b : Bytes) (c : Text)
        → redis.get_both k l (redis.set_both t k b l c w) ≡ returned (some (some b, some c)))
    → get_cached_image
        (some redis)
        sha256
        kind
        (set_cached_image (some redis) sha256 kind content content_type w)
      ≡ some (record { content = content; content_type = content_type })
unfolding get_cached_image set_cached_image read_results
get_cached_image-set_cached_image redis sha256 kind content content_type w law =
    rw (law ttl (data_key sha256 kind) (ct_key sha256 kind) content content_type) refl
