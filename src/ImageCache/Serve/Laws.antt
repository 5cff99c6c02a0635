-- ===== src/ImageCache/Serve/Laws.antt =====
-- An image that was served once is served from the cache.
use deedlit_dev.Base.{ℕ, ◌≡◌, Option, some, Text, Bytes}
use deedlit_dev.Base.Outcome.{Outcome, returned}
use deedlit_dev.ImageCache.{ImageKind, Redis, get_cached_image}
use deedlit_dev.ImageCache.Serve.{Answer, served, etag_of, Env, Fill}

-- Redis answers a pair of reads with what was written last.
abbrev pub Remembers : {W : Type 0} → Redis W → Type 0
Remembers {W} redis =
    (t : ℕ) (k l : Text) (b : Bytes) (c : Text) (w : W)
    → redis.get_both k l (redis.set_both t k b l c w) ≡ returned (some (some b, some c))

module _ {W : Type 0} (env : Env W) (redis : Redis W) (on : env.redis ≡ some redis)
    (remembers : Remembers redis) where
  -- The state has the image that is served.
  abbrev pub IsKept : Text → ImageKind → Answer → W → Type 0
  IsKept image_id kind (served etag content_type content) w =
      (etag ≡ etag_of image_id kind)
      × (get_cached_image env.redis image_id kind w
          ≡ some (record { content = content; content_type = content_type }))
  IsKept image_id kind _ w = Unit {0}

  abbrev Keeping : Text → ImageKind → Answer × W → Type 0
  Keeping image_id kind r = IsKept image_id kind r.0 r.1

  -- A way to fill that keeps what it serves.
  abbrev Fills : Text → ImageKind → Fill env → Type 0
  Fills image_id kind fill =
      (content : Bytes) (ct : Option Text) (w : W) → Keeping image_id kind (fill content ct w)
