-- ===== src/Ingest/Blame.antt =====
-- Which calls an error of `ingestSingleFile` and of `reindexImage` can come from.
use deedlit_dev.Base.{◌≡◌, refl, ◌≢◌, inl, inr, Bool, true, false, Option, none, some, Text}
use deedlit_dev.Base.Outcome.{Outcome, returned, thrown}
use deedlit_dev.Base.Action.{Action, pure, rescue, ◌>>=◌, >>=-thrown}
use deedlit_dev.Ingest.Single.{
  Services, IngestRequest, ReindexRequest, Ingested, Existing, tolerate, thumbnail_or, thumbnail_if,
  project, ingest_new, ingest_unless, ingest_single_file, refresh, reindex_found, reindex_image,
}

-- The action throws `e` in some world.
abbrev pub Throws : {W A : Type 0} → Action W A → Text → Type 0
Throws {W} m e = (w : W) × ((m w).0 ≡ thrown e)

abbrev IsSafe : {W A : Type 0} → Action W A → Type 0
IsSafe {W} m = (w : W) (e : Text) → (m w).0 ≢ thrown e

pure-IsSafe : {W A : Type 0} (a : A) → IsSafe (pure {S = W} a)
pure-IsSafe a w e = λ h. cc

rescue_safe :
    {W A : Type 0} (a : A) (r : Outcome A × W) (e : Text) → (rescue (λ d. pure a) r).0 ≢ thrown e
rescue_safe a (returned b, w) e = λ h. cc
rescue_safe a (thrown d, w) e = λ h. cc

>>=-IsSafe :
    {W A B : Type 0} (m : Action W A) (f : A → Action W B)
    → IsSafe m
    → ((a : A) → IsSafe (f a))
    → IsSafe (m >>= f)
>>=-IsSafe m f v u w e h = elim (>>=-thrown m f w e h) [
  | inl x ↦ v w e x
  | inr (a, t, _, x) ↦ u a t e x
]

tolerate-IsSafe : {W : Type 0} (b : Bool) (m : Action W Unit) → IsSafe (tolerate b m)
unfolding tolerate
tolerate-IsSafe false m w e = pure-IsSafe tt w e
tolerate-IsSafe true m w e = rescue_safe tt (m w) e

module _ {W R : Type 0} (svc : Services W R) where
  thumbnail_or-IsSafe :
      (fallback : Option Text) (path hash : Text) → IsSafe (thumbnail_or svc fallback path hash)
  unfolding thumbnail_or
  thumbnail_or-IsSafe fallback path hash w e =
      rescue_safe fallback ((svc.generate_thumbnail path hash >>= λ t. pure (some t)) w) e

  thumbnail_if-IsSafe : (b : Bool) (path hash : Text) → IsSafe (thumbnail_if svc b path hash)
  unfolding thumbnail_if
  thumbnail_if-IsSafe false path hash = pure-IsSafe none
  thumbnail_if-IsSafe true path hash = thumbnail_or-IsSafe none path hash

  project-IsSafe : (q g x : Bool) (id : Text) → IsSafe (project svc q g x id)
  unfolding project
  project-IsSafe q g x id =
      >>=-IsSafe (tolerate q (svc.upsert_image_vector id))
        (λ _. tolerate g (svc.sync_image_to_graph id) >>= λ _.
          tolerate x (svc.enrich_image_metadata id))
        (tolerate-IsSafe q (svc.upsert_image_vector id))
        (λ _.
          >>=-IsSafe (tolerate g (svc.sync_image_to_graph id))
            (λ _. tolerate x (svc.enrich_image_metadata id))
            (tolerate-IsSafe g (svc.sync_image_to_graph id))
            (λ _. tolerate-IsSafe x (svc.enrich_image_metadata id)))

  -- Where the first part is safe, an error comes from the second.
  behind :
      {A B : Type 0} (m : Action W A) (f : A → Action W B) (w : W) (e : Text)
      → IsSafe m
      → ((m >>= f) w).0 ≡ thrown e
      → (a : A) × Throws (f a) e
  behind m f w e v h = elim (>>=-thrown m f w e h) [
    | inl x ↦ absurd (v w e x)
    | inr (a, t, _, x) ↦ (a, (t, x))
  ]

  -- Where every continuation is safe, an error comes from the first part.
  before :
      {A B : Type 0} (m : Action W A) (f : A → Action W B) (w : W) (e : Text)
      → ((a : A) → IsSafe (f a))
      → ((m >>= f) w).0 ≡ thrown e
      → Throws m e
  before m f w e v h = elim (>>=-thrown m f w e h) [
    | inl x ↦ (w, x)
    | inr (a, t, _, x) ↦ absurd (v a t e x)
  ]

  -- The calls an error of `ingestSingleFile` may come from.
  pub data IngestError (path : Text) (e : Text) : Type 0 where
    hashing : Throws (svc.compute_sha256 path) e → IngestError path e
    lookup : (sha : Text) → Throws (svc.find_by_sha256 sha) e → IngestError path e
    extraction : Throws (svc.extract_image_metadata path) e → IngestError path e
    persisting :
        (found : R) (thumbnail : Option Text)
        → Throws (svc.persist_image found thumbnail) e
        → IngestError path e

  persist-thrown :
      {A : Type 0} (found : R) (q g x : Bool) (a : Text → A) (t : Option Text) (w : W) (e : Text)
      → ((svc.persist_image found t >>= λ id. project svc q g x id >>= λ _. pure (a id)) w).0
        ≡ thrown e
      → Throws (svc.persist_image found t) e
  persist-thrown found q g x a t w e =
      before (svc.persist_image found t) (λ id. project svc q g x id >>= λ _. pure (a id)) w e
        (λ id.
          >>=-IsSafe (project svc q g x id) (λ _. pure (a id)) (project-IsSafe q g x id)
            (λ _. pure-IsSafe (a id)))

  ingest_new-thrown :
      (path : Text) (req : IngestRequest) (w : W) (e : Text)
      → (ingest_new svc path req w).0 ≡ thrown e
      → IngestError path e
  unfolding ingest_new
  ingest_new-thrown path req w e h =
      let after : R → Action W Ingested = λ found.
        thumbnail_if svc req.generate_thumbnails path (svc.sha256_hash found) >>= λ thumbnail.
        svc.persist_image found thumbnail >>= λ id.
        project svc req.index_qdrant req.sync_neo4j req.run_external_enrichment id >>= λ _.
        pure (record { image_id = id; skipped = false }) in
      elim (>>=-thrown (svc.extract_image_metadata path) after w e h) [
        | inl x ↦ extraction (w, x)
        | inr (found, t, _, x) ↦
            let (thumbnail, (u, y)) =
              behind (thumbnail_if svc req.generate_thumbnails path (svc.sha256_hash found)) _ t e
                (thumbnail_if-IsSafe req.generate_thumbnails path (svc.sha256_hash found)) x in
            persisting found thumbnail (
              persist-thrown found req.index_qdrant req.sync_neo4j req.run_external_enrichment
                (λ id. record { image_id = id; skipped = false }) thumbnail u e y)
      ]

  unless_thrown :
      (path : Text) (req : IngestRequest) (existing : Option Text) (w : W) (e : Text)
      → (ingest_unless svc existing path req w).0 ≡ thrown e
      → IngestError path e
  unfolding ingest_unless
  unless_thrown path req (some id) w e h = absurd (pure-IsSafe _ w e h)
  unless_thrown path req none w e h = ingest_new-thrown path req w e h

  -- Where ingesting a file throws, hashing it, looking the hash up, extracting its metadata or
  -- persisting the image threw that error: a failing thumbnail, vector, graph or enrichment call
  -- fails no file.
  pub ingest_single_file-thrown :
      (path : Text) (req : IngestRequest) (w : W) (e : Text)
      → (ingest_single_file svc path req w).0 ≡ thrown e
      → IngestError path e
  unfolding ingest_single_file
  ingest_single_file-thrown path req w e h =
      elim (>>=-thrown (svc.compute_sha256 path)
        (λ sha. svc.find_by_sha256 sha >>= λ existing. ingest_unless svc existing path req) w e h) [
          | inl x ↦ hashing (w, x)
          | inr (sha, t, _, x) ↦
              elim (>>=-thrown (svc.find_by_sha256 sha)
                (λ existing. ingest_unless svc existing path req) t e x) [
                  | inl y ↦ lookup sha (t, y)
                  | inr (existing, u, _, y) ↦ unless_thrown path req existing u e y
                ]
        ]

  -- The calls an error of `reindexImage` may come from.
  pub data ReindexError (req : ReindexRequest) (e : Text) : Type 0 where
    reading : Throws (svc.find_by_id req.image_id) e → ReindexError req e
    extraction_again :
        (path : Text)
        → req.refresh_metadata ≡ true
        → Throws (svc.extract_image_metadata path) e
        → ReindexError req e
    persisting_again :
        (found : R) (thumbnail : Option Text)
        → req.refresh_metadata ≡ true
        → Throws (svc.persist_image found thumbnail) e
        → ReindexError req e

  refresh-thrown :
      (b : Bool) (req : ReindexRequest) (existing : Existing) (w : W) (e : Text)
      → req.refresh_metadata ≡ b
      → (refresh svc b existing w).0 ≡ thrown e
      → ReindexError req e
  unfolding refresh
  refresh-thrown false req existing w e b h = absurd (pure-IsSafe tt w e h)
  refresh-thrown true req existing w e b h =
      let after : R → Action W Unit = λ found.
        thumbnail_or svc existing.thumbnail_path existing.file_path (svc.sha256_hash found)
        >>= λ thumbnail. svc.persist_image found thumbnail >>= λ _. pure tt in
      elim (>>=-thrown (svc.extract_image_metadata existing.file_path) after w e h) [
        | inl x ↦ extraction_again existing.file_path b (w, x)
        | inr (found, t, _, x) ↦
            let (thumbnail, (u, y)) =
              behind
                (thumbnail_or svc existing.thumbnail_path existing.file_path
                  (svc.sha256_hash found))
                _ t e
                (thumbnail_or-IsSafe existing.thumbnail_path existing.file_path
                  (svc.sha256_hash found))
                x in
            persisting_again found thumbnail b (
              before (svc.persist_image found thumbnail) (λ _. pure tt) u e (λ _. pure-IsSafe tt) y)
      ]

  found_thrown :
      (existing : Option Existing) (req : ReindexRequest) (w : W) (e : Text)
      → (reindex_found svc existing req w).0 ≡ thrown e
      → ReindexError req e
  unfolding reindex_found
  found_thrown none req w e h = absurd (pure-IsSafe none w e h)
  found_thrown (some existing) req w e h =
      let (u, x) =
        before (refresh svc req.refresh_metadata existing) _ w e
          (λ _.
            >>=-IsSafe
              (project svc req.refresh_qdrant req.refresh_graph req.run_external_enrichment
                req.image_id)
              (λ _. pure (some req.image_id))
              (project-IsSafe req.refresh_qdrant req.refresh_graph req.run_external_enrichment
                req.image_id)
              (λ _. pure-IsSafe (some req.image_id)))
          h in
      refresh-thrown req.refresh_metadata req existing u e refl x

  -- Where reindexing throws, reading the image's row threw that error, or the metadata were to be
  -- refreshed and extracting or persisting them threw it.
  pub reindex_image-thrown :
      (req : ReindexRequest) (w : W) (e : Text)
      → (reindex_image svc req w).0 ≡ thrown e
      → ReindexError req e
  unfolding reindex_image
  reindex_image-thrown req w e h =
      elim (>>=-thrown (svc.find_by_id req.image_id) (λ existing. reindex_found svc existing req) w
        e h) [ inl x ↦ reading (w, x) | inr (existing, t, _, x) ↦ found_thrown existing req t e x ]
