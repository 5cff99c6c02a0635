-- ===== src/Ingest/Single.antt =====
-- `ingestSingleFile` and `reindexImage` of ingest-service.ts. Hashing, the metadata service, the
-- image repository, thumbnails and the search and graph stores are parameters: actions on a world
-- of which nothing is known.
use deedlit_dev.Base.{Bool, true, false, Option, none, some, Text}
use deedlit_dev.Base.Action.{Action, pure, attempt, ◌>>=◌}

-- A row of the image repository, as far as it is read here.
pub record Existing : Type 0 where
  pub file_path : Text
  pub thumbnail_path : Option Text

-- `R` is the record that extraction gives.
pub record Services (W R : Type 0) : Type 0 where
  pub sha256_hash : R → Text
  pub compute_sha256 : Text → Action W Text
  pub find_by_sha256 : Text → Action W (Option Text)
  pub find_by_id : Text → Action W (Option Existing)
  pub extract_image_metadata : Text → Action W R
  pub generate_thumbnail : Text → Text → Action W Text
  pub persist_image : R → Option Text → Action W Text
  pub upsert_image_vector : Text → Action W Unit
  pub sync_image_to_graph : Text → Action W Unit
  pub enrich_image_metadata : Text → Action W Unit

pub record IngestRequest : Type 0 where
  pub folder_path : Text
  pub recursive : Bool
  pub generate_thumbnails : Bool
  pub index_qdrant : Bool
  pub sync_neo4j : Bool
  pub run_external_enrichment : Bool

pub record ReindexRequest : Type 0 where
  pub image_id : Text
  pub refresh_metadata : Bool
  pub refresh_qdrant : Bool
  pub refresh_graph : Bool
  pub run_external_enrichment : Bool

pub record Ingested : Type 0 where
  pub image_id : Text
  pub skipped : Bool

-- `if (b) await m.catch(…)`.
unfoldable pub tolerate : {W : Type 0} → Bool → Action W Unit → Action W Unit
tolerate false m = pure tt
tolerate true m = attempt m (λ e. pure tt)

module _ {W R : Type 0} (svc : Services W R) where
  -- The thumbnail's path, or `fallback` where it cannot be made.
  unfoldable pub thumbnail_or : Option Text → Text → Text → Action W (Option Text)
  thumbnail_or fallback path hash =
      attempt (svc.generate_thumbnail path hash >>= λ t. pure (some t)) (λ e. pure fallback)

  unfoldable pub thumbnail_if : Bool → Text → Text → Action W (Option Text)
  thumbnail_if false path hash = pure none
  thumbnail_if true path hash = thumbnail_or none path hash

  -- The calls behind `persistImage`.
  unfoldable pub project : Bool → Bool → Bool → Text → Action W Unit
  project qdrant graph enrich id = tolerate qdrant (svc.upsert_image_vector id) >>= λ _.
      tolerate graph (svc.sync_image_to_graph id) >>= λ _.
      tolerate enrich (svc.enrich_image_metadata id)

  unfoldable pub ingest_new : Text → IngestRequest → Action W Ingested
  ingest_new path req = svc.extract_image_metadata path >>= λ found.
      thumbnail_if req.generate_thumbnails path (svc.sha256_hash found) >>= λ thumbnail.
      svc.persist_image found thumbnail >>= λ id.
      project req.index_qdrant req.sync_neo4j req.run_external_enrichment id >>= λ _.
      pure (record { image_id = id; skipped = false })

  unfoldable pub ingest_unless : Option Text → Text → IngestRequest → Action W Ingested
  ingest_unless (some id) path req = pure (record { image_id = id; skipped = true })
  ingest_unless none path req = ingest_new path req

  unfoldable pub ingest_single_file : Text → IngestRequest → Action W Ingested
  ingest_single_file path req = svc.compute_sha256 path >>= λ sha.
      svc.find_by_sha256 sha >>= λ existing. ingest_unless existing path req

  unfoldable pub refresh : Bool → Existing → Action W Unit
  refresh false existing = pure tt
  refresh true existing = svc.extract_image_metadata existing.file_path >>= λ found.
      thumbnail_or existing.thumbnail_path existing.file_path (svc.sha256_hash found)
      >>= λ thumbnail. svc.persist_image found thumbnail >>= λ _. pure tt

  unfoldable pub reindex_found : Option Existing → ReindexRequest → Action W (Option Text)
  reindex_found none req = pure none
  reindex_found (some existing) req = refresh req.refresh_metadata existing >>= λ _.
      project req.refresh_qdrant req.refresh_graph req.run_external_enrichment req.image_id >>= λ _.
      pure (some req.image_id)

  unfoldable pub reindex_image : ReindexRequest → Action W (Option Text)
  reindex_image req = svc.find_by_id req.image_id >>= λ existing. reindex_found existing req
