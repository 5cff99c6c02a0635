-- ===== src/Ingest/Again.antt =====
-- Ingesting a file again, against what the image repository and the hash promise.
use deedlit_dev.Base.{◌≡◌, refl, sym, ap, ◌∙◌, Bool, true, false, Option, none, some, Text}
use deedlit_dev.Base.Outcome.{Outcome, returned, thrown}
use deedlit_dev.Base.Action.{Action, pure, continue, rescue, ◌>>=◌, >>=-returned}
use deedlit_dev.Ingest.Single.{
  Services, IngestRequest, Ingested, tolerate, thumbnail_if, project, ingest_new, ingest_unless,
  ingest_single_file,
}

-- `known h w` is the image that the repository has for a hash, `digest` the hash of the file at a
-- path while the file stays as it is. Hashing and looking up change nothing; a persisted image is
-- found by its hash afterwards; the other stores leave the repository alone.
pub record Catalogue {W R : Type 0} (svc : Services W R) : Type 0 where
  pub known : Text → W → Option Text
  pub digest : Text → Text
  pub hashes : (path : Text) (w : W) → svc.compute_sha256 path w ≡ (returned (digest path), w)
  pub finds : (hash : Text) (w : W) → svc.find_by_sha256 hash w ≡ (returned (known hash w), w)
  pub extracted :
      (path : Text) (w v : W) (found : R)
      → svc.extract_image_metadata path w ≡ (returned found, v)
      → svc.sha256_hash found ≡ digest path
  pub persisted :
      (found : R) (thumbnail : Option Text) (w v : W) (id : Text)
      → svc.persist_image found thumbnail w ≡ (returned id, v)
      → known (svc.sha256_hash found) v ≡ some id
  pub vector_keeps :
      (hash id : Text) (w : W) → known hash (svc.upsert_image_vector id w).1 ≡ known hash w
  pub graph_keeps :
      (hash id : Text) (w : W) → known hash (svc.sync_image_to_graph id w).1 ≡ known hash w
  pub enrichment_keeps :
      (hash id : Text) (w : W) → known hash (svc.enrich_image_metadata id w).1 ≡ known hash w

module _ {W R : Type 0} (svc : Services W R) (cat : Catalogue svc) where
  abbrev Keeps : {A : Type 0} → Text → Action W A → Type 0
  Keeps hash m = (w : W) → cat.known hash (m w).1 ≡ cat.known hash w

  continue-Keeps :
      {A B : Type 0} (hash : Text) (f : A → Action W B) (r : Outcome A × W)
      → ((a : A) → Keeps hash (f a))
      → cat.known hash (continue f r).1 ≡ cat.known hash r.1
  continue-Keeps hash f (returned a, w) h = h a w
  continue-Keeps hash f (thrown e, w) h = refl

  rescue-Keeps :
      (hash : Text) (r : Outcome Unit × W)
      → cat.known hash (rescue (λ e. pure tt) r).1 ≡ cat.known hash r.1
  rescue-Keeps hash (returned a, w) = refl
  rescue-Keeps hash (thrown e, w) = refl

  tolerate-Keeps :
      (hash : Text) (b : Bool) (m : Action W Unit) → Keeps hash m → Keeps hash (tolerate b m)
  unfolding tolerate
  tolerate-Keeps hash false m h w = refl
  tolerate-Keeps hash true m h w = rescue-Keeps hash (m w) ∙ h w

  project-Keeps : (hash id : Text) (q g x : Bool) → Keeps hash (project svc q g x id)
  unfolding project
  project-Keeps hash id q g x w =
      let vector = tolerate q (svc.upsert_image_vector id) in
      let graph = tolerate g (svc.sync_image_to_graph id) in
      let enrich = tolerate x (svc.enrich_image_metadata id) in
      continue-Keeps hash (λ _. graph >>= λ _. enrich) (vector w)
        (λ _ v.
          continue-Keeps hash (λ _. enrich) (graph v)
            (λ _.
              tolerate-Keeps hash x (svc.enrich_image_metadata id) (cat.enrichment_keeps hash id))
          ∙ tolerate-Keeps hash g (svc.sync_image_to_graph id) (cat.graph_keeps hash id) v)
      ∙ tolerate-Keeps hash q (svc.upsert_image_vector id) (cat.vector_keeps hash id) w

  lookup_first :
      (path : Text) (req : IngestRequest) (w : W)
      → ingest_single_file svc path req w
        ≡ ingest_unless svc (cat.known (cat.digest path) w) path req w
  unfolding ingest_single_file
  lookup_first path req w = rw (cat.hashes path w, cat.finds (cat.digest path) w) refl

  new_known :
      (path : Text) (req : IngestRequest) (w v : W) (r : Ingested)
      → ingest_new svc path req w ≡ (returned r, v)
      → cat.known (cat.digest path) v ≡ some r.image_id
  unfolding ingest_new
  new_known path req w v r h =
      let (found, w1, e1, h1) = >>=-returned (svc.extract_image_metadata path) _ w r v h in
      let (thumbnail, w2, e2, h2) =
        >>=-returned (thumbnail_if svc req.generate_thumbnails path (svc.sha256_hash found)) _ w1 r
          v h1 in
      let (id, w3, e3, h3) = >>=-returned (svc.persist_image found thumbnail) _ w2 r v h2 in
      let (u, w4, e4, h4) =
        >>=-returned (project svc req.index_qdrant req.sync_neo4j req.run_external_enrichment id) _
          w3 r v h3 in
      let same : id ≡ r.image_id = cc (ap (λ x. x.0) h4) in
      let there : w4 ≡ v = ap (λ x. x.1) h4 in
      let before : cat.known (cat.digest path) w3 ≡ some id =
        ap (λ k. cat.known k w3) (sym (cat.extracted path w w1 found e1))
        ∙ cat.persisted found thumbnail w2 w3 id e3 in
      let after : cat.known (cat.digest path) w4 ≡ cat.known (cat.digest path) w3 =
        ap (λ x. cat.known (cat.digest path) x.1) (sym e4)
        ∙ project-Keeps (cat.digest path) id req.index_qdrant req.sync_neo4j
            req.run_external_enrichment w3 in
      cc

  unless_known :
      (o : Option Text) (path : Text) (req : IngestRequest) (w v : W) (r : Ingested)
      → cat.known (cat.digest path) w ≡ o
      → ingest_unless svc o path req w ≡ (returned r, v)
      → cat.known (cat.digest path) v ≡ some r.image_id
  unfolding ingest_unless
  unless_known none path req w v r k h = new_known path req w v r h
  unless_known (some id) path req w v r k h =
      let same : id ≡ r.image_id = cc (ap (λ x. x.0) h) in let there : w ≡ v = ap (λ x. x.1) h in cc

  -- Against a repository that finds what was persisted, a file that was ingested is skipped the next
  -- time, with the same image id, whatever the two requests ask for, and nothing changes.
  pub ingest_single_file_again :
      (path : Text) (req later : IngestRequest) (w v : W) (r : Ingested)
      → ingest_single_file svc path req w ≡ (returned r, v)
      → ingest_single_file svc path later v
        ≡ (returned (record { image_id = r.image_id; skipped = true }), v)
  ingest_single_file_again path req later w v r h =
      let k =
        unless_known (cat.known (cat.digest path) w) path req w v r refl
          (sym (lookup_first path req w) ∙ h) in
      lookup_first path later v ∙ (unfold ingest_unless in rw k refl)
