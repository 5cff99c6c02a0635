-- ===== src/Tests/Ingest.antt =====
-- The ingestion on a folder of three files. The world is the list of hash and id pairs of the
-- repository; the hash of a file is its path, the id of an image its hash.
use Prim.Native.Nat.{min}
use deedlit_dev.Base.{
  ◌≡◌, refl, ap, subst, inl, inr, true, false, Option, none, some, List, [], ◌∷◌, ◌++◌, map,
  if◌then◌else◌, Bool-cases, length, find, Text, codes, text_eq, text_eq_refl, has, lower_unit,
  cut_last_dot, extname,
}
use deedlit_dev.Base.Outcome.{returned, thrown}
use deedlit_dev.Base.Action.{Action, pure, throw}
use deedlit_dev.Ingest.Jobs.{
  State, Database, JobRow, JobDetail, running, completed, query, update_job, record_file, get_job,
}
use deedlit_dev.Ingest.Single.{
  Services, IngestRequest, ReindexRequest, tolerate, thumbnail_or, thumbnail_if, project,
  ingest_new, ingest_unless, ingest_single_file, reindex_image, reindex_found, refresh,
}
use deedlit_dev.Ingest.Blame.{IngestError, ingest_single_file-thrown}
use deedlit_dev.Ingest.Run.{
  Directory, readable, no_more, folder, entry, walk, run_ingestion_job, ingest_folder, complete_job,
  ingest_files, ingest_file, report, settle_file, file_done, file_fails, on_world,
}
use deedlit_dev.Ingest.Account.{IsUp}
use deedlit_dev.Ingest.Complete.{IsCompleted, run_ingestion_job_completes}
use deedlit_dev.Ingest.Follow.{get_job-run_ingestion_job}
use deedlit_dev.Ingest.Again.{Catalogue, ingest_single_file_again}

abbrev World : Type 0
World = List (Text × Text)

abbrev lookup : Text → World → Option Text
lookup hash [] = none
lookup hash ((h, id) ∷ rows) = if text_eq h hash then some id else lookup hash rows

abbrev db : Database World
db = record { connect = pure tt; now = length }

-- Extraction fails for one file, and every thumbnail fails.
abbrev extract : Text → Action World Text
extract path = if text_eq path (codes "d/b.png") then throw (codes "corrupt") else pure path

abbrev persist : Text → Option Text → Action World Text
persist found thumbnail w = (returned found, (found, found) ∷ w)

abbrev svc : Services World Text
svc = record {
  sha256_hash = λ r. r;
  compute_sha256 = λ path. pure path;
  find_by_sha256 = λ hash w. (returned (lookup hash w), w);
  find_by_id = λ id. pure (some (record { file_path = codes "d/b.png"; thumbnail_path = none }));
  extract_image_metadata = extract;
  generate_thumbnail = λ path hash. throw (codes "no sharp");
  persist_image = persist;
  upsert_image_vector = λ id. throw (codes "no qdrant");
  sync_image_to_graph = λ id. pure tt;
  enrich_image_metadata = λ id. pure tt;
}

abbrev request : IngestRequest
request = record {
  folder_path = codes "d";
  recursive = true;
  generate_thumbnails = true;
  index_qdrant = true;
  sync_neo4j = true;
  run_external_enrichment = false;
}

abbrev slash_join : Text → Text → Text
slash_join a b = a ++ (b'/' ∷ b)

abbrev tree : Directory
tree = readable (
    entry (codes "a.png") (
      entry (codes "b.png") (
        entry (codes "notes.txt")
          (folder (codes "e") (readable (entry (codes "c.JPG") no_more)) no_more))))

abbrev job : JobRow
job = record {
  id = codes "j";
  folder_path = codes "d";
  status = running;
  counters = record { total = 0; processed = 0; failures = 0 };
  error_message = none;
  started_at = some 0;
  finished_at = none;
  created_at = 0;
}

abbrev start : State World
start = record { world = []; jobs = job ∷ []; files = [] }

db-IsUp : IsUp db
db-IsUp w = refl

walks :
    walk slash_join true (codes "d") tree
    ≡ codes "d/a.png" ∷ codes "d/b.png" ∷ codes "d/e/c.JPG" ∷ []
unfolding walk has text_eq extname cut_last_dot lower_unit
walks = refl

runs_job :
    map
      (λ j. j.counters)
      (run_ingestion_job db svc slash_join (some tree) (codes "j") request start).1.jobs
    ≡ record { total = 3; processed = 2; failures = 1 } ∷ []
unfolding run_ingestion_job ingest_folder complete_job update_job query ingest_files ingest_file
    report settle_file file_done file_fails record_file on_world ingest_single_file ingest_unless
    ingest_new thumbnail_if thumbnail_or project tolerate walk has text_eq extname cut_last_dot
    lower_unit
runs_job = refl

run_ingestion_job_completes_example :
    (t : State World) × (run_ingestion_job db svc slash_join (some tree) (codes "j") request start
      ≡ (returned tt, t))
    × IsCompleted (codes "j") (walk slash_join true (codes "d") tree) start t
run_ingestion_job_completes_example =
    run_ingestion_job_completes db svc db-IsUp slash_join tree (codes "j") request start

job_found : find (λ j. text_eq j.id (codes "j")) start.jobs ≡ some job
unfolding text_eq
job_found = refl

get_job-run_ingestion_job_example :
    (t : State World) × (detail : JobDetail) × (run_ingestion_job db svc slash_join
        (some tree)
        (codes "j")
        request
        start
      ≡ (returned tt, t))
    × ((get_job db (codes "j") t).0 ≡ returned (some detail))
    × (detail.job.status ≡ completed)
    × (length detail.failed ≡ min 200 detail.job.counters.failures)
get_job-run_ingestion_job_example =
    get_job-run_ingestion_job db svc db-IsUp slash_join tree (codes "j") request start job job_found
      refl

b_fails : (ingest_single_file svc (codes "d/b.png") request []).0 ≡ thrown (codes "corrupt")
unfolding ingest_single_file ingest_unless ingest_new text_eq
b_fails = refl

ingest_single_file-thrown_example : IngestError svc (codes "d/b.png") (codes "corrupt")
ingest_single_file-thrown_example =
    ingest_single_file-thrown svc (codes "d/b.png") request [] (codes "corrupt") b_fails

abbrev again : ReindexRequest
again = record {
  image_id = codes "i";
  refresh_metadata = true;
  refresh_qdrant = true;
  refresh_graph = false;
  run_external_enrichment = false;
}

reindex_fails : (reindex_image svc again []).0 ≡ thrown (codes "corrupt")
unfolding reindex_image reindex_found refresh text_eq
reindex_fails = refl

-- The database refuses its first call.
abbrev shaky : Database World
shaky = record {
  connect = λ w. elim w [
    | [] ↦ (thrown (codes "down"), (codes "x", codes "x") ∷ [])
    | r ∷ w ↦ (returned tt, r ∷ w)
  ];
  now = length;
}

extract_keeps :
    (path : Text) (w v : World) (found : Text) → extract path w ≡ (returned found, v) → found ≡ path
extract_keeps path w v found h = elim (Bool-cases (text_eq path (codes "d/b.png"))) [
  | inl y ↦ cc (ap (λ x. x.0) (rw y at h))
  | inr n ↦ cc (ap (λ x. x.0) (rw n at h))
]

persist_finds :
    (found : Text) (thumbnail : Option Text) (w v : World) (id : Text)
    → persist found thumbnail w ≡ (returned id, v)
    → lookup found v ≡ some id
persist_finds found thumbnail w v id h =
    let same : found ≡ id = cc (ap (λ x. x.0) h) in
    let there : (found, found) ∷ w ≡ v = ap (λ x. x.1) h in
    subst (λ u. lookup found u ≡ some id) there (rw (text_eq_refl found) (ap some same))

abbrev catalogue : Catalogue svc
catalogue = record {
  known = lookup;
  digest = λ path. path;
  hashes = λ path w. refl;
  finds = λ hash w. refl;
  extracted = extract_keeps;
  persisted = persist_finds;
  vector_keeps = λ hash id w. refl;
  graph_keeps = λ hash id w. refl;
  enrichment_keeps = λ hash id w. refl;
}

a_ingested : ingest_single_file svc (codes "d/a.png") request [] ≡ (
  returned (record { image_id = codes "d/a.png"; skipped = false }),
  (codes "d/a.png", codes "d/a.png") ∷ [],
)
unfolding ingest_single_file ingest_unless ingest_new thumbnail_if thumbnail_or project tolerate
    text_eq
a_ingested = refl

ingest_single_file_again_example :
    ingest_single_file svc (codes "d/a.png") request ((codes "d/a.png", codes "d/a.png") ∷ []) ≡ (
      returned (record { image_id = codes "d/a.png"; skipped = true }),
      (codes "d/a.png", codes "d/a.png") ∷ [],
    )
ingest_single_file_again_example =
    ingest_single_file_again svc catalogue (codes "d/a.png") request request []
      ((codes "d/a.png", codes "d/a.png") ∷ [])
      (record { image_id = codes "d/a.png"; skipped = false }) a_ingested
