-- ===== src/Ingest/Run.antt =====
-- `walk`, `runIngestionJob` and `startIngestion` of ingest-service.ts. A directory is a tree of what
-- `readdir` gives, and stays as it is while it is walked.
use deedlit_dev.Base.{
  ◌+◌, ◌%◌, Bool, true, false, Option, none, some, List, [], ◌∷◌, ◌++◌, ◌==◌, if◌then◌else◌, Text,
  codes, has, to_lower, extname,
}
use deedlit_dev.Base.Outcome.{Outcome, returned, thrown}
use deedlit_dev.Base.Action.{Action, pure, throw, continue, attempt, ◌>>=◌}
use deedlit_dev.Ingest.Jobs.{
  State, Database, Counters, FileStatus, indexed, skipped, file_failed, update_job, record_file,
  create_ingestion_job, set_counters, complete, fail, keep_tables,
}
use deedlit_dev.Ingest.Single.{Services, IngestRequest, Ingested, ingest_single_file}

abbrev pub supported_extensions : List Text
supported_extensions = codes ".png" ∷ codes ".webp" ∷ codes ".jpg" ∷ codes ".jpeg" ∷ []

mutual
  pub data Directory : Type 0 where
    unreadable : Directory
    readable : Entries → Directory

  pub data Entries : Type 0 where
    no_more : Entries
    folder : Text → Directory → Entries → Entries
    entry : Text → Entries → Entries

-- `join_path` is `path.join`.
unfoldable mutual
  pub walk : (Text → Text → Text) → Bool → Text → Directory → List Text
  walk join_path recursive dir unreadable = []
  walk join_path recursive dir (readable entries) = walk_entries join_path recursive dir entries

  pub walk_entries : (Text → Text → Text) → Bool → Text → Entries → List Text
  walk_entries join_path recursive dir no_more = []
  walk_entries join_path recursive dir (folder name sub entries) =
      (if recursive then walk join_path recursive (join_path dir name) sub else [])
      ++ walk_entries join_path recursive dir entries
  walk_entries join_path recursive dir (entry name entries) =
      let rest = walk_entries join_path recursive dir entries in
      if has (to_lower (extname name)) supported_extensions then join_path dir name ∷ rest else rest

unfoldable pub on_world : {W A : Type 0} → Action W A → Action (State W) A
on_world m s = keep_tables s (m s.world)

abbrev pub initial_counters : Counters
initial_counters = record { total = 0; processed = 0; failures = 0 }

-- What `stat(folderPath)` says: `none` where it fails or names no directory.
abbrev pub Folder : Type 0
Folder = Option Directory

abbrev pub not_a_directory : Text → Text
not_a_directory path = codes "folder_path is not a directory: " ++ path

abbrev pub file_status : Bool → FileStatus
file_status true = skipped
file_status false = indexed

module _ {W R : Type 0} (db : Database W) (svc : Services W R) where
  -- The `catch` behind one file.
  unfoldable pub file_fails : Text → Counters → Text → Text → Action (State W) Counters
  file_fails job_id c path message =
      record_file db (record {
        job_id = job_id;
        file_path = path;
        status = file_failed;
        error = some message;
        image_id = none;
      })
      >>= λ _. pure (record c { failures = c.failures + 1 })

  unfoldable pub file_done : Text → Counters → Text → Ingested → Action (State W) Counters
  file_done job_id c path result =
      record_file db (record {
        job_id = job_id;
        file_path = path;
        status = file_status result.skipped;
        error = none;
        image_id = some result.image_id;
      })
      >>= λ _. pure c

  -- `processed++` stands before the row is recorded, and is kept where that throws.
  unfoldable pub settle_file :
      Text → Counters → Text → Outcome Ingested × State W → Outcome Counters × State W
  settle_file job_id c path (thrown e, s) = file_fails job_id c path e s
  settle_file job_id c path (returned result, s) =
      let d : Counters = record c { processed = c.processed + 1 } in
      attempt (file_done job_id d path result) (file_fails job_id d path) s

  -- Every twentieth file the counters are written to the job.
  unfoldable pub report : Text → Counters → Action (State W) Counters
  report job_id c =
      if c.total % 20 == 0 then (update_job db job_id (set_counters c) >>= λ _. pure c) else pure c

  unfoldable pub ingest_file : Text → IngestRequest → Counters → Text → Action (State W) Counters
  ingest_file job_id req c path s =
      let counted : Counters = record c { total = c.total + 1 } in
      continue (report job_id)
        (settle_file job_id counted path (on_world (ingest_single_file svc path req) s))

  -- The `for await` loop.
  unfoldable pub ingest_files :
      Text → IngestRequest → Counters → List Text → Action (State W) Counters
  ingest_files job_id req c [] = pure c
  ingest_files job_id req c (path ∷ paths) =
      ingest_file job_id req c path >>= λ d. ingest_files job_id req d paths

  unfoldable pub complete_job : Text → Counters → Action (State W) Unit
  complete_job job_id c s = update_job db job_id (complete (db.now s.world) c) s

  unfoldable pub fail_job : Text → Text → Action (State W) Unit
  fail_job job_id message s = update_job db job_id (fail (db.now s.world) message) s

  -- The `try` block.
  unfoldable pub ingest_folder :
      (Text → Text → Text) → Folder → Text → IngestRequest → Action (State W) Unit
  ingest_folder join_path none job_id req = throw (not_a_directory req.folder_path)
  ingest_folder join_path (some directory) job_id req =
      ingest_files job_id req initial_counters
        (walk join_path req.recursive req.folder_path directory)
      >>= λ c. complete_job job_id c

  unfoldable pub run_ingestion_job :
      (Text → Text → Text) → Folder → Text → IngestRequest → Action (State W) Unit
  run_ingestion_job join_path found job_id req =
      attempt (ingest_folder join_path found job_id req) (fail_job job_id)

  -- The job is made, then run. `id` is the one the database makes.
  unfoldable pub start_ingestion :
      (Text → Text → Text) → Folder → Text → IngestRequest → Action (State W) Unit
  start_ingestion join_path found id req = create_ingestion_job db id req.folder_path >>= λ job_id.
      run_ingestion_job join_path found job_id req
