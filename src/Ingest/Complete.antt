-- ===== src/Ingest/Complete.antt =====
-- A whole run of an ingestion job.
use deedlit_dev.Base.{
  ℕ, ◌≡◌, refl, sym, ap, ◌∙◌, not, none, some, List, [], ◌∷◌, ◌++◌, map, append_assoc, append-nil,
  arith, length, length-append, filter-append, length-map, Text, text_eq, if◌then◌else◌,
}
use mathlib.Core.List.{map-append}
use deedlit_dev.Base.Outcome.{returned}
use deedlit_dev.Ingest.Jobs.{
  State, Database, Counters, JobRow, FileRow, completed, is_file_failed, update_job, complete, fail,
  on_id,
}
use deedlit_dev.Ingest.Single.{Services, IngestRequest}
use deedlit_dev.Ingest.Run.{
  Directory, walk, not_a_directory, initial_counters, ingest_files, complete_job, fail_job,
  ingest_folder, run_ingestion_job,
}
use deedlit_dev.Ingest.Account.{
  IsUp, failed_rows, done_rows, reached, Accounts, query_up, ingest_file_up,
}

-- The row of a job that has ended completed at `now` with those counters.
abbrev pub completed_row : ℕ → Counters → JobRow → JobRow
completed_row now c j = record {
  id = j.id;
  folder_path = j.folder_path;
  status = completed;
  counters = c;
  error_message = j.error_message;
  started_at = j.started_at;
  finished_at = some now;
  created_at = j.created_at;
}

-- From `s` to `t` the job `id` was completed over these files: its row has status completed and the
-- numbers of files, of rows that are not failed and of failed rows as counters, other jobs keep
-- their rows, and the files table gains one row of the job for each file, in order.
pub record IsCompleted {W : Type 0} (id : Text) (paths : List Text) (s t : State W) : Type 0 where
  pub counters : Counters
  pub now : ℕ
  pub rows : List FileRow
  pub jobs : t.jobs ≡ map (λ j. if text_eq j.id id then completed_row now counters j else j) s.jobs
  pub files : t.files ≡ s.files ++ rows
  pub row_paths : map (λ r. r.file_path) rows ≡ paths
  pub row_jobs : map (λ r. r.job_id) rows ≡ map (λ p. id) paths
  pub total : counters.total ≡ length rows
  pub processed : counters.processed ≡ length (done_rows rows)
  pub failures : counters.failures ≡ length (failed_rows rows)

module _ {W R : Type 0} (db : Database W) (svc : Services W R) (up : IsUp db) where
  Accounts-append :
      (id path : Text) (paths : List Text) (c d e : Counters) (s t u : State W)
      → Accounts id (path ∷ []) c d s t
      → Accounts id paths d e t u
      → Accounts id (path ∷ paths) c e s u
  Accounts-append id path paths c d e s t u a b = record {
    rows = a.rows ++ b.rows;
    added = b.added ∙ ap (λ x. x ++ b.rows) a.added ∙ append_assoc s.files a.rows b.rows;
    row_paths = cc (map-append (λ r. r.file_path) a.rows b.rows, a.row_paths, b.row_paths);
    row_jobs = cc (map-append (λ r. r.job_id) a.rows b.rows, a.row_jobs, b.row_jobs);
    total = omega (arith, a.total, b.total);
    processed = omega (
      arith,
      a.processed,
      b.processed,
      ap length (filter-append (λ r. not (is_file_failed r.status)) a.rows b.rows),
      length-append (done_rows a.rows) (done_rows b.rows),
    );
    failures = omega (
      arith,
      a.failures,
      b.failures,
      ap length (filter-append (λ r. is_file_failed r.status) a.rows b.rows),
      length-append (failed_rows a.rows) (failed_rows b.rows),
    );
    jobs = λ now f. b.jobs now f ∙ a.jobs now f;
  }

  ingest_files_up :
      (id : Text) (req : IngestRequest) (c : Counters) (paths : List Text) (s : State W)
      → (d : Counters) × (t : State W) × (ingest_files db svc id req c paths s ≡ (returned d, t))
        × Accounts id paths c d s t
  unfolding ingest_files
  ingest_files_up id req c [] s = (
    c,
    s,
    refl,
    record {
      rows = [];
      added = sym (append-nil s.files);
      row_paths = refl;
      row_jobs = refl;
      total = omega arith;
      processed = omega arith;
      failures = omega arith;
      jobs = λ now f. refl;
    },
  )
  ingest_files_up id req c (path ∷ paths) s =
      let (d, t, e, a) = ingest_file_up db svc up id req c path s in
      let (f, u, g, b) = ingest_files_up id req d paths t in
      (f, u, rw e g, Accounts-append id path paths c d f s t u a b)

  pub update_up :
      (id : Text) (f : JobRow → JobRow) (s : State W)
      → update_job db id f s
        ≡ (returned tt, record (reached db s) { jobs = map (on_id id f) s.jobs })
  unfolding update_job
  update_up id f s =
      query_up db svc up (λ _. tt) (λ t. record t { jobs = map (on_id id f) t.jobs }) s

  -- Where the database answers and nothing but the run writes to the tables, a job whose folder is a directory
  -- returns and ends completed, whatever the other services do and whatever status its row had before: the row has
  -- status completed, the time and the counters, which are the numbers of files, of rows that are not failed and of
  -- failed rows, its other fields and the rows of other jobs stay, and the files table gains one row of the job for
  -- each file of the walk, in order.
  pub run_ingestion_job_completes :
      (join_path : Text → Text → Text) (directory : Directory) (id : Text) (req : IngestRequest)
      (s : State W)
      → (t : State W) × (run_ingestion_job db svc join_path (some directory) id req s
          ≡ (returned tt, t))
        × IsCompleted id (walk join_path req.recursive req.folder_path directory) s t
  unfolding run_ingestion_job ingest_folder complete_job
  run_ingestion_job_completes join_path directory id req s =
      let (c, t, e, a) =
        ingest_files_up id req initial_counters
          (walk join_path req.recursive req.folder_path directory) s in
      let now = db.now t.world in
      (
        record (reached db t) { jobs = map (on_id id (complete now c)) t.jobs },
        rw (e, update_up id (complete now c) t) refl,
        record {
          counters = c;
          now = now;
          rows = a.rows;
          jobs = a.jobs now c;
          files = a.added;
          row_paths = a.row_paths;
          row_jobs = a.row_jobs;
          total =
              omega (arith, a.total, length-map (λ r. r.file_path) a.rows, ap length a.row_paths);
          processed = omega (arith, a.processed);
          failures = omega (arith, a.failures);
        },
      )

  -- Where the folder is no directory, the job ends failed with the message that says so, and no file
  -- is recorded.
  pub run_ingestion_job_fails :
      (join_path : Text → Text → Text) (id : Text) (req : IngestRequest) (s : State W)
      → run_ingestion_job db svc join_path none id req s ≡ (
        returned tt,
        record (reached db s) {
          jobs = map (on_id id (fail (db.now s.world) (not_a_directory req.folder_path))) s.jobs;
        },
      )
  unfolding run_ingestion_job ingest_folder fail_job
  run_ingestion_job_fails join_path id req s =
      update_up id (fail (db.now s.world) (not_a_directory req.folder_path)) s
