-- ===== src/Ingest/Follow.antt =====
-- What the jobs service says of a job that was run.
use Prim.Native.Nat.{min}
use deedlit_dev.Base.{
  ℕ, ◌+◌, ◌≡◌, refl, sym, ap, ◌∙◌, inl, inr, Bool, ◌&&◌, Option, none, some, List, [], ◌∷◌, ◌++◌,
  map, arith, if◌then◌else◌, Bool-cases, length, take, filter, find, length-take, filter-append,
  length-map, Text, text_eq, text_eq_refl,
}
use deedlit_dev.Base.Outcome.{returned, thrown}
use deedlit_dev.Ingest.Jobs.{
  State, Database, Counters, JobRow, FileRow, completed, cancelled, is_open, is_file_failed,
  record_file, file_failed, find_job, failed_files, get_job, JobDetail, complete, on_id,
}
use deedlit_dev.Ingest.Single.{Services, IngestRequest, Ingested}
use deedlit_dev.Ingest.Run.{Directory, walk, run_ingestion_job, settle_file, file_done, file_fails}
use deedlit_dev.Ingest.Account.{IsUp, failed_rows, reached}
use deedlit_dev.Ingest.Complete.{run_ingestion_job_completes}

abbrev has_id : Text → JobRow → Bool
has_id id j = text_eq j.id id

abbrev cancel_row : ℕ → JobRow → JobRow
cancel_row now j =
    if is_open j.status then record j { status = cancelled; finished_at = some now } else j

find-complete :
    (id : Text) (now : ℕ) (c : Counters) (jobs : List JobRow) (j : JobRow)
    → find (has_id id) jobs ≡ some j
    → find (has_id id) (map (on_id id (complete now c)) jobs) ≡ some (complete now c j)
find-complete id now c [] j h = cc
find-complete id now c (i ∷ is) j h = elim (Bool-cases (text_eq i.id id)) [
  | inl y ↦ ground arith
  | inr n ↦ ground (arith, find-complete id now c is j)
]

own_failures :
    (id : Text) (rows : List FileRow) (paths : List Text)
    → map (λ r. r.job_id) rows ≡ map (λ p. id) paths
    → filter (λ r. text_eq r.job_id id && is_file_failed r.status) rows ≡ failed_rows rows
own_failures id [] paths h = refl
own_failures id (r ∷ rows) [] h = cc
own_failures id (r ∷ rows) (p ∷ paths) h =
    let here : r.job_id ≡ id = cc in
    let rest = own_failures id rows paths (cc) in rw (here, text_eq_refl id, rest) refl

module _ {W R : Type 0} (db : Database W) (svc : Services W R) (up : IsUp db) where
  find_job_up :
      (id : Text) (s : State W)
      → find_job db id s ≡ (returned (find (has_id id) s.jobs), reached db s)
  unfolding find_job
  find_job_up id s = rw (up s.world) refl

  abbrev failures_of : Text → List FileRow → List (Text × Option Text)
  failures_of id files =
      map (λ r. (r.file_path, r.error))
        (take 200 (filter (λ r. text_eq r.job_id id && is_file_failed r.status) files))

  failed_files_up :
      (id : Text) (s : State W)
      → failed_files db id s ≡ (returned (failures_of id s.files), reached db s)
  unfolding failed_files
  failed_files_up id s = rw (up s.world) refl

  get_job_up :
      (id : Text) (j : JobRow) (s : State W)
      → find (has_id id) s.jobs ≡ some j
      → get_job db id s ≡ (
        returned (some (record { job = j; failed = failures_of id s.files })),
        reached db (reached db s),
      )
  unfolding get_job
  get_job_up id j s h = rw (find_job_up id s, h, failed_files_up id (reached db s)) refl

  failures_length :
      (id : Text) (before rows : List FileRow) (paths : List Text)
      → filter (λ r. text_eq r.job_id id && is_file_failed r.status) before ≡ []
      → map (λ r. r.job_id) rows ≡ map (λ p. id) paths
      → length (failures_of id (before ++ rows)) ≡ min 200 (length (failed_rows rows))
  failures_length id before rows paths none_before ids =
      let e : filter (λ r. text_eq r.job_id id && is_file_failed r.status) (before ++ rows)
          ≡ failed_rows rows =
        filter-append (λ r. text_eq r.job_id id && is_file_failed r.status) before rows
        ∙ cc (none_before, own_failures id rows paths ids) in
      length-map (λ r. (r.file_path, r.error))
        (take 200 (filter (λ r. text_eq r.job_id id && is_file_failed r.status) (before ++ rows)))
      ∙ ap (λ x. length (take 200 x)) e
      ∙ length-take 200 (failed_rows rows)

  -- After a run of a job that is in the table and has no failed file on record, the jobs service
  -- finds it completed, with as many failed files as its counter says, or the first 200 of them.
  pub get_job-run_ingestion_job :
      (join_path : Text → Text → Text) (directory : Directory) (id : Text) (req : IngestRequest)
      (s : State W) (j : JobRow)
      → find (has_id id) s.jobs ≡ some j
      → filter (λ r. text_eq r.job_id id && is_file_failed r.status) s.files ≡ []
      → (t : State W) × (detail : JobDetail) × (run_ingestion_job db svc join_path
            (some directory)
            id
            req
            s
          ≡ (returned tt, t))
        × ((get_job db id t).0 ≡ returned (some detail))
        × (detail.job.status ≡ completed)
        × (length detail.failed ≡ min 200 detail.job.counters.failures)
  get_job-run_ingestion_job join_path directory id req s j found none_before =
      let (t, e, d) = run_ingestion_job_completes db svc up join_path directory id req s in
      (
        t,
        record { job = complete d.now d.counters j; failed = failures_of id t.files },
        e,
        ap (λ u. u.0)
            (get_job_up id (complete d.now d.counters j) t
              (rw d.jobs (find-complete id d.now d.counters s.jobs j found))),
        refl,
        ap (λ f. length (failures_of id f)) d.files
            ∙ failures_length id s.files d.rows
                (walk join_path req.recursive req.folder_path directory) none_before d.row_jobs
            ∙ ap (min 200) (sym d.failures),
      )

module _ {W R : Type 0} (db : Database W) (svc : Services W R) where
  -- A file that was ingested, but whose row the database refused to take, is recorded as failed and
  -- counted both as processed and as failed.
  pub settle_file_counts_twice :
      (id path message : Text) (c : Counters) (result : Ingested) (s : State W) (w : W)
      → db.connect s.world ≡ (thrown message, w)
      → (db.connect w).0 ≡ returned tt
      → (d : Counters) × (t : State W) × (settle_file db svc id c path (returned result, s)
          ≡ (returned d, t))
        × (d.processed ≡ c.processed + 1)
        × (d.failures ≡ c.failures + 1)
  unfolding settle_file file_done file_fails record_file
  settle_file_counts_twice id path message c result s w down again =
      let d : Counters = record c { processed = c.processed + 1; failures = c.failures + 1 } in
      let row : FileRow = record {
        job_id = id;
        file_path = path;
        status = file_failed;
        error = some message;
        image_id = none;
      } in
      let t : State W = record s { world = (db.connect w).1; files = s.files ++ row ∷ [] } in
      (d, t, rw (down, again) refl, refl, refl)
