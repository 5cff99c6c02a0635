-- ===== src/Ingest/Jobs.antt =====
-- The tables `ingestion_jobs` and `ingestion_job_files`, and the queries that ingest-service.ts and
-- jobs-service.ts run on them. A time is a number; `now` is that of the query.
use deedlit_dev.Base.{
  ℕ, Bool, true, false, ◌&&◌, Option, none, some, List, [], ◌∷◌, ◌++◌, map, ltb, if◌then◌else◌,
  take, filter, any, find, Text, text_eq,
}
use deedlit_dev.Base.Outcome.{Outcome, returned}
use deedlit_dev.Base.Action.{Action, pure, continue, ◌>>=◌}
use deedlit_dev.Gallery.Sort.{sort}

pub data Status : Type 0 where
  pending : Status
  running : Status
  completed : Status
  failed : Status
  cancelled : Status

pub data FileStatus : Type 0 where
  indexed : FileStatus
  skipped : FileStatus
  file_failed : FileStatus

pub record Counters : Type 0 where
  pub total : ℕ
  pub processed : ℕ
  pub failures : ℕ

pub record JobRow : Type 0 where
  pub id : Text
  pub folder_path : Text
  pub status : Status
  pub counters : Counters
  pub error_message : Option Text
  pub started_at : Option ℕ
  pub finished_at : Option ℕ
  pub created_at : ℕ

pub record FileRow : Type 0 where
  pub job_id : Text
  pub file_path : Text
  pub status : FileStatus
  pub error : Option Text
  pub image_id : Option Text

-- The tables, beside all that other services keep.
pub record State (W : Type 0) : Type 0 where
  pub world : W
  pub jobs : List JobRow
  pub files : List FileRow

-- An action on the world leaves the tables alone.
abbrev pub keep_tables : {W A : Type 0} → State W → Outcome A × W → Outcome A × State W
keep_tables s (result, w) = (result, record s { world = w })

-- What of the world the database depends on: a call that tells whether it answers, made
-- before each query, and its clock.
pub record Database (W : Type 0) : Type 0 where
  pub connect : Action W Unit
  pub now : W → ℕ

abbrev pub on_id : Text → (JobRow → JobRow) → JobRow → JobRow
on_id id f job = if text_eq job.id id then f job else job

abbrev pub set_counters : Counters → JobRow → JobRow
set_counters c job = record job { counters = c }

abbrev pub complete : ℕ → Counters → JobRow → JobRow
complete now c job = record job { status = completed; counters = c; finished_at = some now }

abbrev pub fail : ℕ → Text → JobRow → JobRow
fail now message job = record job {
  status = failed;
  error_message = some message;
  finished_at = some now;
}

abbrev pub is_open : Status → Bool
is_open pending = true
is_open running = true
is_open _ = false

abbrev pub is_file_failed : FileStatus → Bool
is_file_failed file_failed = true
is_file_failed _ = false

pub record JobDetail : Type 0 where
  pub job : JobRow
  pub failed : List (Text × Option Text)

module _ {W : Type 0} (db : Database W) where
  unfoldable pub query : {A : Type 0} → (State W → A) → (State W → State W) → Action (State W) A
  query answer change s =
      continue (λ _ t. (returned (answer t), change t)) (keep_tables s (db.connect s.world))

  unfoldable pub update_job : Text → (JobRow → JobRow) → Action (State W) Unit
  unfolding query
  update_job id f = query (λ _. tt) (λ s. record s { jobs = map (on_id id f) s.jobs })

  -- `INSERT INTO ingestion_jobs …`, with the id that the database makes.
  unfoldable pub create_ingestion_job : Text → Text → Action (State W) Text
  unfolding query
  create_ingestion_job id folder_path =
      query (λ _. id)
        (λ s. record s {
          jobs =
              s.jobs
              ++ record {
                id = id;
                folder_path = folder_path;
                status = running;
                counters = record { total = 0; processed = 0; failures = 0 };
                error_message = none;
                started_at = some (db.now s.world);
                finished_at = none;
                created_at = (db.now s.world);
              }
                ∷ [];
        })

  unfoldable pub record_file : FileRow → Action (State W) Unit
  unfolding query
  record_file row = query (λ _. tt) (λ s. record s { files = s.files ++ row ∷ [] })

  unfoldable pub cancel_job : Text → Action (State W) Bool
  unfolding query
  cancel_job id =
      query (λ s. any (λ j. text_eq j.id id && is_open j.status) s.jobs)
        (λ s. record s {
          jobs =
              map
                (on_id id (λ j.
                  if is_open j.status
                  then record j { status = cancelled; finished_at = some (db.now s.world) }
                  else j))
                s.jobs;
        })

  unfoldable pub list_jobs : ℕ → Action (State W) (List JobRow)
  unfolding query
  list_jobs limit =
      query (λ s. take limit (sort (λ a b. ltb a.created_at b.created_at) s.jobs)) (λ s. s)

  unfoldable pub find_job : Text → Action (State W) (Option JobRow)
  unfolding query
  find_job id = query (λ s. find (λ j. text_eq j.id id) s.jobs) (λ s. s)

  unfoldable pub failed_files : Text → Action (State W) (List (Text × Option Text))
  unfolding query
  failed_files id =
      query
        (λ s.
          map (λ r. (r.file_path, r.error))
            (take 200 (filter (λ r. text_eq r.job_id id && is_file_failed r.status) s.files)))
        (λ s. s)

  unfoldable pub get_job : Text → Action (State W) (Option JobDetail)
  unfolding find_job failed_files
  get_job id = find_job id >>= λ row. elim row [
    | none ↦ pure none
    | some job ↦ failed_files id >>= λ failed. pure (some (record { job = job; failed = failed }))
  ]
