-- ===== src/Ingest/Account.antt =====
-- What a run of an ingestion job leaves in the tables.
use deedlit_dev.Base.{
  ℕ, ◌+◌, ◌%◌, ◌≡◌, refl, ap, ◌∙◌, inl, inr, Bool, true, false, not, Option, none, some, List, [],
  ◌∷◌, ◌++◌, map, arith, ◌==◌, Bool-cases, length, filter, Text, text_eq,
}
use deedlit_dev.Base.Outcome.{Outcome, returned, thrown}
use deedlit_dev.Base.Action.{continue}
use deedlit_dev.Ingest.Jobs.{
  State, Database, Counters, JobRow, FileRow, file_failed, is_file_failed, query, update_job,
  record_file, set_counters, complete, on_id,
}
use deedlit_dev.Ingest.Single.{Services, IngestRequest, Ingested, ingest_single_file}
use deedlit_dev.Ingest.Run.{
  on_world, file_status, file_fails, file_done, settle_file, report, ingest_file,
}

-- The database answers whatever happens.
abbrev pub IsUp : {W : Type 0} → Database W → Type 0
IsUp {W} db = (w : W) → (db.connect w).0 ≡ returned tt

-- The state behind the connection.
abbrev pub reached : {W : Type 0} → Database W → State W → State W
reached db s = record s { world = (db.connect s.world).1 }

abbrev pub failed_rows : List FileRow → List FileRow
failed_rows = filter (λ r. is_file_failed r.status)

abbrev pub done_rows : List FileRow → List FileRow
done_rows = filter (λ r. not (is_file_failed r.status))

-- What files `paths` add to the tables and the counters of the job `id`.
pub record Accounts {W : Type 0} (id : Text) (paths : List Text) (c d : Counters) (s t : State W)
    : Type 0 where
  pub rows : List FileRow
  pub added : t.files ≡ s.files ++ rows
  pub row_paths : map (λ r. r.file_path) rows ≡ paths
  pub row_jobs : map (λ r. r.job_id) rows ≡ map (λ p. id) paths
  pub total : d.total ≡ c.total + length paths
  pub processed : d.processed ≡ c.processed + length (done_rows rows)
  pub failures : d.failures ≡ c.failures + length (failed_rows rows)
  pub jobs :
      (now : ℕ) (e : Counters)
      → map (on_id id (complete now e)) t.jobs ≡ map (on_id id (complete now e)) s.jobs

on_id_twice :
    (id : Text) (now : ℕ) (e d : Counters) (job : JobRow)
    → on_id id (complete now e) (on_id id (set_counters d) job) ≡ on_id id (complete now e) job
on_id_twice id now e d job = elim (Bool-cases (text_eq job.id id)) [
  | inl y ↦ rw (y, y) refl
  | inr n ↦ rw (n, n) refl
]

map_twice :
    (id : Text) (now : ℕ) (e d : Counters) (jobs : List JobRow)
    → map (on_id id (complete now e)) (map (on_id id (set_counters d)) jobs)
      ≡ map (on_id id (complete now e)) jobs
map_twice id now e d [] = refl
map_twice id now e d (j ∷ js) = cc (on_id_twice id now e d j, map_twice id now e d js)

module _ {W R : Type 0} (db : Database W) (svc : Services W R) (up : IsUp db) where
  pub query_up :
      {A : Type 0} (answer : State W → A) (change : State W → State W) (s : State W)
      → query db answer change s ≡ (returned (answer (reached db s)), change (reached db s))
  unfolding query
  query_up answer change s = rw (up s.world) refl

  -- What settling one file adds.
  abbrev pub Settled : Text → Text → Counters → State W → Outcome Counters × State W → Type 0
  Settled id path c s r =
      (d : Counters) × (t : State W) × (r ≡ (returned d, t)) × Accounts id (path ∷ []) c d s t

  abbrev counted : Counters → Counters
  counted c = record c { total = c.total + 1 }

  file_fails_up :
      (id path message : Text) (c : Counters) (s : State W)
      → Settled id path c s (file_fails db svc id (counted c) path message s)
  unfolding file_fails record_file
  file_fails_up id path message c s =
      let row : FileRow = record {
        job_id = id;
        file_path = path;
        status = file_failed;
        error = some message;
        image_id = none;
      } in
      let e = query_up (λ _. tt) (λ t. record t { files = t.files ++ row ∷ [] }) s in
      (
        record c { total = c.total + 1; failures = c.failures + 1 },
        record (reached db s) { files = s.files ++ row ∷ [] },
        rw e refl,
        record {
          rows = row ∷ [];
          added = refl;
          row_paths = refl;
          row_jobs = refl;
          total = omega arith;
          processed = omega arith;
          failures = omega arith;
          jobs = λ now e. refl;
        },
      )

  done_counts :
      (skipped : Bool) (id path : Text) (image : Option Text) (n : ℕ)
      → let rows : List FileRow =
          record {
            job_id = id;
            file_path = path;
            status = file_status skipped;
            error = none;
            image_id = image;
          }
          ∷ [] in
        (n + 1 ≡ n + length (done_rows rows)) × (n ≡ n + length (failed_rows rows))
  done_counts true id path image n = (omega arith, omega arith)
  done_counts false id path image n = (omega arith, omega arith)

  file_done_up :
      (id path : Text) (c : Counters) (result : Ingested) (s : State W)
      → Settled id path c s (settle_file db svc id (counted c) path (returned result, s))
  unfolding settle_file file_done record_file
  file_done_up id path c result s =
      let row : FileRow = record {
        job_id = id;
        file_path = path;
        status = file_status result.skipped;
        error = none;
        image_id = some result.image_id;
      } in
      let e = query_up (λ _. tt) (λ t. record t { files = t.files ++ row ∷ [] }) s in
      (
        record c { total = c.total + 1; processed = c.processed + 1 },
        record (reached db s) { files = s.files ++ row ∷ [] },
        rw e refl,
        record {
          rows = row ∷ [];
          added = refl;
          row_paths = refl;
          row_jobs = refl;
          total = omega arith;
          processed = (done_counts result.skipped id path (some result.image_id) c.processed).0;
          failures = (done_counts result.skipped id path (some result.image_id) c.failures).1;
          jobs = λ now e. refl;
        },
      )

  settle_file_up :
      (id path : Text) (c : Counters) (o : Outcome Ingested) (s : State W)
      → Settled id path c s (settle_file db svc id (counted c) path (o, s))
  settle_file_up id path c (thrown e) s = unfold settle_file in file_fails_up id path e c s
  settle_file_up id path c (returned result) s = file_done_up id path c result s

  keep_world :
      (id path : Text) (c d : Counters) (s t : State W) (w : W)
      → Accounts id (path ∷ []) c d (record s { world = w }) t
      → Accounts id (path ∷ []) c d s t
  keep_world id path c d s t w a = record {
    rows = a.rows;
    added = a.added;
    row_paths = a.row_paths;
    row_jobs = a.row_jobs;
    total = a.total;
    processed = a.processed;
    failures = a.failures;
    jobs = a.jobs;
  }

  -- Writing the counters changes nothing that the final update keeps.
  report_up :
      (id : Text) (c d : Counters) (paths : List Text) (s t : State W)
      → Accounts id paths c d s t
      → (u : State W) × (report db svc id d t ≡ (returned d, u)) × Accounts id paths c d s u
  unfolding report update_job
  report_up id c d paths s t a = elim (Bool-cases (d.total % 20 == 0)) [
    | inr n ↦ (t, rw n refl, a)
    | inl y ↦
        let e =
          query_up (λ _. tt) (λ u. record u { jobs = map (on_id id (set_counters d)) u.jobs }) t in
        (
          record (reached db t) { jobs = map (on_id id (set_counters d)) t.jobs },
          rw (y, e) refl,
          record {
            rows = a.rows;
            added = a.added;
            row_paths = a.row_paths;
            row_jobs = a.row_jobs;
            total = a.total;
            processed = a.processed;
            failures = a.failures;
            jobs = λ now f. map_twice id now f d t.jobs ∙ a.jobs now f;
          },
        )
  ]

  pub ingest_file_up :
      (id : Text) (req : IngestRequest) (c : Counters) (path : Text) (s : State W)
      → Settled id path c s (ingest_file db svc id req c path s)
  unfolding ingest_file on_world
  ingest_file_up id req c path s =
      let result = ingest_single_file svc path req s.world in
      let (d, t, e, a) = settle_file_up id path c result.0 (record s { world = result.1 }) in
      let (u, f, b) = report_up id c d (path ∷ []) s t (keep_world id path c d s t result.1 a) in
      (d, u, ap (continue (report db svc id)) e ∙ f, b)
