-- ===== src/Tests/Activity.antt =====
-- Jobs folded onto activities.
use deedlit_dev.Base.{◌≡◌, refl, ◌≢◌, false, none, some, List, [], ◌∷◌, Text, codes, text_eq, has}
use deedlit_dev.Activity.{
  Activity, JobSnapshot, pending, success, is_terminal, apply_job_to_activity, job_by_id,
  apply_jobs_to_activities, has_active_job,
}
use deedlit_dev.Activity.Laws.{
  Keeps, apply_job_to_activity-Keeps, apply_job_settled, apply_job_to_activity_idem,
}
use deedlit_dev.Activity.Polls.{AllDone, has_active_job-apply_jobs}
use deedlit_dev.Activity.Normalize.{
  is_finite, normalize_job, job_row, IsPlain, normalize_job-job_row, extract_error,
  extract_error-ne-nil,
}

abbrev ingest : Activity
ingest = record {
  id = codes "a1";
  label = codes "Ingest folder";
  status = pending;
  progress = none;
  message = none;
  job_id = some (codes "j1");
  stage = none;
  stage_counts = none;
  started_at = codes "5";
  ended_at = none;
}

abbrev job : Text → JobSnapshot
job status = record {
  id = codes "j1";
  status = status;
  total_files = codes "9";
  processed_files = codes "4";
  failed_files = codes "0";
  error_message = none;
  stage = some (codes "metadata");
  stage_counts = (codes "metadata", codes "4") ∷ [];
}

abbrev saved : Activity
saved = record ingest { status = success }

apply_job_to_activity-Keeps_example :
    Keeps ingest (apply_job_to_activity ingest (some (job (codes "running"))) (codes "7")).0
    × ((apply_job_to_activity ingest (some (job (codes "running"))) (codes "7")).1 ≡ false
        → (apply_job_to_activity ingest (some (job (codes "running"))) (codes "7")).0 ≡ ingest)
apply_job_to_activity-Keeps_example =
    apply_job_to_activity-Keeps ingest (some (job (codes "running"))) (codes "7")

apply_job_settled_example :
    apply_job_to_activity saved (some (job (codes "failed"))) (codes "7") ≡ (saved, false)
apply_job_settled_example =
    apply_job_settled saved (some (job (codes "failed"))) (codes "7") (unfold is_terminal in refl)

abbrev advanced : Activity
advanced = (apply_job_to_activity ingest (some (job (codes "running"))) (codes "7")).0

apply_job_to_activity_idem_example :
    apply_job_to_activity advanced (some (job (codes "running"))) (codes "8") ≡ (advanced, false)
apply_job_to_activity_idem_example =
    apply_job_to_activity_idem ingest (some (job (codes "running"))) (codes "7") (codes "8")

abbrev jobs : List JobSnapshot
jobs = job (codes "completed") ∷ []

abbrev after_poll : List Activity
after_poll = (apply_jobs_to_activities (ingest ∷ []) jobs (codes "7")).0

ingest-AllDone : AllDone jobs (ingest ∷ [])
unfolding job_by_id has text_eq
ingest-AllDone = ((λ _ _. (job (codes "completed"), refl, refl)), tt)

has_active_job-apply_jobs_example :
    has_active_job (apply_jobs_to_activities (ingest ∷ []) jobs (codes "7")).0 ≡ false
has_active_job-apply_jobs_example =
    has_active_job-apply_jobs (ingest ∷ []) jobs (codes "7") ingest-AllDone

job-IsPlain : IsPlain (job (codes "running"))
unfolding is_finite has text_eq
job-IsPlain = record {
  total_files = refl;
  processed_files = refl;
  failed_files = refl;
  stage_counts = ((refl, refl), tt);
}

normalize_job-job_row_example :
    normalize_job (job_row (job (codes "running"))) ≡ job (codes "running")
normalize_job-job_row_example = normalize_job-job_row (job (codes "running")) job-IsPlain

extract_error-ne-nil_example : extract_error none (codes "500") [] ≢ []
extract_error-ne-nil_example = extract_error-ne-nil none (codes "500") []
