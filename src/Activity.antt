-- ===== src/Activity.antt =====
-- lib/store/activity-jobs.ts of deedlit.dev.comfyhelper: the jobs that the Activity dock follows.
-- `changed` in a result says that the code returns another reference than it was given.
pub mod Laws
pub mod Polls
pub mod Normalize
pub mod Dock
use deedlit_dev.Base.{
  ℕ, zero, suc, ◌+◌, ◌-◌, ◌*◌, ◌/◌, ◌%◌, ◌≤◌, ◌<◌, ◌≡◌, refl, sym, ap, ◌∙◌, subst, ◌≢◌, ◌↔◌, ◌⊎◌,
  inl, inr, Bool, true, false, not, ◌&&◌, ◌||◌, Option, none, some, List, [], ◌∷◌, ◌++◌, map,
  append_assoc, append-nil, arith, ltb, leb, ◌==◌, if◌then◌else◌, Bool-cases, Option-cases, or_else,
  or_option, &&-true, ||-true, length, take, drop, get_elem?, slice, filter, any, all, find, concat,
  replicate, All, length-append, length-drop, length-take, take-append-drop, drop-nil, drop-drop,
  get_elem?-drop, take-append, drop-append, filter-append, length-filter-le, filter_idem,
  concat-append, length-map, take-drop-take, take-append-le, drop-append-le, Text, Bytes, codes,
  text_eq, text_eq_iff, text_eq_refl, has, is_space, trim_start, trim, lower_unit, to_lower,
  starts_with, ends_with, includes, split_at, join,
}

-- A number by what `String` prints of it: `===` is equality of these texts for all but NaN.
abbrev pub Number : Type 0
Number = Text

pub data ActivityStatus : Type 0 where
  pending running success error : ActivityStatus

pub record ActivityProgress : Type 0 where
  pub processed : Number
  pub total : Number
  pub failed : Number

-- `stage` is absent, null or a text.
pub record Activity : Type 0 where
  pub id : Text
  pub label : Text
  pub status : ActivityStatus
  pub progress : Option ActivityProgress
  pub message : Option Text
  pub job_id : Option Text
  pub stage : Option (Option Text)
  pub stage_counts : Option (List (Text × Number))
  pub started_at : Number
  pub ended_at : Option Number

pub record JobSnapshot : Type 0 where
  pub id : Text
  pub status : Text
  pub total_files : Number
  pub processed_files : Number
  pub failed_files : Number
  pub error_message : Option Text
  pub stage : Option Text
  pub stage_counts : List (Text × Number)

abbrev pub terminal_job_statuses : List Text
terminal_job_statuses =
    codes "completed" ∷ codes "failed" ∷ codes "cancelled" ∷ codes "interrupted" ∷ []

unfoldable pub is_terminal : ActivityStatus → Bool
is_terminal success = true
is_terminal error = true
is_terminal _ = false

abbrev pub is_running : ActivityStatus → Bool
is_running running = true
is_running _ = false

-- `Boolean(activity.jobId)`: the empty text is falsy.
abbrev pub is_set : Option Text → Bool
is_set none = false
is_set (some []) = false
is_set (some (c ∷ s)) = true

abbrev pub same_progress : Option ActivityProgress → ActivityProgress → Bool
same_progress none q = false
same_progress (some p) q =
    text_eq p.processed q.processed && text_eq p.total q.total && text_eq p.failed q.failed

-- `activity.stage ?? null`.
abbrev pub stage_or_null : Option (Option Text) → Option Text
stage_or_null none = none
stage_or_null (some s) = s

abbrev pub same_stage : Option Text → Option Text → Bool
same_stage none none = true
same_stage (some a) (some b) = text_eq a b
same_stage _ _ = false

abbrev pub progress_of : JobSnapshot → ActivityProgress
progress_of job = record {
  processed = job.processed_files;
  total = job.total_files;
  failed = job.failed_files;
}

abbrev pub is_settled_job : JobSnapshot → Bool
is_settled_job job = has job.status terminal_job_statuses

abbrev pub failure_message : JobSnapshot → Text
failure_message job = or_else job.error_message (
    if text_eq job.status (codes "cancelled")
    then codes "cancelled"
    else if text_eq job.status (codes "interrupted")
    then codes "interrupted (service restarted)"
    else codes "failed")

-- The branch for a job in a terminal status.
unfoldable pub settle : Activity → JobSnapshot → Number → Activity
settle activity job now =
    let ok = text_eq job.status (codes "completed") in
    record activity {
      progress = some (progress_of job);
      status = if ok then success else error;
      message = if ok then none else some (failure_message job);
      stage = some none;
      stage_counts = some job.stage_counts;
      ended_at = some now;
    }

-- The branch for a job in flight.
unfoldable pub advance : Activity → JobSnapshot → Activity × Bool
advance activity job =
    let same =
      is_running activity.status
      && same_progress activity.progress (progress_of job)
      && same_stage (stage_or_null activity.stage) job.stage in
    if same then (activity, false) else (
      record activity {
        status = running;
        progress = some (progress_of job);
        stage = some job.stage;
        stage_counts = some job.stage_counts;
      },
      true,
    )

-- The updated activity, and whether it is another object than the one given.
unfoldable pub apply_job_to_activity : Activity → Option JobSnapshot → Number → Activity × Bool
unfolding settle advance
apply_job_to_activity activity none now = (activity, false)
apply_job_to_activity activity (some job) now =
    if not (is_set activity.job_id) || is_terminal activity.status
    then (activity, false)
    else if is_settled_job job
    then (settle activity job now, true)
    else advance activity job

-- `byId.get(id)` of a map filled in order: a later job replaces an earlier one of the same id.
unfoldable pub job_by_id : Text → List JobSnapshot → Option JobSnapshot
job_by_id id [] = none
job_by_id id (job ∷ jobs) =
    or_option (job_by_id id jobs) (if text_eq job.id id then some job else none)

abbrev pub job_of : Activity → List JobSnapshot → Option JobSnapshot
job_of activity jobs = elim activity.job_id [
  | none ↦ none
  | some id ↦ if is_set (some id) then job_by_id id jobs else none
]

-- The `map` of `applyJobsToActivities`, with the flag `changed`.
unfoldable pub fold_jobs : List Activity → List JobSnapshot → Number → List Activity × Bool
fold_jobs [] jobs now = ([], false)
fold_jobs (a ∷ activities) jobs now =
    let updated = apply_job_to_activity a (job_of a jobs) now in
    let rest = fold_jobs activities jobs now in (updated.0 ∷ rest.0, updated.1 || rest.1)

unfoldable pub apply_jobs_to_activities :
    List Activity → List JobSnapshot → Number → List Activity × Bool
unfolding fold_jobs
apply_jobs_to_activities activities jobs now =
    let next = fold_jobs activities jobs now in
    if next.1 then (next.0, true) else (activities, false)

unfoldable pub has_active_job : List Activity → Bool
has_active_job = any (λ a. is_set a.job_id && not (is_terminal a.status))
