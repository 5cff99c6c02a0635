-- ===== src/Activity/Laws.antt =====
-- One activity and one job snapshot.
use deedlit_dev.Base.{
  ◌≡◌, refl, ◌↔◌, true, false, Option, none, some, List, arith, Text, codes, text_eq_iff,
  text_eq_refl, has,
}
use deedlit_dev.Activity.{
  Number, Activity, success, JobSnapshot, is_terminal, is_set, is_settled_job,
  apply_job_to_activity, same_stage,
}

same_stage_refl : (s : Option Text) → same_stage s s ≡ true
same_stage_refl none = refl
same_stage_refl (some t) = text_eq_refl t

-- What never changes under a fold.
pub record Keeps (a b : Activity) : Type 0 where
  pub id : b.id ≡ a.id
  pub label : b.label ≡ a.label
  pub job_id : b.job_id ≡ a.job_id
  pub started_at : b.started_at ≡ a.started_at

-- A fold keeps the activity's id, label, job and start, and when it reports no change it returns
-- the activity itself.
pub apply_job_to_activity-Keeps :
    (a : Activity) (job : Option JobSnapshot) (now : Number)
    → Keeps a (apply_job_to_activity a job now).0
      × ((apply_job_to_activity a job now).1 ≡ false → (apply_job_to_activity a job now).0 ≡ a)
unfolding apply_job_to_activity
apply_job_to_activity-Keeps a none now = ground arith
apply_job_to_activity-Keeps a (some job) now = ground arith

-- A settled activity is returned untouched, whatever the job says.
pub apply_job_settled :
    (a : Activity) (job : Option JobSnapshot) (now : Number)
    → is_terminal a.status ≡ true
    → apply_job_to_activity a job now ≡ (a, false)
unfolding apply_job_to_activity
apply_job_settled a none now h = refl
apply_job_settled a (some job) now h = ground arith

-- Folding the same snapshot again, at any later time, changes nothing and returns the same reference.
pub apply_job_to_activity_idem :
    (a : Activity) (job : Option JobSnapshot) (now later : Number)
    → let b = (apply_job_to_activity a job now).0 in apply_job_to_activity b job later ≡ (b, false)
unfolding apply_job_to_activity is_terminal
apply_job_to_activity_idem a none now later = refl
apply_job_to_activity_idem a (some job) now later = ground (
  arith,
  same_stage_refl job.stage,
  text_eq_refl job.processed_files,
  text_eq_refl job.total_files,
  text_eq_refl job.failed_files,
)

-- An activity that follows a job and has not settled settles exactly when the job's status is
-- terminal, and then with success exactly when the job completed.
pub apply_job_settles :
    (a : Activity) (job : JobSnapshot) (now : Number)
    → is_set a.job_id ≡ true
    → is_terminal a.status ≡ false
    → let b = (apply_job_to_activity a (some job) now).0 in
      (is_terminal b.status ≡ is_settled_job job)
      × ((b.status ≡ success) ↔ (job.status ≡ codes "completed"))
unfolding apply_job_to_activity is_terminal has
apply_job_settles a job now h k = ground (arith, text_eq_iff job.status (codes "completed"))

-- Counts of stages alone do not reach the dock: where a job in flight differs from the one last
-- folded only in `stageCounts`, the activity keeps the counts it had.
pub apply_job_stale_counts :
    (a : Activity) (job : JobSnapshot) (counts : List (Text × Number)) (now later : Number)
    → is_settled_job job ≡ false
    → let b = (apply_job_to_activity a (some job) now).0 in
      apply_job_to_activity b (some (record job { stage_counts = counts })) later ≡ (b, false)
unfolding apply_job_to_activity is_terminal
apply_job_stale_counts a job counts now later h = ground (
  arith,
  same_stage_refl job.stage,
  text_eq_refl job.processed_files,
  text_eq_refl job.total_files,
  text_eq_refl job.failed_files,
)
