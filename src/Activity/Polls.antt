-- ===== src/Activity/Polls.antt =====
-- A poll: every activity and a fresh list of jobs.
use deedlit_dev.Base.{
  ◌≡◌, refl, sym, ap, ◌∙◌, inl, inr, true, false, not, ◌&&◌, Option, none, some, List, [], ◌∷◌, map,
  arith, if◌then◌else◌, Bool-cases, All,
}
use deedlit_dev.Activity.{
  Number, Activity, JobSnapshot, is_terminal, is_set, is_settled_job, apply_job_to_activity, job_of,
  job_by_id, fold_jobs, apply_jobs_to_activities, has_active_job,
}
use deedlit_dev.Activity.Laws.{
  apply_job_to_activity-Keeps, apply_job_settled, apply_job_to_activity_idem, apply_job_settles,
}

abbrev pub polled : List JobSnapshot → Number → Activity → Activity
polled jobs now a = (apply_job_to_activity a (job_of a jobs) now).0

fold_jobs-map :
    (items : List Activity) (jobs : List JobSnapshot) (now : Number)
    → (fold_jobs items jobs now).0 ≡ map (polled jobs now) items
unfolding fold_jobs
fold_jobs-map [] jobs now = refl
fold_jobs-map (a ∷ items) jobs now = ap (◌∷◌ (polled jobs now a)) (fold_jobs-map items jobs now)

fold_jobs_unchanged :
    (items : List Activity) (jobs : List JobSnapshot) (now : Number)
    → (fold_jobs items jobs now).1 ≡ false
    → (fold_jobs items jobs now).0 ≡ items
unfolding fold_jobs
fold_jobs_unchanged [] jobs now h = refl
fold_jobs_unchanged (a ∷ items) jobs now h = ground (
  arith,
  (apply_job_to_activity-Keeps a (job_of a jobs) now).1,
  fold_jobs_unchanged items jobs now,
)

-- Keeping the old array when no reference changed loses nothing: the result is always the list of
-- the activities, each with its own job folded in.
pub apply_jobs_to_activities-map :
    (items : List Activity) (jobs : List JobSnapshot) (now : Number)
    → (apply_jobs_to_activities items jobs now).0 ≡ map (polled jobs now) items
unfolding apply_jobs_to_activities
apply_jobs_to_activities-map items jobs now = elim (Bool-cases (fold_jobs items jobs now).1) [
  | inl e ↦ rw e (fold_jobs-map items jobs now)
  | inr e ↦ rw e (sym (fold_jobs_unchanged items jobs now e) ∙ fold_jobs-map items jobs now)
]

polled_again :
    (a : Activity) (jobs : List JobSnapshot) (now later : Number)
    → apply_job_to_activity (polled jobs now a) (job_of (polled jobs now a) jobs) later
      ≡ (polled jobs now a, false)
polled_again a jobs now later =
    let keeps = (apply_job_to_activity-Keeps a (job_of a jobs) now).0 in
    let e : job_of (polled jobs now a) jobs ≡ job_of a jobs =
      ap
        (λ i. elim i [
          | none ↦ none
          | some id ↦ if is_set (some id) then job_by_id id jobs else none
        ])
        keeps.job_id in
    rw e (apply_job_to_activity_idem a (job_of a jobs) now later)

fold_jobs_again :
    (items : List Activity) (jobs : List JobSnapshot) (now later : Number)
    → (fold_jobs (map (polled jobs now) items) jobs later).1 ≡ false
unfolding fold_jobs
fold_jobs_again [] jobs now later = refl
fold_jobs_again (a ∷ items) jobs now later =
    rw (polled_again a jobs now later, fold_jobs_again items jobs now later)

-- A second poll that brings the same jobs changes no activity and returns the same array.
pub apply_jobs_to_activities_idem :
    (items : List Activity) (jobs : List JobSnapshot) (now later : Number)
    → let bs = (apply_jobs_to_activities items jobs now).0 in
      apply_jobs_to_activities bs jobs later ≡ (bs, false)
apply_jobs_to_activities_idem items jobs now later =
    rw (apply_jobs_to_activities-map items jobs now)
      (unfold apply_jobs_to_activities in rw (fold_jobs_again items jobs now later))

apply_job_inactive :
    (a : Activity) (jobs : List JobSnapshot) (now : Number)
    → (is_set a.job_id && not (is_terminal a.status)) ≡ false
    → (apply_job_to_activity a (job_of a jobs) now).1 ≡ false
apply_job_inactive a jobs now h = go (job_of a jobs)
  where
    go : (job : Option JobSnapshot) → (apply_job_to_activity a job now).1 ≡ false
    go none = unfold apply_job_to_activity in refl
    go (some job) = unfold apply_job_to_activity in ground arith

fold_jobs_inactive :
    (items : List Activity) (jobs : List JobSnapshot) (now : Number)
    → has_active_job items ≡ false
    → (fold_jobs items jobs now).1 ≡ false
unfolding fold_jobs has_active_job
fold_jobs_inactive [] jobs now h = refl
fold_jobs_inactive (a ∷ items) jobs now h =
    ground (arith, apply_job_inactive a jobs now, fold_jobs_inactive items jobs now)

-- Where no activity is active, a poll changes nothing, whatever the jobs.
pub apply_jobs_inactive :
    (items : List Activity) (jobs : List JobSnapshot) (now : Number)
    → has_active_job items ≡ false
    → apply_jobs_to_activities items jobs now ≡ (items, false)
unfolding apply_jobs_to_activities
apply_jobs_inactive items jobs now h = rw (fold_jobs_inactive items jobs now h)

-- Each activity that is still active follows a job of the list that is in a terminal status.
abbrev pub AllDone : List JobSnapshot → List Activity → Type 0
AllDone jobs = All (λ a.
    is_set a.job_id ≡ true
    → is_terminal a.status ≡ false
    → (job : JobSnapshot) × (job_of a jobs ≡ some job) × (is_settled_job job ≡ true))

polled_done :
    (a : Activity) (jobs : List JobSnapshot) (now : Number)
    → (is_set a.job_id ≡ true
        → is_terminal a.status ≡ false
        → (job : JobSnapshot) × (job_of a jobs ≡ some job) × (is_settled_job job ≡ true))
    → (is_set (polled jobs now a).job_id && not (is_terminal (polled jobs now a).status)) ≡ false
polled_done a jobs now h =
    let keeps = (apply_job_to_activity-Keeps a (job_of a jobs) now).0 in
    rw keeps.job_id (elim (Bool-cases (is_set a.job_id)) [
      | inr e ↦ rw e
      | inl e ↦ elim (Bool-cases (is_terminal a.status)) [
        | inl t ↦
            let p : is_terminal (polled jobs now a).status ≡ true =
              ap (λ r. is_terminal (r.0).status) (apply_job_settled a (job_of a jobs) now t) ∙ t in
            rw (e, p)
        | inr t ↦
            let (job, at, done) = h e t in
            let p : is_terminal (polled jobs now a).status ≡ true =
              ap (λ j. is_terminal (apply_job_to_activity a j now).0.status) at
              ∙ (apply_job_settles a job now e t).0
              ∙ done in
            rw (e, p)
      ]
    ])

none_active :
    (items : List Activity) (jobs : List JobSnapshot) (now : Number)
    → AllDone jobs items
    → has_active_job (map (polled jobs now) items) ≡ false
unfolding has_active_job
none_active [] jobs now h = refl
none_active (a ∷ items) jobs now h = rw (polled_done a jobs now h.0, none_active items jobs now h.1)

-- Once every followed job has ended, one poll leaves no activity active, so polling can stop.
pub has_active_job-apply_jobs :
    (items : List Activity) (jobs : List JobSnapshot) (now : Number)
    → AllDone jobs items
    → has_active_job (apply_jobs_to_activities items jobs now).0 ≡ false
has_active_job-apply_jobs items jobs now h =
    rw (apply_jobs_to_activities-map items jobs now) (none_active items jobs now h)
