-- ===== src/Activity/Dock/Laws.antt =====
-- What holds of the dock after every event.
use deedlit_dev.Base.{
  ℕ, suc, ◌≡◌, refl, inl, inr, Bool, true, false, not, ◌&&◌, Option, none, some, List, [], ◌∷◌,
  arith, if◌then◌else◌, Bool-cases, All, Text, text_eq, text_eq_refl, has,
}
use deedlit_dev.Json.{Json}
use deedlit_dev.Activity.{Number, Activity, has_active_job, is_terminal}
use deedlit_dev.Activity.Dock.{
  Dock, empty_dock, settled_fields, patch, dismiss, clear_finished, jobs_of, poll_effect, arm,
  is_success, prune_effect, Event, track_begins, track_settles, track_job, dismissed,
  finished_cleared, interval_ticks, poll_answers, timer_fires, is_current, take_answer, row,
  job_linked, react, handle, run, act_id,
}
use deedlit_dev.Activity.Dock.Rows.{
  ids, IsRows, filter-IsRows, push-IsRows, same_ids-IsRows, ids-patch, ids-apply_jobs_to_activities,
}

abbrev pub is_some : Option ℕ → Bool
is_some none = false
is_some (some g) = true

-- The rows that succeeded have a timer.
abbrev pub IsArmed : List Text → List Activity → Type 0
IsArmed timers = All (λ a. is_success a.status ≡ true → has a.id timers ≡ true)

-- At most forty rows with different ids, all given by the counter; a timer for each succeeded row;
-- the poller runs exactly while some row follows a job that has not settled.
pub record IsDock (d : Dock) : Type 0 where
  pub rows : IsRows d.id_counter d.activities
  pub armed : IsArmed d.prune_timers d.activities
  pub polls : is_some d.poller ≡ has_active_job d.activities

arm-keeps :
    (x : Text) (rows : List Activity) (timers : List Text)
    → has x timers ≡ true
    → has x (arm rows timers) ≡ true
unfolding arm
arm-keeps x [] timers h = h
arm-keeps x (a ∷ rows) timers h =
    arm-keeps x rows
      (if is_success a.status && not (has a.id timers) then a.id ∷ timers else timers)
      (unfold has in ground arith)

arm-IsArmed : (rows : List Activity) (timers : List Text) → IsArmed (arm rows timers) rows
unfolding arm
arm-IsArmed [] timers = tt
arm-IsArmed (a ∷ rows) timers = (
  λ s.
      arm-keeps a.id rows
        (if is_success a.status && not (has a.id timers) then a.id ∷ timers else timers)
        (unfold has in ground (arith, text_eq_refl a.id)),
  arm-IsArmed rows (if is_success a.status && not (has a.id timers) then a.id ∷ timers else timers),
)

pub poll_effect-rows :
    (d : Dock)
    → ((poll_effect d).activities ≡ d.activities) × ((poll_effect d).id_counter ≡ d.id_counter)
unfolding poll_effect
poll_effect-rows d = ground arith

poll_effect-polls : (d : Dock) → is_some (poll_effect d).poller ≡ has_active_job d.activities
unfolding poll_effect
poll_effect-polls d = ground arith

still-IsRows :
    (d e : Dock)
    → e.id_counter ≡ d.id_counter
    → ids e.activities ≡ ids d.activities
    → IsRows d.id_counter d.activities
    → IsRows e.id_counter e.activities
still-IsRows d e c r v = rw c (same_ids-IsRows d.id_counter d.activities e.activities r v)

ids-take_answer :
    (body : Option Json) (now : Number) (d : Dock)
    → ((take_answer body now d).id_counter ≡ d.id_counter)
      × (ids (take_answer body now d).activities ≡ ids d.activities)
ids-take_answer none now d = (refl, refl)
ids-take_answer (some j) now d = (refl, ids-apply_jobs_to_activities d.activities (jobs_of j) now)

-- An answer keeps the ids, and the counter.
pub ids-answer :
    (g : ℕ) (body : Option Json) (now : Number) (d : Dock)
    → ((react (poll_answers g body now) d).id_counter ≡ d.id_counter)
      × (ids (react (poll_answers g body now) d).activities ≡ ids d.activities)
unfolding react
ids-answer g body now d = elim (Bool-cases (is_current d g)) [
  | inl y ↦ rw y (ids-take_answer body now d)
  | inr n ↦ rw n (refl, refl)
]

react-IsRows :
    (e : Event) (d : Dock)
    → IsRows d.id_counter d.activities
    → IsRows (react e d).id_counter (react e d).activities
unfolding react
react-IsRows (track_begins label now) d v =
    push-IsRows d.id_counter (row (act_id (suc d.id_counter)) label now) d.activities refl v
react-IsRows (track_settles id failure now) d v =
    same_ids-IsRows d.id_counter d.activities (patch id (settled_fields failure now) d.activities)
      (ids-patch id (settled_fields failure now) d.activities) v
react-IsRows (track_job label none now) d v = v
react-IsRows (track_job label (some []) now) d v = v
react-IsRows (track_job label (some (c ∷ job)) now) d v =
    push-IsRows d.id_counter (job_linked (act_id (suc d.id_counter)) label (c ∷ job) now)
      d.activities refl v
react-IsRows (dismissed id) d v =
    unfold dismiss in filter-IsRows d.id_counter (λ a. not (text_eq a.id id)) d.activities v
react-IsRows finished_cleared d v =
    unfold clear_finished in
    filter-IsRows d.id_counter (λ a. not (is_terminal a.status)) d.activities v
react-IsRows interval_ticks d v =
    still-IsRows d (react interval_ticks d) (ground arith) (ground arith) v
react-IsRows (poll_answers g body now) d v =
    still-IsRows d (react (poll_answers g body now) d) (ids-answer g body now d).0
      (ids-answer g body now d).1 v
react-IsRows (timer_fires id) d v = elim (Bool-cases (has id d.prune_timers)) [
  | inl y ↦
      rw y
        (unfold dismiss in filter-IsRows d.id_counter (λ a. not (text_eq a.id id)) d.activities v)
  | inr n ↦ rw n v
]

-- Every event keeps the invariant.
pub handle-IsDock : (e : Event) (d : Dock) → IsDock d → IsDock (handle e d)
unfolding handle prune_effect
handle-IsDock e d v =
    let after = react e d in
    let same = poll_effect-rows after in
    record {
      rows = rw (same.0, same.1) (react-IsRows e d v.rows);
      armed = arm-IsArmed (poll_effect after).activities (poll_effect after).prune_timers;
      polls = rw (same.0) (poll_effect-polls after);
    }

empty_dock-IsDock : IsDock empty_dock
empty_dock-IsDock = record {
  rows = record { few = omega arith; distinct = tt; issued = tt };
  armed = tt;
  polls = unfold has_active_job in refl;
}

run_keeps : (es : List Event) (d : Dock) → IsDock d → IsDock (run es d)
unfolding run
run_keeps [] d v = v
run_keeps (e ∷ es) d v = run_keeps es (handle e d) (handle-IsDock e d v)

-- Whatever happens after the provider is mounted, the dock is well-formed.
pub run-IsDock : (es : List Event) → IsDock (run es empty_dock)
run-IsDock es = run_keeps es empty_dock empty_dock-IsDock
