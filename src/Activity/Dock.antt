-- ===== src/Activity/Dock.antt =====
-- lib/store/activity.tsx of deedlit.dev.comfyhelper: the provider of the Activity dock. Its state
-- changes by events, and its effects run after each: no two events share a render.
pub mod Rows
pub mod Laws
pub mod Gone
use deedlit_dev.Base.{
  ℕ, zero, suc, ◌+◌, ◌-◌, ◌*◌, ◌/◌, ◌%◌, ◌≤◌, ◌<◌, ◌≡◌, refl, sym, ap, ◌∙◌, subst, ◌≢◌, ◌↔◌, ◌⊎◌,
  inl, inr, Bool, true, false, not, ◌&&◌, ◌||◌, Option, none, some, List, [], ◌∷◌, ◌++◌, map,
  reverse, append_assoc, append-nil, arith, ltb, leb, ◌==◌, if◌then◌else◌, Bool-cases, Option-cases,
  or_else, or_option, &&-true, ||-true, length, take, drop, get_elem?, slice, filter, any, all,
  find, concat, replicate, All, length-append, length-drop, length-take, take-append-drop, drop-nil,
  drop-drop, get_elem?-drop, take-append, drop-append, filter-append, length-filter-le, filter_idem,
  concat-append, length-map, take-drop-take, take-append-le, drop-append-le, Text, Bytes, codes,
  text_eq, text_eq_iff, text_eq_refl, has, is_space, trim_start, trim, lower_unit, to_lower,
  starts_with, ends_with, includes, split_at, join, In, has_iff, cut_last_dot, extname, IsDistinct,
  append_cancel,
}
use deedlit_dev.Base.Decimal.{show}
use deedlit_dev.Json.{Json, arr, Items, nil, cons, prop}
use deedlit_dev.Activity.{
  Number, ActivityStatus, pending, running, success, error, Activity, JobSnapshot, is_terminal,
  apply_jobs_to_activities, has_active_job,
}
use deedlit_dev.Activity.Normalize.{
  normalize_job, Thrown, error_object, error_message, extract_error,
}

abbrev pub max_rows : ℕ
max_rows = 40

-- The id that the counter gives next, when it stands at `n` afterwards.
unfoldable pub act_id : ℕ → Text
act_id n = codes "act-" ++ show n

-- The ids in `prune_timers` have a timeout pending. `poller` is the number of the polling effect
-- that runs, where one does, and `pollers` how many have been started.
pub record Dock : Type 0 where
  pub id_counter : ℕ
  pub activities : List Activity
  pub jobs : List JobSnapshot
  pub jobs_loading : Bool
  pub prune_timers : List Text
  pub poller : Option ℕ
  pub pollers : ℕ

abbrev pub empty_dock : Dock
empty_dock = record {
  id_counter = 0;
  activities = [];
  jobs = [];
  jobs_loading = false;
  prune_timers = [];
  poller = none;
  pollers = 0;
}

unfoldable pub push : Activity → List Activity → List Activity
push a prev = take max_rows (a ∷ prev)

-- The fields that `track` patches: `message` only where the call failed.
pub record PatchFields : Type 0 where
  pub status : ActivityStatus
  pub message : Option Text
  pub ended_at : Number

abbrev pub merge_fields : Activity → PatchFields → Activity
merge_fields a fields = record a {
  status = fields.status;
  message = or_option fields.message a.message;
  ended_at = some fields.ended_at;
}

unfoldable pub patch : Text → PatchFields → List Activity → List Activity
patch id fields prev = map (λ a. if text_eq a.id id then merge_fields a fields else a) prev

unfoldable pub dismiss : Text → List Activity → List Activity
dismiss id prev = filter (λ a. not (text_eq a.id id)) prev

unfoldable pub clear_finished : List Activity → List Activity
clear_finished prev = filter (λ a. not (is_terminal a.status)) prev

abbrev pub row : Text → Text → Number → Activity
row id label now = record {
  id = id;
  label = label;
  status = running;
  progress = none;
  message = none;
  job_id = none;
  stage = none;
  stage_counts = none;
  started_at = now;
  ended_at = none;
}

abbrev pub job_linked : Text → Text → Text → Number → Activity
job_linked id label job now = record (row id label now) {
  job_id = some job;
  progress = some (record { processed = codes "0"; total = codes "0"; failed = codes "0" });
}

-- The two ways a tracked call ends.
abbrev pub settled_fields : Option Thrown → Number → PatchFields
settled_fields none now = record { status = success; message = none; ended_at = now }
settled_fields (some e) now = record {
  status = error;
  message = some (error_message e);
  ended_at = now;
}

-- A response, its body as `res.json()` gives it, or nothing where that throws.
pub record Response : Type 0 where
  pub ok : Bool
  pub status : Number
  pub status_text : Text
  pub body : Option Json

-- The callback that `fetchJson` tracks: a rejected `fetch`, or a response.
unfoldable pub fetch_json : Thrown ⊎ Response → Thrown ⊎ Option Json
fetch_json (inl e) = inl e
fetch_json (inr res) =
    if not res.ok
    then inl (error_object (extract_error res.body res.status res.status_text))
    else inr res.body

abbrev pub failure_of : {A : Type 0} → Thrown ⊎ A → Option Thrown
failure_of (inl e) = some e
failure_of (inr a) = none

unfoldable pub rows_of : Items → List JobSnapshot
rows_of nil = []
rows_of (cons v vs) = normalize_job v ∷ rows_of vs

-- The jobs of an answer: no list of them counts as an empty one.
unfoldable pub jobs_of : Json → List JobSnapshot
unfolding rows_of prop
jobs_of j = elim (prop (codes "jobs") j) [
  | none ↦ []
  | some v ↦ elim v [ arr items ↦ rows_of items | other ↦ [] ]
]

-- The polling effect, which runs while some row follows a job that has not settled. It polls at once.
unfoldable pub poll_effect : Dock → Dock
poll_effect d = elim d.poller [
  | none ↦
      if has_active_job d.activities
      then record d { poller = some (suc d.pollers); pollers = suc d.pollers; jobs_loading = true }
      else d
  | some g ↦ if has_active_job d.activities then d else record d { poller = none }
]

abbrev pub is_success : ActivityStatus → Bool
is_success success = true
is_success _ = false

-- A timer for each succeeded row that has none.
unfoldable pub arm : List Activity → List Text → List Text
arm [] timers = timers
arm (a ∷ activities) timers =
    arm activities (if is_success a.status && not (has a.id timers) then a.id ∷ timers else timers)

unfoldable pub prune_effect : Dock → Dock
prune_effect d = record d { prune_timers = arm d.activities d.prune_timers }

pub data Event : Type 0 where
  track_begins : Text → Number → Event
  track_settles : Text → Option Thrown → Number → Event
  track_job : Text → Option Text → Number → Event
  dismissed : Text → Event
  finished_cleared : Event
  interval_ticks : Event
  -- The answer to a poll of the effect of that number, or nothing where the request failed.
  poll_answers : ℕ → Option Json → Number → Event
  timer_fires : Text → Event

abbrev pub is_current : Dock → ℕ → Bool
is_current d g = elim d.poller [ none ↦ false | some h ↦ h == g ]

abbrev pub take_answer : Option Json → Number → Dock → Dock
take_answer none now d = d
take_answer (some j) now d = record d {
  jobs = jobs_of j;
  activities = (apply_jobs_to_activities d.activities (jobs_of j) now).0;
}

abbrev pub pushed : (Text → Activity) → Dock → Dock
pushed a d = record d {
  id_counter = suc d.id_counter;
  activities = push (a (act_id (suc d.id_counter))) d.activities;
}

-- What an event's callback sets.
unfoldable pub react : Event → Dock → Dock
unfolding patch dismiss clear_finished
react (track_begins label now) d = pushed (λ id. row id label now) d
react (track_settles id failure now) d = record d {
  activities = patch id (settled_fields failure now) d.activities;
}
react (track_job label none now) d = d
react (track_job label (some []) now) d = d
react (track_job label (some (c ∷ job)) now) d = pushed (λ id. job_linked id label (c ∷ job) now) d
react (dismissed id) d = record d { activities = dismiss id d.activities }
react finished_cleared d = record d { activities = clear_finished d.activities }
react interval_ticks d = elim d.poller [ none ↦ d | some g ↦ record d { jobs_loading = true } ]
react (poll_answers g body now) d =
    if is_current d g then record (take_answer body now d) { jobs_loading = false } else d
react (timer_fires id) d =
    if has id d.prune_timers
    then record d {
      prune_timers = filter (λ t. not (text_eq t id)) d.prune_timers;
      activities = dismiss id d.activities;
    }
    else d

-- An event, and the effects after the render.
unfoldable pub handle : Event → Dock → Dock
unfolding react prune_effect poll_effect
handle e d = prune_effect (poll_effect (react e d))

unfoldable pub run : List Event → Dock → Dock
unfolding handle
run [] d = d
run (e ∷ es) d = run es (handle e d)
