-- ===== src/Activity/Dock/Gone.antt =====
-- Rows that have left the dock, and the flag that says a poll is under way.
use deedlit_dev.Base.{
  ℕ, zero, suc, ◌≡◌, refl, ◌∙◌, subst, inl, inr, Bool, true, false, not, none, some, List, [], ◌∷◌,
  map, arith, Bool-cases, get_elem?, filter, All, Text, text_eq, text_eq_iff, has,
}
use deedlit_dev.Activity.{Activity, is_terminal}
use deedlit_dev.Activity.Dock.{
  Dock, settled_fields, dismiss, clear_finished, poll_effect, is_success, prune_effect, Event,
  track_begins, track_settles, track_job, dismissed, finished_cleared, interval_ticks, poll_answers,
  timer_fires, row, job_linked, pushed, react, handle, run, act_id, push, max_rows,
}
use deedlit_dev.Activity.Dock.Rows.{ids, Issued, act_id_fresh, has-take, has-filter, ids-patch}
use deedlit_dev.Activity.Dock.Laws.{IsDock, poll_effect-rows, ids-answer}

-- The id was given to a row, and no row has it.
pub record IsGone (id : Text) (d : Dock) : Type 0 where
  pub given : Issued d.id_counter id
  pub absent : has id (ids d.activities) ≡ false

pushed-IsGone :
    (id : Text) (a : Text → Activity) (d : Dock)
    → ((i : Text) → (a i).id ≡ i)
    → IsGone id d
    → IsGone id (pushed a d)
pushed-IsGone id a d h v =
    let next = act_id (suc d.id_counter) in
    let (k, le, e) = v.given in
    let fresh : text_eq id (a next).id ≡ false = rw (h next) (
      ground
        (arith, act_id_fresh d.id_counter id v.given, text_eq_iff id next, text_eq_iff next id)) in
    record {
      given = (k, omega arith, e);
      absent =
          unfold push in
          has-take id max_rows (a next ∷ d.activities) (unfold has in rw fresh v.absent);
    }

-- A change that keeps the counter and the ids.
still-IsGone :
    (id : Text) (d e : Dock)
    → e.id_counter ≡ d.id_counter
    → ids e.activities ≡ ids d.activities
    → IsGone id d
    → IsGone id e
still-IsGone id d e c r v = record { given = rw c v.given; absent = rw r v.absent }

filter-IsGone :
    (id : Text) (q : Activity → Bool) (timers : List Text) (d : Dock)
    → IsGone id d
    → IsGone id (record d { activities = filter q d.activities; prune_timers = timers })
filter-IsGone id q timers d v = record {
  given = v.given;
  absent = has-filter id q d.activities v.absent;
}

react-IsGone : (e : Event) (id : Text) (d : Dock) → IsGone id d → IsGone id (react e d)
unfolding react
react-IsGone (track_begins label now) id d v =
    pushed-IsGone id (λ i. row i label now) d (λ i. refl) v
react-IsGone (track_settles i failure now) id d v =
    still-IsGone id d (react (track_settles i failure now) d) refl
      (ids-patch i (settled_fields failure now) d.activities) v
react-IsGone (track_job label none now) id d v = v
react-IsGone (track_job label (some []) now) id d v = v
react-IsGone (track_job label (some (c ∷ job)) now) id d v =
    pushed-IsGone id (λ i. job_linked i label (c ∷ job) now) d (λ i. refl) v
react-IsGone (dismissed i) id d v =
    unfold dismiss in filter-IsGone id (λ a. not (text_eq a.id i)) d.prune_timers d v
react-IsGone finished_cleared id d v =
    unfold clear_finished in filter-IsGone id (λ a. not (is_terminal a.status)) d.prune_timers d v
react-IsGone interval_ticks id d v =
    still-IsGone id d (react interval_ticks d) (ground arith) (ground arith) v
react-IsGone (poll_answers g body now) id d v =
    still-IsGone id d (react (poll_answers g body now) d) (ids-answer g body now d).0
      (ids-answer g body now d).1 v
react-IsGone (timer_fires i) id d v = elim (Bool-cases (has i d.prune_timers)) [
  | inl y ↦ rw y (
      unfold dismiss in
      filter-IsGone id (λ a. not (text_eq a.id i)) (filter (λ t. not (text_eq t i)) d.prune_timers)
        d v)
  | inr n ↦ rw n v
]

effects-IsGone : (id : Text) (d : Dock) → IsGone id d → IsGone id (prune_effect (poll_effect d))
effects-IsGone id d v =
    unfold prune_effect in
    record {
      given = rw ((poll_effect-rows d).1) v.given;
      absent = rw ((poll_effect-rows d).0) v.absent;
    }

-- A row that has left the dock never comes back: neither a late answer, nor a settled call, nor a
-- new row, which has another id.
pub run-IsGone : (es : List Event) (id : Text) (d : Dock) → IsGone id d → IsGone id (run es d)
unfolding run handle
run-IsGone [] id d v = v
run-IsGone (e ∷ es) id d v =
    run-IsGone es id (handle e d) (effects-IsGone id (react e d) (react-IsGone e id d v))

has-dismiss : (id : Text) (rows : List Activity) → has id (ids (dismiss id rows)) ≡ false
unfolding dismiss has
has-dismiss id [] = refl
has-dismiss id (a ∷ rows) =
    ground (arith, has-dismiss id rows, text_eq_iff id a.id, text_eq_iff a.id id)

All-at :
    {A : Type 0} (P : A → Type 0) (xs : List A) (i : ℕ) (x : A)
    → All P xs
    → get_elem? xs i ≡ some x
    → P x
All-at P [] i x h e = absurd (ground (arith, e))
All-at P (y ∷ xs) zero x (p, h) e = subst P (cc) p
All-at P (y ∷ xs) (suc i) x (p, h) e = All-at P xs i x h e

get_elem?-map :
    {A B : Type 0} (f : A → B) (xs : List A) (i : ℕ) (x : A)
    → get_elem? xs i ≡ some x
    → get_elem? (map f xs) i ≡ some (f x)
get_elem?-map f [] i x e = absurd (ground (arith, e))
get_elem?-map f (y ∷ xs) zero x e = ground (arith, e)
get_elem?-map f (y ∷ xs) (suc i) x e = get_elem?-map f xs i x e

fires-IsGone :
    (id : Text) (d : Dock)
    → Issued d.id_counter id
    → has id d.prune_timers ≡ true
    → IsGone id (react (timer_fires id) d)
unfolding react
fires-IsGone id d given h = rw h (record { given = given; absent = has-dismiss id d.activities })

-- A succeeded row of a well-formed dock has a timer pending, and once that has fired the row is
-- gone, whatever happens then.
pub timer_fires-IsGone :
    (d : Dock) (i : ℕ) (a : Activity) (es : List Event)
    → IsDock d
    → get_elem? d.activities i ≡ some a
    → is_success a.status ≡ true
    → (has a.id d.prune_timers ≡ true)
      × (has a.id (ids (run es (handle (timer_fires a.id) d)).activities) ≡ false)
timer_fires-IsGone d i a es v at s =
    let armed : has a.id d.prune_timers ≡ true =
      All-at (λ b. is_success b.status ≡ true → has b.id d.prune_timers ≡ true) d.activities i a
        v.armed at s in
    let given : Issued d.id_counter a.id =
      All-at (Issued d.id_counter) (ids d.activities) i a.id v.rows.issued
        (get_elem?-map (λ (b : Activity). b.id) d.activities i a at) in
    let gone = effects-IsGone a.id (react (timer_fires a.id) d) (fires-IsGone a.id d given armed) in
    (armed, (run-IsGone es a.id (handle (timer_fires a.id) d) (unfold handle in gone)).absent)

-- No effect polls after any of the events.
abbrev pub Unpolled : List Event → Dock → Type 0
Unpolled [] d = d.poller ≡ none
Unpolled (e ∷ es) d = (d.poller ≡ none) × Unpolled es (handle e d)

Unpolled-none : (es : List Event) (d : Dock) → Unpolled es d → d.poller ≡ none
Unpolled-none [] d h = h
Unpolled-none (e ∷ es) d h = h.0

handle_loading :
    (e : Event) (d : Dock)
    → d.poller ≡ none
    → (handle e d).poller ≡ none
    → (handle e d).jobs_loading ≡ d.jobs_loading
unfolding handle react prune_effect poll_effect
handle_loading (track_begins label now) d h k = ground arith
handle_loading (track_settles id failure now) d h k = ground arith
handle_loading (track_job label none now) d h k = ground arith
handle_loading (track_job label (some []) now) d h k = ground arith
handle_loading (track_job label (some (c ∷ job)) now) d h k = ground arith
handle_loading (dismissed id) d h k = ground arith
handle_loading finished_cleared d h k = ground arith
handle_loading interval_ticks d h k = ground arith
handle_loading (poll_answers g body now) d h k = ground arith
handle_loading (timer_fires id) d h k = ground arith

-- Once the poller has stopped, no answer clears the loading flag: it stays as it was for as long as
-- no poller starts, whatever arrives.
pub run_loading :
    (es : List Event) (d : Dock) → Unpolled es d → (run es d).jobs_loading ≡ d.jobs_loading
unfolding run
run_loading [] d h = refl
run_loading (e ∷ es) d (none_now, h) =
    run_loading es (handle e d) h ∙ handle_loading e d none_now (Unpolled-none es (handle e d) h)
