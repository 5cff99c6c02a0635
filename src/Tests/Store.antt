-- ===== src/Tests/Store.antt =====
-- The settings, the compare tray and the Activity dock.
use deedlit_dev.Base.{
  ℕ, ◌≡◌, refl, true, false, none, some, List, [], ◌∷◌, arith, leb, all, get_elem?, codes, text_eq,
  has,
}
use deedlit_dev.Settings.{Numbers, default_settings, merge_settings, blob_of}
use deedlit_dev.Settings.Fields.{IsOrdered, IsValid}
use deedlit_dev.Settings.Merge.{merge_settings-IsValid, merge_settings-blob_of}
use deedlit_dev.CompareTray.{Tray, IsTray, run-IsTray, toggle-toggle}
use deedlit_dev.CompareTray
use deedlit_dev.Base.Decimal.{show}
use deedlit_dev.Activity.{Activity, success, has_active_job, is_terminal}
use deedlit_dev.Activity.Dock.{
  Dock, Event, track_begins, track_settles, track_job, handle, run, empty_dock, act_id, react,
  patch, push, arm, prune_effect, poll_effect, row, timer_fires,
}
use deedlit_dev.Activity.Dock.Rows.{ids}
use deedlit_dev.Activity.Dock.Laws.{IsDock, run-IsDock}
use deedlit_dev.Activity.Dock.Gone.{timer_fires-IsGone}

abbrev counts : Numbers ℕ
counts = record { number_leb = leb; literal = λ k. k }

counts-IsOrdered : IsOrdered counts
counts-IsOrdered = record { literals = λ a b h. ground arith; total = λ a b h. ground arith }

merge_settings-IsValid_example : IsValid counts (merge_settings counts none)
merge_settings-IsValid_example = merge_settings-IsValid counts counts-IsOrdered none

merge_settings-blob_of_example :
    merge_settings counts (some (blob_of (default_settings counts))) ≡ default_settings counts
merge_settings-blob_of_example =
    merge_settings-blob_of counts counts-IsOrdered (default_settings counts)
      (unfold merge_settings in merge_settings-IsValid counts counts-IsOrdered none)

abbrev one_image : Tray
one_image = record { ids = codes "a" ∷ []; stored = CompareTray.entries (some (codes "a") ∷ []) }

one_image-IsTray : IsTray one_image
unfolding CompareTray.texts_of has
one_image-IsTray = record { short = (omega arith, (refl, tt)); kept = (omega arith, (refl, tt)) }

abbrev tray_actions : List CompareTray.Action
tray_actions =
    CompareTray.add_id (codes "b") true
    ∷ CompareTray.toggle_id (codes "a") true
    ∷ CompareTray.reload true true true
    ∷ []

-- Where the second write of a reload throws, the stored list is empty and the shown one is not.
unsynced_runs :
    CompareTray.act (CompareTray.reload true true false) one_image
    ≡ record { ids = codes "a" ∷ []; stored = CompareTray.entries [] }
unfolding CompareTray.act CompareTray.loaded CompareTray.texts_of
unsynced_runs = refl

tray_runs : (CompareTray.run tray_actions one_image).ids ≡ codes "b" ∷ []
unfolding CompareTray.run CompareTray.act CompareTray.loaded CompareTray.add CompareTray.toggle
    CompareTray.remove CompareTray.texts_of has text_eq
tray_runs = refl

run-IsTray_example :
    IsTray (CompareTray.run tray_actions one_image)
    × (all CompareTray.writes_succeed tray_actions ≡ true
        → CompareTray.InSync one_image
        → CompareTray.InSync (CompareTray.run tray_actions one_image)
          × (CompareTray.act
                (CompareTray.reload true true true)
                (CompareTray.run tray_actions one_image)
              ≡ CompareTray.run tray_actions one_image))
run-IsTray_example = run-IsTray tray_actions one_image one_image-IsTray

abbrev events : List Event
events =
    track_begins (codes "Save") (codes "1")
    ∷ track_job (codes "Scan") (some (codes "j")) (codes "2")
    ∷ track_settles (codes "act-1") none (codes "3")
    ∷ []

abbrev docked : Dock
docked = run events empty_dock

-- A saved row that waits for its timer, behind the row of a job.
dock_runs :
    (ids docked.activities ≡ codes "act-2" ∷ codes "act-1" ∷ [])
    × (docked.prune_timers ≡ codes "act-1" ∷ [])
unfolding run react patch push act_id show arm prune_effect poll_effect has_active_job is_terminal
    has text_eq
dock_runs = (refl, refl)

run-IsDock_example : IsDock docked
run-IsDock_example = run-IsDock events

abbrev saved : Activity
saved = record (row (codes "act-1") (codes "Save") (codes "1")) {
  status = success;
  ended_at = some (codes "3");
}

saved_at : get_elem? docked.activities 1 ≡ some saved
unfolding run react patch push act_id show arm prune_effect poll_effect has_active_job is_terminal
    has text_eq
saved_at = refl

timer_fires-IsGone_example :
    (has (codes "act-1") docked.prune_timers ≡ true)
    × (has (codes "act-1") (
          ids
            (run
              (track_begins (codes "Copy") (codes "4") ∷ [])
              (handle (timer_fires (codes "act-1")) docked)).activities)
        ≡ false)
timer_fires-IsGone_example =
    timer_fires-IsGone docked 1 saved (track_begins (codes "Copy") (codes "4") ∷ [])
      (run-IsDock events) saved_at refl
