-- ===== src/Gallery/Snapshot.antt =====
-- The cached scan of image-index.ts: `getSnapshot`, `rebuildSnapshot`, `scheduleRefresh` and
-- `ensureWatcher`. A promise of a scan is the scan's number; what the event loop may do next is a
-- step.
pub mod Laws
use deedlit_dev.Base.{
  ℕ, zero, suc, ◌+◌, ◌-◌, ◌*◌, ◌/◌, ◌%◌, ◌≤◌, ◌<◌, ◌≡◌, refl, sym, ap, ◌∙◌, subst, ◌≢◌, ◌↔◌, ◌⊎◌,
  inl, inr, Bool, true, false, not, ◌&&◌, ◌||◌, Option, none, some, List, [], ◌∷◌, ◌++◌, map,
  append_assoc, append-nil, arith, ltb, leb, ◌==◌, if◌then◌else◌, Bool-cases, Option-cases, or_else,
  or_option, &&-true, ||-true, length, take, drop, get_elem?, slice, filter, any, all, find, concat,
  replicate, All, length-append, length-drop, length-take, take-append-drop, drop-nil, drop-drop,
  get_elem?-drop, take-append, drop-append, filter-append, length-filter-le, filter_idem,
  concat-append, length-map, take-drop-take, take-append-le, drop-append-le, Text, Bytes, codes,
  text_eq, text_eq_iff, text_eq_refl, has, is_space, trim_start, trim, lower_unit, to_lower,
  starts_with, ends_with, includes, split_at, join, In, has_iff, cut_last_dot, extname, IsDistinct,
  append_cancel,
}
use deedlit_dev.Gallery.Ids.{IndexedImage}

abbrev pub snapshot_ttl_ms : ℕ
snapshot_ttl_ms = 10000

pub record IndexedSnapshot : Type 0 where
  pub images : List IndexedImage
  pub refreshed_at : ℕ

-- The module's variables, and the scans that run: `scans` holds their numbers, all below `next`.
pub record State : Type 0 where
  pub snapshot : Option IndexedSnapshot
  pub refreshing : Option ℕ
  pub watcher : Bool
  pub refresh_timer : Bool
  pub scans : List ℕ
  pub next : ℕ

-- What a caller of `getSnapshot` gets: the snapshot, or the promise of a scan.
pub data Answer : Type 0 where
  cached : IndexedSnapshot → Answer
  awaits : ℕ → Answer

abbrev pub initial : State
initial = record {
  snapshot = none;
  refreshing = none;
  watcher = false;
  refresh_timer = false;
  scans = [];
  next = 0;
}

-- `fs.watch` either starts a watcher or throws.
unfoldable pub ensure_watcher : Bool → State → State
ensure_watcher starts s = if s.watcher then s else record s { watcher = starts }

-- `refreshing = rebuildSnapshot().finally(…)`.
unfoldable pub start_scan : State → State
start_scan s = record s { refreshing = some s.next; scans = s.next ∷ s.scans; next = s.next + 1 }

abbrev pub is_fresh : ℕ → Option IndexedSnapshot → Bool
is_fresh now none = false
is_fresh now (some snap) = not (ltb snapshot_ttl_ms (now - snap.refreshed_at))

-- Behind `ensureWatcher()`.
unfoldable pub answer_from : Option IndexedSnapshot → ℕ → State → State × Answer
unfolding start_scan
answer_from none now s = (start_scan s, awaits s.next)
answer_from (some snap) now s =
    if is_fresh now (some snap) then (s, cached snap) else (start_scan s, awaits s.next)

unfoldable pub await_or_answer : Option ℕ → ℕ → State → State × Answer
unfolding answer_from
await_or_answer (some job) now s = (s, awaits job)
await_or_answer none now s = answer_from s.snapshot now s

unfoldable pub get_snapshot : Bool → ℕ → State → State × Answer
unfolding ensure_watcher await_or_answer
get_snapshot starts now s = let s' = ensure_watcher starts s in await_or_answer s'.refreshing now s'

-- `scheduleRefresh`, called by the watcher: a timer that was set is cleared first.
unfoldable pub schedule_refresh : State → State
schedule_refresh s = record s { refresh_timer = true }

unfoldable pub timer_fires : State → State
unfolding start_scan
timer_fires s = start_scan (record s { refresh_timer = false })

abbrev pub remove_scan : ℕ → List ℕ → List ℕ
remove_scan job = filter (λ k. not (k == job))

-- The rest of `rebuildSnapshot`, then its `finally`.
unfoldable pub scan_done : ℕ → List IndexedImage → ℕ → State → State
scan_done job images now s = record s {
  snapshot = some (record { images = images; refreshed_at = now });
  refreshing = none;
  scans = remove_scan job s.scans;
}

unfoldable pub scan_failed : ℕ → State → State
scan_failed job s = record s { refreshing = none; scans = remove_scan job s.scans }

abbrev pub runs : ℕ → List ℕ → Bool
runs job = any (λ k. k == job)

-- One turn of the event loop that fires no timer.
pub data Turn : State → State → Type 0 where
  asked : (starts : Bool) (now : ℕ) {s : State} → Turn s (get_snapshot starts now s).0
  file_changed : {s : State} → s.watcher ≡ true → Turn s (schedule_refresh s)
  watcher_error : {s : State} → Turn s (record s { watcher = false })
  done :
      (job : ℕ) (images : List IndexedImage) (now : ℕ) {s : State}
      → runs job s.scans ≡ true
      → Turn s (scan_done job images now s)
  failed : (job : ℕ) {s : State} → runs job s.scans ≡ true → Turn s (scan_failed job s)

pub data Step : State → State → Type 0 where
  turn : {s t : State} → Turn s t → Step s t
  fires : {s : State} → s.refresh_timer ≡ true → Step s (timer_fires s)

pub data Reach (s : State) : State → Type 0 where
  here : Reach s s
  next : {t u : State} → Reach s t → Step t u → Reach s u

pub data Quiet (s : State) : State → Type 0 where
  here : Quiet s s
  next : {t u : State} → Quiet s t → Turn t u → Quiet s u
