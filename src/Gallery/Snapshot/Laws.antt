-- ===== src/Gallery/Snapshot/Laws.antt =====
-- What callers may rely on.
use deedlit_dev.Base.{
  ℕ, ◌-◌, ◌≤◌, ◌≡◌, refl, ◌≢◌, ◌⊎◌, inl, inr, Bool, true, none, some, List, [], ◌∷◌, arith,
  Bool-cases, Option-cases, length,
}
use deedlit_dev.Gallery.Snapshot.{
  State, IndexedSnapshot, cached, awaits, initial, snapshot_ttl_ms, get_snapshot, schedule_refresh,
  timer_fires, scan_done, scan_failed, runs, remove_scan, is_fresh, Turn, asked, file_changed,
  watcher_error, done, failed, Step, turn, fires, Reach, Quiet,
}

-- A snapshot that is handed out from the cache is the stored one, and at most ten seconds old.
pub get_snapshot_fresh :
    (starts : Bool) (now : ℕ) (s : State) (snap : IndexedSnapshot)
    → (get_snapshot starts now s).1 ≡ cached snap
    → (s.snapshot ≡ some snap) × (now - snap.refreshed_at ≤ snapshot_ttl_ms) × (s.refreshing ≡ none)
unfolding get_snapshot
get_snapshot_fresh starts now s snap h = ground arith

-- A caller that waits, waits for a scan that runs.
pub record Inv (s : State) : Type 0 where
  pub awaited : (job : ℕ) → s.refreshing ≡ some job → runs job s.scans ≡ true

runs-cons : (job : ℕ) (scans : List ℕ) → runs job (job ∷ scans) ≡ true
runs-cons job scans = ground arith

get_snapshot-Inv : (starts : Bool) (now : ℕ) (s : State) → Inv s → Inv (get_snapshot starts now s).0
unfolding get_snapshot
get_snapshot-Inv starts now s v = record {
  awaited = λ job e. ground (arith, v.awaited job, runs-cons s.next s.scans);
}

Turn-Inv : {s t : State} → Turn s t → Inv s → Inv t
Turn-Inv (asked starts now {s}) v = get_snapshot-Inv starts now s v
Turn-Inv (file_changed h) v = unfold schedule_refresh in record { awaited = v.awaited }
Turn-Inv watcher_error v = record { awaited = v.awaited }
Turn-Inv (done job images now h) v = unfold scan_done in record { awaited = λ k e. cc }
Turn-Inv (failed job h) v = unfold scan_failed in record { awaited = λ k e. cc }

Step-Inv : {s t : State} → Step s t → Inv s → Inv t
Step-Inv (turn t) v = Turn-Inv t v
Step-Inv (fires {s} h) v =
    unfold timer_fires in record { awaited = λ job e. ground (arith, runs-cons s.next s.scans) }

Reach-Inv : {s t : State} → Inv s → Reach s t → Inv t
Reach-Inv v Reach.here = v
Reach-Inv v (Reach.next r st) = Step-Inv st (Reach-Inv v r)

initial-Inv : Inv initial
initial-Inv = record { awaited = λ job e. cc }

awaits-refreshing :
    (starts : Bool) (now job : ℕ) (s : State)
    → (get_snapshot starts now s).1 ≡ awaits job
    → (get_snapshot starts now s).0.refreshing ≡ some job
unfolding get_snapshot
awaits-refreshing starts now job s h = ground arith

-- After any history, whoever is told to wait waits for a scan that is still running, so no caller
-- is left with a promise that was settled before.
pub get_snapshot-awaits :
    {s : State} (starts : Bool) (now job : ℕ)
    → Reach initial s
    → (get_snapshot starts now s).1 ≡ awaits job
    → runs job (get_snapshot starts now s).0.scans ≡ true
get_snapshot-awaits {s} starts now job r h =
    let v = get_snapshot-Inv starts now s (Reach-Inv initial-Inv r) in
    v.awaited job (awaits-refreshing starts now job s h)

-- At most one scan runs, and it is the one that callers wait for.
abbrev IsSingle : State → Type 0
IsSingle s =
    ((s.scans ≡ []) × (s.refreshing ≡ none))
    ⊎ ((job : ℕ) × (s.scans ≡ job ∷ []) × (s.refreshing ≡ some job))

get_snapshot-IsSingle :
    (starts : Bool) (now : ℕ) (s : State) → IsSingle s → IsSingle (get_snapshot starts now s).0
unfolding get_snapshot
get_snapshot-IsSingle starts now s (inl (e, f)) = elim (Option-cases s.snapshot) [
  | inl n ↦ inr (s.next, ground arith, ground arith)
  | inr (snap, n) ↦ elim (Bool-cases (is_fresh now (some snap))) [
    | inl fresh ↦ inl (ground arith, ground arith)
    | inr stale ↦ inr (s.next, ground arith, ground arith)
  ]
]
get_snapshot-IsSingle starts now s (inr (job, e, f)) = inr (job, ground arith, ground arith)

remove_scan-single : (job k : ℕ) → runs job (k ∷ []) ≡ true → remove_scan job (k ∷ []) ≡ []
remove_scan-single job k h = ground arith

Turn-IsSingle : {s t : State} → Turn s t → IsSingle s → IsSingle t
Turn-IsSingle (asked starts now {s}) v = get_snapshot-IsSingle starts now s v
Turn-IsSingle (file_changed h) v = unfold schedule_refresh in v
Turn-IsSingle watcher_error v = v
Turn-IsSingle (done job images now {s} h) (inl (e, f)) = cc (rw e at h)
Turn-IsSingle (done job images now {s} h) (inr (k, e, f)) =
    inl (unfold scan_done in (rw e (remove_scan-single job k (rw e at h)), refl))
Turn-IsSingle (failed job {s} h) (inl (e, f)) = cc (rw e at h)
Turn-IsSingle (failed job {s} h) (inr (k, e, f)) =
    inl (unfold scan_failed in (rw e (remove_scan-single job k (rw e at h)), refl))

Quiet-IsSingle : {s t : State} → IsSingle s → Quiet s t → IsSingle t
Quiet-IsSingle v Quiet.here = v
Quiet-IsSingle v (Quiet.next r st) = Turn-IsSingle st (Quiet-IsSingle v r)

-- In a history in which no refresh timer fires, at most one scan runs at any time.
pub Quiet-single : {s : State} → Quiet initial s → length s.scans ≤ 1
Quiet-single {s} r = elim (Quiet-IsSingle (inl (refl, refl)) r) [
  | inl (e, f) ↦ rw e (omega arith)
  | inr (job, e, f) ↦ rw e (omega arith)
]

-- A refresh timer breaks this: where it fires while the first scan runs and that scan then fails,
-- its `finally` forgets the timer's scan, and the next caller starts another beside it.
pub timer_fires_doubles :
    (s : State) (starts : Bool) (now job : ℕ)
    → s.snapshot ≡ none
    → s.scans ≡ job ∷ []
    → job ≢ s.next
    → length (get_snapshot starts now (scan_failed job (timer_fires s))).0.scans ≡ 2
unfolding get_snapshot scan_failed timer_fires
timer_fires_doubles s starts now job e f ne = ground arith
