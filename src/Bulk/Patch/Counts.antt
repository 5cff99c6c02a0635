-- ===== src/Bulk/Patch/Counts.antt =====
-- Every reply moves one id from the awaited to the reported.
use deedlit_dev.Base.{
  ℕ, zero, suc, ◌+◌, ◌≡◌, refl, ap, ◌∙◌, Option, some, List, [], ◌∷◌, ◌++◌, map, arith, length,
  take, drop, get_elem?, filter, length-append, take-append-drop, filter-append, Text, text_eq,
}
use deedlit_dev.Bulk.Delete.{Failure, http_error, thrown_error}
use deedlit_dev.Bulk.Patch.{
  Patch, Reply, accepted, refused, broke, BulkPatchOutcome, State, lanes, record_reply, start,
  settle, Reach, here, next, count, ids, reported,
}
use mathlib.Core.List.{map-append}

count-append : (a : Text) (xs ys : List Text) → count a (xs ++ ys) ≡ count a xs + count a ys
count-append a xs ys =
    ap length (filter-append (text_eq a) xs ys)
    ∙ length-append (filter (text_eq a) xs) (filter (text_eq a) ys)

count_failures :
    (a : Text) (xs ys : List Failure)
    → count a (map (λ f. f.id) (xs ++ ys))
      ≡ count a (map (λ f. f.id) xs) + count a (map (λ f. f.id) ys)
count_failures a xs ys =
    ap (count a) (map-append (λ f. f.id) xs ys)
    ∙ count-append a (map (λ f. f.id) xs) (map (λ f. f.id) ys)

count-ids :
    (a : Text) (xs ys : List Patch) → count a (ids (xs ++ ys)) ≡ count a (ids xs) + count a (ids ys)
count-ids a xs ys = ap (count a) (map-append (λ p. p.id) xs ys) ∙ count-append a (ids xs) (ids ys)

count-reported :
    (a : Text) (o : BulkPatchOutcome)
    → count a (reported o) ≡ count a o.updated + count a (map (λ f. f.id) o.failed)
count-reported a o = count-append a o.updated (map (λ f. f.id) o.failed)

one_failed :
    (a error id : Text) (o : BulkPatchOutcome)
    → let f : Failure = record { id = id; error = error } in
      count a (reported (record o { failed = o.failed ++ f ∷ [] }))
      ≡ count a (reported o) + count a (id ∷ [])
one_failed a error id o =
    let f : Failure = record { id = id; error = error } in
    omega (
      arith,
      count-reported a o,
      count-reported a (record o { failed = o.failed ++ f ∷ [] }),
      count_failures a o.failed (f ∷ []),
    )

-- One more report of an id.
record_reply-reported :
    (print : ℕ → Text) (a id : Text) (reply : Reply) (o : BulkPatchOutcome)
    → count a (reported (record_reply print id reply o)) ≡ count a (reported o) + count a (id ∷ [])
unfolding record_reply
record_reply-reported print a id accepted o = omega (
  arith,
  count-reported a o,
  count-reported a (record o { updated = o.updated ++ id ∷ [] }),
  count-append a o.updated (id ∷ []),
)
record_reply-reported print a id (refused status e) o =
    one_failed a (http_error print status e) id o
record_reply-reported print a id (broke e) o = one_failed a (thrown_error e) id o

-- All ids of a state: reported, awaited and queued.
abbrev pub total : Text → State → ℕ
total a s = count a (reported s.outcome) + (count a (ids s.busy) + count a (ids s.queue))

busy_split :
    (a : Text) (busy : List Patch) (i : ℕ) (p : Patch)
    → get_elem? busy i ≡ some p
    → count a (ids busy)
      ≡ count a (ids (take i busy)) + (count a (p.id ∷ []) + count a (ids (drop (i + 1) busy)))
busy_split a [] i p h = cc
busy_split a (q ∷ busy) zero p h =
    let e : p.id ≡ q.id = ground arith in
    rw e (omega (arith, count-append a (q.id ∷ []) (ids busy)))
busy_split a (q ∷ busy) (suc i) p h =
    let on : suc i + 1 ≡ suc (i + 1) = omega arith in
    rw on (
      omega (
        arith,
        busy_split a busy i p h,
        count-append a (q.id ∷ []) (ids busy),
        count-append a (q.id ∷ []) (ids (take i busy)),
      ))

settle-total :
    (print : ℕ → Text) (a : Text) (i : ℕ) (p : Patch) (reply : Reply) (s : State)
    → get_elem? s.busy i ≡ some p
    → total a (settle print i p reply s) ≡ total a s
unfolding settle
settle-total print a i p reply s h = omega (
  arith,
  record_reply-reported print a p.id reply s.outcome,
  busy_split a s.busy i p h,
  count-ids a (take i s.busy) (take 1 s.queue ++ drop (i + 1) s.busy),
  count-ids a (take 1 s.queue) (drop (i + 1) s.busy),
  count-ids a (take 1 s.queue) (drop 1 s.queue),
  ap (λ q. count a (ids q)) (take-append-drop 1 s.queue),
)

pub start-total :
    (a : Text) (concurrency : Option ℕ) (patches : List Patch)
    → total a (start concurrency patches) ≡ count a (ids patches)
unfolding start
start-total a concurrency patches =
    let n = lanes concurrency (length patches) in
    omega (
      arith,
      count-ids a (take n patches) (drop n patches),
      ap (λ q. count a (ids q)) (take-append-drop n patches),
    )

pub Reach-total :
    (print : ℕ → Text) (a : Text) (s : State) {n : ℕ} {t : State}
    → Reach print s n t
    → total a t ≡ total a s
Reach-total print a s here = refl
Reach-total print a s (next {t = t} i p reply r h) =
    settle-total print a i p reply t h ∙ Reach-total print a s r
