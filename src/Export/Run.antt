-- ===== src/Export/Run.antt =====
-- The export's run: how many answers it takes, and what it ends with.
use deedlit_dev.Base.{
  ℕ, zero, suc, ◌+◌, ◌≤◌, ◌≡◌, refl, sym, ap, ◌∙◌, subst, ◌≢◌, ◌⊎◌, inl, inr, true, Option, none,
  some, List, [], ◌∷◌, ◌++◌, append_assoc, append-nil, arith, leb, if◌then◌else◌, length,
  length-append, Text,
}
use mathlib.Core.List.{Perm}
use deedlit_dev.Export.Pool.{
  Fetched, Pool, image_of, error_of, max_lanes, shifted, rest_of, start_lanes, start, answer, Run,
  stay, step, answered, in_flight, has_idle,
}
use deedlit_dev.Export.Lanes.{
  images_of, errors_of, counted_one, IsPool, in_flight-append, in_flight-lane, answer-IsPool,
  start-IsPool,
}

-- Where there is no lane there is nothing to fetch.
abbrev Manned : {A : Type 0} → Pool A → Type 0
Manned p = p.lanes ≡ [] → p.queue ≡ []

-- The ids still to be settled.
abbrev pub waiting : {A : Type 0} → Pool A → ℕ
waiting p = length (in_flight p.lanes) + length p.queue

cons_not_nil : (before after : List (Option Text)) (l : Option Text) → before ++ (l ∷ after) ≢ []
cons_not_nil [] after l h = cc
cons_not_nil (b ∷ before) after l h = cc

drained :
    (lanes : List (Option Text)) → in_flight lanes ≡ [] → (has_idle lanes ≡ true) ⊎ (lanes ≡ [])
unfolding in_flight has_idle
drained [] h = inr refl
drained (none ∷ lanes) h = inl refl
drained (some id ∷ lanes) h = absurd (ground (arith, h))

length-shifted :
    (queue : List Text)
    → length (in_flight (shifted queue ∷ [])) + length (rest_of queue) ≡ length queue
unfolding in_flight
length-shifted [] = refl
length-shifted (x ∷ queue) = omega arith

module _ {A : Type 0} (fetch : Text → Fetched A) where
  start_lanes-Manned : (n : ℕ) (p : Pool A) → Manned p → Manned (start_lanes fetch n p)
  unfolding start_lanes
  start_lanes-Manned zero p m = m
  start_lanes-Manned (suc n) p m =
      start_lanes-Manned n
        (record p { lanes = p.lanes ++ shifted p.queue ∷ []; queue = rest_of p.queue })
        (λ h. absurd (cons_not_nil p.lanes [] (shifted p.queue) h))

  some_lanes-Manned : (n : ℕ) (p : Pool A) → 1 ≤ n → Manned (start_lanes fetch n p)
  unfolding start_lanes
  some_lanes-Manned zero p h = absurd (omega arith)
  some_lanes-Manned (suc n) p h =
      start_lanes-Manned n
        (record p { lanes = p.lanes ++ shifted p.queue ∷ []; queue = rest_of p.queue })
        (λ k. absurd (cons_not_nil p.lanes [] (shifted p.queue) k))

  start-Manned : (ids : List Text) → Manned (start fetch ids)
  unfolding start
  start-Manned [] = unfold start_lanes in (λ h. refl)
  start-Manned (x ∷ ids) =
      some_lanes-Manned (if leb max_lanes (suc (length ids)) then max_lanes else suc (length ids))
        (record { lanes = []; queue = x ∷ ids; images = []; errors = [] }) (ground arith)

  answer-waiting :
      (before : List (Option Text)) (id : Text) (after : List (Option Text)) (p : Pool A)
      → p.lanes ≡ before ++ (some id ∷ after)
      → waiting p ≡ suc (waiting (answer fetch before id after p))
  unfolding answer
  answer-waiting before id after p e =
      let now =
        ap (λ (xs : List Text). length xs) (in_flight-lane before after (shifted p.queue)) in
      let was =
        ap (λ (xs : List Text). length xs)
          (ap in_flight e ∙ in_flight-lane before after (some id)) in
      unfold in_flight in
      omega (
        arith,
        now,
        was,
        length-shifted p.queue,
        length-append (in_flight before) (in_flight (some id ∷ []) ++ in_flight after),
        length-append (in_flight (some id ∷ [])) (in_flight after),
        length-append (in_flight before) (in_flight (shifted p.queue ∷ []) ++ in_flight after),
        length-append (in_flight (shifted p.queue ∷ [])) (in_flight after),
      )

  answer-count :
      (before : List (Option Text)) (id : Text) (after : List (Option Text)) (p : Pool A)
      → let q = answer fetch before id after p in
        length q.images + length q.errors ≡ suc (length p.images + length p.errors)
  unfolding answer
  answer-count before id after p = omega (
    arith,
    counted_one fetch id,
    length-append p.images (image_of fetch id),
    length-append p.errors (error_of fetch id),
  )

  run_lem :
      (ids : List Text) (n : ℕ) (p r : Pool A) (settled : List Text) (run : Run fetch n p r)
      → IsPool fetch ids settled p
      → Manned p
      → IsPool fetch ids (settled ++ answered run) r
        × Manned r
        × (n + waiting r ≡ waiting p)
        × (length r.images + length r.errors ≡ n + (length p.images + length p.errors))
  unfolding answered
  run_lem ids n p r settled stay v m = (rw (append-nil settled) v, m, omega arith, omega arith)
  run_lem ids n p r settled (step {n = m} before id after e rest) v manned =
      let (w, manned1, k, c) =
        run_lem ids m (answer fetch before id after p) r (settled ++ id ∷ []) rest
          (answer-IsPool fetch ids settled before id after p e v)
          (unfold answer in (λ h. absurd (cons_not_nil before after (shifted p.queue) h))) in
      (
        rw (sym (append_assoc settled (id ∷ []) (answered rest))) w,
        manned1,
        omega (arith, k, answer-waiting before id after p e),
        omega (arith, c, answer-count before id after p),
      )

  start_lanes-waiting :
      (n : ℕ) (p : Pool A)
      → (waiting (start_lanes fetch n p) ≡ waiting p)
        × (length (start_lanes fetch n p).images + length (start_lanes fetch n p).errors
            ≡ length p.images + length p.errors)
  unfolding start_lanes
  start_lanes-waiting zero p = (refl, refl)
  start_lanes-waiting (suc n) p =
      let q : Pool A = record p {
        lanes = p.lanes ++ shifted p.queue ∷ [];
        queue = rest_of p.queue;
      } in
      let (w, c) = start_lanes-waiting n q in
      let now =
        ap (λ (xs : List Text). length xs) (in_flight-append p.lanes (shifted p.queue ∷ [])) in
      (
        omega (
          arith,
          w,
          now,
          length-shifted p.queue,
          length-append (in_flight p.lanes) (in_flight (shifted p.queue ∷ [])),
        ),
        c,
      )

  start-waiting :
      (ids : List Text)
      → (waiting (start fetch ids) ≡ length ids)
        × (length (start fetch ids).images + length (start fetch ids).errors ≡ 0)
  unfolding start in_flight
  start-waiting ids =
      let (w, c) =
        start_lanes-waiting (if leb max_lanes (length ids) then max_lanes else length ids)
          (record { lanes = []; queue = ids; images = []; errors = [] }) in
      (omega (arith, w), c)

  -- Whatever the order in which a run takes its answers: where it has come to its end, the ids that it took answers
  -- for are the ids asked for, each as often, its images and errors are what those ids give in the order of the
  -- answers, it took as many answers as there are ids, and the images and errors together are as many.
  pub Run-exports :
      (ids : List Text) (n : ℕ) (p : Pool A) (run : Run fetch n (start fetch ids) p)
      → in_flight p.lanes ≡ []
      → Perm (answered run) ids
        × (p.images ≡ images_of fetch (answered run))
        × (p.errors ≡ errors_of fetch (answered run))
        × (n ≡ length ids)
        × (length p.images + length p.errors ≡ length ids)
  Run-exports ids n p run done =
      let (v, manned, k, c) =
        run_lem ids n (start fetch ids) p [] run (start-IsPool fetch ids) (start-Manned ids) in
      let empty : p.queue ≡ [] = elim (drained p.lanes done) [
        | inl i ↦ v.idle i
        | inr m ↦ manned m
      ] in
      let all : Perm (answered run ++ []) ids =
        subst (λ (q : List Text). Perm (answered run ++ q) ids)
          (ap (λ (q : List Text). in_flight p.lanes ++ q) empty
            ∙ ap (λ (f : List Text). f ++ []) done)
          v.all_ids in
      let drained_now : waiting p ≡ 0 = omega (
        arith,
        ap (λ (xs : List Text). length xs) done,
        ap (λ (xs : List Text). length xs) empty,
      ) in
      let (w, z) = start-waiting ids in
      (
        rw (sym (append-nil (answered run))) all,
        v.images_lem,
        v.errors_lem,
        omega (arith, k, w, drained_now),
        omega (arith, k, w, drained_now, c, z),
      )

  lane_waiting :
      (lanes : List (Option Text))
      → (in_flight lanes ≡ [])
        ⊎ ((before : List (Option Text)) × (id : Text) × (after : List (Option Text)) × (lanes
              ≡ before ++ (some id ∷ after)))
  lane_waiting [] = inl (unfold in_flight in refl)
  lane_waiting (some id ∷ lanes) = inr ([], id, lanes, refl)
  lane_waiting (none ∷ lanes) = elim (lane_waiting lanes) [
    | inl e ↦ inl (unfold in_flight in e)
    | inr (before, id, after, e) ↦ inr (none ∷ before, id, after, ap (◌∷◌ none) e)
  ]

  -- Every run is bounded by the number of ids, and goes on until no lane waits: the next answer of
  -- any waiting lane is a step.
  pub Run-bounded :
      (ids : List Text) (n : ℕ) (p : Pool A)
      → Run fetch n (start fetch ids) p
      → (n ≤ length ids) × ((in_flight p.lanes ≡ []) ⊎ ((q : Pool A) × Run fetch 1 p q))
  Run-bounded ids n p run =
      let (v, manned, k, c) =
        run_lem ids n (start fetch ids) p [] run (start-IsPool fetch ids) (start-Manned ids) in
      let (w, z) = start-waiting ids in
      (
        omega (arith, k, w),
        elim (lane_waiting p.lanes) [
          | inl e ↦ inl e
          | inr (before, id, after, e) ↦
              inr (answer fetch before id after p, step before id after e stay)
        ],
      )
