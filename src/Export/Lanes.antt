-- ===== src/Export/Lanes.antt =====
-- Every order of the answers exports every id once.
use deedlit_dev.Base.{
  ℕ, zero, suc, ◌+◌, ◌≤◌, ◌≡◌, refl, sym, ap, ◌∙◌, subst, true, ◌||◌, Option, none, some, List, [],
  ◌∷◌, ◌++◌, append_assoc, append-nil, arith, leb, ◌==◌, if◌then◌else◌, length, length-append, Text,
  codes,
}
use mathlib.Core.List.{Perm}
use mathlib.Core.List.Perm
use deedlit_dev.Bulk.Delete.{Failure, blame}
use deedlit_dev.Export.Pool.{
  Fetched, image, gateway_error, other_error, not_an_error, Pool, max_lanes, shifted, rest_of,
  image_of, error_of, start_lanes, start, answer, in_flight, has_idle,
}

pub in_flight-append :
    (xs ys : List (Option Text)) → in_flight (xs ++ ys) ≡ in_flight xs ++ in_flight ys
unfolding in_flight
in_flight-append [] ys = refl
in_flight-append (none ∷ xs) ys = in_flight-append xs ys
in_flight-append (some id ∷ xs) ys = ap (◌∷◌ id) (in_flight-append xs ys)

has_idle-append : (xs ys : List (Option Text)) → has_idle (xs ++ ys) ≡ (has_idle xs || has_idle ys)
unfolding has_idle
has_idle-append [] ys = refl
has_idle-append (none ∷ xs) ys = refl
has_idle-append (some id ∷ xs) ys = has_idle-append xs ys

perm_middle : (x : Text) (xs ys : List Text) → Perm (xs ++ (x ∷ ys)) (x ∷ (xs ++ ys))
perm_middle x [] ys = Perm.refl (x ∷ ys)
perm_middle x (y ∷ xs) ys =
    Perm.trans (Perm.cons y (perm_middle x xs ys)) (Perm.swap x y (xs ++ ys))

-- Moving `id` to the settled ones, and the next id of the queue to its lane.
pub taken_perm :
    (id : Text) (fb fa queue : List Text)
    → Perm
        (id ∷ ((fb ++ (in_flight (shifted queue ∷ []) ++ fa)) ++ rest_of queue))
        ((fb ++ (id ∷ fa)) ++ queue)
unfolding in_flight
taken_perm id fb fa [] = Perm.append_right [] (Perm.symm (perm_middle id fb fa))
taken_perm id fb fa (x ∷ q) =
    Perm.trans (Perm.cons id (Perm.append_right q (perm_middle x fb fa))) (
      Perm.trans (Perm.swap x id ((fb ++ fa) ++ q)) (
        Perm.trans (Perm.cons x (Perm.append_right q (Perm.symm (perm_middle id fb fa))))
          (Perm.symm (perm_middle x (fb ++ (id ∷ fa)) q))))

length-rest_of : (n : ℕ) (queue : List Text) → suc n ≤ length queue → n ≤ length (rest_of queue)
length-rest_of n [] h = absurd (omega arith)
length-rest_of n (x ∷ queue) h = omega arith

idle_after :
    (before : List (Option Text)) (id : Text) (after : List (Option Text)) (queue : List Text)
    → (has_idle (before ++ (some id ∷ after)) ≡ true → queue ≡ [])
    → has_idle (before ++ (shifted queue ∷ after)) ≡ true
    → rest_of queue ≡ []
unfolding has_idle
idle_after before id after [] v h = refl
idle_after before id after (x ∷ queue) v h =
    let same : has_idle (before ++ (some id ∷ after)) ≡ has_idle (before ++ (some x ∷ after)) =
      has_idle-append before (some id ∷ after) ∙ sym (has_idle-append before (some x ∷ after)) in
    ap rest_of (v (same ∙ h))

pub in_flight-lane :
    (before after : List (Option Text)) (l : Option Text)
    → in_flight (before ++ (l ∷ after))
      ≡ in_flight before ++ (in_flight (l ∷ []) ++ in_flight after)
in_flight-lane before after none = unfold in_flight in in_flight-append before (none ∷ after)
in_flight-lane before after (some id) =
    unfold in_flight in in_flight-append before (some id ∷ after)

module _ {A : Type 0} (fetch : Text → Fetched A) where
  -- What the ids give, in their order.
  unfoldable pub images_of : List Text → List A
  images_of [] = []
  images_of (id ∷ ids) = image_of fetch id ++ images_of ids

  unfoldable pub errors_of : List Text → List Failure
  errors_of [] = []
  errors_of (id ∷ ids) = error_of fetch id ++ errors_of ids

  images_of-append :
      (xs : List Text) (id : Text) → images_of (xs ++ id ∷ []) ≡ images_of xs ++ image_of fetch id
  unfolding images_of
  images_of-append [] id = append-nil (image_of fetch id)
  images_of-append (x ∷ xs) id =
      ap (◌++◌ (image_of fetch x)) (images_of-append xs id)
      ∙ sym (append_assoc (image_of fetch x) (images_of xs) (image_of fetch id))

  errors_of-append :
      (xs : List Text) (id : Text) → errors_of (xs ++ id ∷ []) ≡ errors_of xs ++ error_of fetch id
  unfolding errors_of
  errors_of-append [] id = append-nil (error_of fetch id)
  errors_of-append (x ∷ xs) id =
      ap (◌++◌ (error_of fetch x)) (errors_of-append xs id)
      ∙ sym (append_assoc (error_of fetch x) (errors_of xs) (error_of fetch id))

  pub counted_one : (id : Text) → length (image_of fetch id) + length (error_of fetch id) ≡ 1
  counted_one id = go (fetch id)
    where
      go :
          (f : Fetched A)
          → length {A = A} (elim f [ image a ↦ a ∷ [] | other ↦ [] ])
              + length {A = Failure} (elim f [
                | image a ↦ []
                | gateway_error status message ↦
                    blame (if status == 404 then codes "Image not found." else message) id ∷ []
                | other_error message ↦ blame message id ∷ []
                | not_an_error ↦ blame (codes "Request failed") id ∷ []
              ])
            ≡ 1
      go (image a) = refl
      go (gateway_error status message) = refl
      go (other_error message) = refl
      go not_an_error = refl

  pub counted : (xs : List Text) → length (images_of xs) + length (errors_of xs) ≡ length xs
  unfolding images_of errors_of
  counted [] = refl
  counted (x ∷ xs) = omega (
    arith,
    counted xs,
    counted_one x,
    length-append (image_of fetch x) (images_of xs),
    length-append (error_of fetch x) (errors_of xs),
  )

  -- The ids that are settled, in the order of their answers, with those in flight and those in the
  -- queue are the ids asked for; a lane is idle only where the queue is empty.
  pub record IsPool (ids settled : List Text) (p : Pool A) : Type 0 where
    pub all_ids : Perm (settled ++ (in_flight p.lanes ++ p.queue)) ids
    pub images_lem : p.images ≡ images_of settled
    pub errors_lem : p.errors ≡ errors_of settled
    pub idle : has_idle p.lanes ≡ true → p.queue ≡ []

  pub answer-IsPool :
      (ids settled : List Text) (before : List (Option Text)) (id : Text)
      (after : List (Option Text)) (p : Pool A)
      → p.lanes ≡ before ++ (some id ∷ after)
      → IsPool ids settled p
      → IsPool ids (settled ++ id ∷ []) (answer fetch before id after p)
  unfolding answer
  answer-IsPool ids settled before id after p e v =
      let fb = in_flight before in
      let fa = in_flight after in
      let new : List Text = in_flight (shifted p.queue ∷ []) in
      let now : in_flight (before ++ (shifted p.queue ∷ after)) ≡ fb ++ (new ++ fa) =
        in_flight-lane before after (shifted p.queue) in
      let was : in_flight p.lanes ≡ fb ++ (id ∷ fa) =
        ap in_flight e ∙ in_flight-lane before after (some id) ∙ (unfold in_flight in refl) in
      let all : Perm (settled ++ (id ∷ ((fb ++ (new ++ fa)) ++ rest_of p.queue))) ids =
        Perm.trans (Perm.append_left settled (taken_perm id fb fa p.queue))
          (subst (λ (f : List Text). Perm (settled ++ (f ++ p.queue)) ids) was v.all_ids) in
      record {
        all_ids =
            rw now
              (rw (append_assoc settled (id ∷ []) ((fb ++ (new ++ fa)) ++ rest_of p.queue)) all);
        images_lem =
            ap (λ (xs : List A). xs ++ image_of fetch id) v.images_lem
            ∙ sym (images_of-append settled id);
        errors_lem =
            ap (λ (xs : List Failure). xs ++ error_of fetch id) v.errors_lem
            ∙ sym (errors_of-append settled id);
        idle = idle_after before id after p.queue (λ h. v.idle (ap has_idle e ∙ h));
      }

  lane_added :
      (ids settled : List Text) (n : ℕ) (p : Pool A) (queue : List Text)
      → p.queue ≡ queue
      → suc n ≤ length queue
      → IsPool ids settled p
      → IsPool ids settled
          (record p { lanes = p.lanes ++ shifted queue ∷ []; queue = rest_of queue })
  lane_added ids settled n p [] e h v = absurd (omega arith)
  lane_added ids settled n p (x ∷ queue) e h v = record {
    all_ids =
        let now : in_flight (p.lanes ++ some x ∷ []) ≡ in_flight p.lanes ++ x ∷ [] =
          in_flight-append p.lanes (some x ∷ []) ∙ (unfold in_flight in refl) in
        rw now (
          rw (append_assoc (in_flight p.lanes) (x ∷ []) queue) (
            subst (λ (q : List Text). Perm (settled ++ (in_flight p.lanes ++ q)) ids) e v.all_ids));
    images_lem = v.images_lem;
    errors_lem = v.errors_lem;
    idle = λ h1.
        let was : has_idle p.lanes ≡ true =
          unfold has_idle in ground (arith, has_idle-append p.lanes (some x ∷ []), h1) in
        ap rest_of (sym e ∙ v.idle was);
  }

  start_lanes-IsPool :
      (ids settled : List Text) (n : ℕ) (p : Pool A)
      → n ≤ length p.queue
      → IsPool ids settled p
      → IsPool ids settled (start_lanes fetch n p)
  unfolding start_lanes
  start_lanes-IsPool ids settled zero p h v = v
  start_lanes-IsPool ids settled (suc n) p h v =
      start_lanes-IsPool ids settled n
        (record p { lanes = p.lanes ++ shifted p.queue ∷ []; queue = rest_of p.queue })
        (length-rest_of n p.queue h) (lane_added ids settled n p p.queue refl h v)

  pub start-IsPool : (ids : List Text) → IsPool ids [] (start fetch ids)
  unfolding start
  start-IsPool ids =
      start_lanes-IsPool ids [] (if leb max_lanes (length ids) then max_lanes else length ids)
        (record { lanes = []; queue = ids; images = []; errors = [] }) (ground arith)
        (record {
          all_ids = unfold in_flight in Perm.refl ids;
          images_lem = unfold images_of in refl;
          errors_lem = unfold errors_of in refl;
          idle = λ h. absurd (unfold has_idle in ground (arith, h));
        })
