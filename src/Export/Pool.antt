-- ===== src/Export/Pool.antt =====
-- app/api/library/export/route.ts of deedlit.dev.comfyhelper: the lanes that drain one queue of ids.
-- A lane runs alone from one answer to its next wait, and the answers come in any order.
use deedlit_dev.Base.{
  ℕ, zero, suc, ◌≡◌, Bool, true, false, Option, none, some, List, [], ◌∷◌, ◌++◌, leb, ◌==◌,
  if◌then◌else◌, length, Text, codes,
}
use deedlit_dev.Bulk.Delete.{Failure, blame}

-- What `getImage` gives: an image, a gateway's error with its status, another Error, or some other value thrown.
pub data Fetched (A : Type 0) : Type 0 where
  image : A → Fetched A
  gateway_error : ℕ → Text → Fetched A
  other_error : Text → Fetched A
  not_an_error : Fetched A

-- A lane waits for an image, or has found the queue empty.
pub record Pool (A : Type 0) : Type 0 where
  pub lanes : List (Option Text)
  pub queue : List Text
  pub images : List A
  pub errors : List Failure

abbrev pub max_lanes : ℕ
max_lanes = 6

-- `queue.shift()`.
abbrev pub shifted : List Text → Option Text
shifted [] = none
shifted (x ∷ xs) = some x

abbrev pub rest_of : List Text → List Text
rest_of [] = []
rest_of (x ∷ xs) = xs

module _ {A : Type 0} (fetch : Text → Fetched A) where
  -- What `fetchOne` pushes.
  abbrev pub image_of : Text → List A
  image_of id = elim (fetch id) [ image a ↦ a ∷ [] | other ↦ [] ]

  abbrev pub error_of : Text → List Failure
  error_of id = elim (fetch id) [
    | image a ↦ []
    | gateway_error status message ↦
        blame (if status == 404 then codes "Image not found." else message) id ∷ []
    | other_error message ↦ blame message id ∷ []
    | not_an_error ↦ blame (codes "Request failed") id ∷ []
  ]

  -- Each lane takes an id when it is made.
  unfoldable pub start_lanes : ℕ → Pool A → Pool A
  start_lanes zero p = p
  start_lanes (suc n) p =
      start_lanes n (record p { lanes = p.lanes ++ shifted p.queue ∷ []; queue = rest_of p.queue })

  unfoldable pub start : List Text → Pool A
  unfolding start_lanes
  start ids =
      start_lanes (if leb max_lanes (length ids) then max_lanes else length ids)
        (record { lanes = []; queue = ids; images = []; errors = [] })

  -- The answer to the lane that waits for `id`, between the others.
  unfoldable pub answer : List (Option Text) → Text → List (Option Text) → Pool A → Pool A
  answer before id after p = record {
    lanes = before ++ (shifted p.queue ∷ after);
    queue = rest_of p.queue;
    images = p.images ++ image_of id;
    errors = p.errors ++ error_of id;
  }

  -- A number of answers, in any order.
  pub data Run : ℕ → Pool A → Pool A → Type 0 where
    stay : {p : Pool A} → Run zero p p
    step :
        {n : ℕ} {p r : Pool A} (before : List (Option Text)) (id : Text)
        (after : List (Option Text))
        → p.lanes ≡ before ++ (some id ∷ after)
        → Run n (answer before id after p) r
        → Run (suc n) p r

-- The ids whose answers a run takes, in the order it takes them.
unfoldable pub answered :
    {A : Type 0} {fetch : Text → Fetched A} {n : ℕ} {p q : Pool A} → Run fetch n p q → List Text
answered stay = []
answered (step before id after e rest) = id ∷ answered rest

-- The ids that lanes wait for.
unfoldable pub in_flight : List (Option Text) → List Text
in_flight [] = []
in_flight (none ∷ lanes) = in_flight lanes
in_flight (some id ∷ lanes) = id ∷ in_flight lanes

unfoldable pub has_idle : List (Option Text) → Bool
has_idle [] = false
has_idle (none ∷ lanes) = true
has_idle (some id ∷ lanes) = has_idle lanes
