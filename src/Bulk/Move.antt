-- ===== src/Bulk/Move.antt =====
-- app/api/library/images/move/route.ts of deedlit.dev.comfyhelper: the move of files, one after the
-- other. Paths, `rename` and the JSON of the body are parameters. The record of an image is any JSON
-- whose conversion to a text does not throw.
use deedlit_dev.Base.{
  ℕ, suc, ◌+◌, ◌≡◌, refl, ap, ◌∙◌, ◌⊎◌, inl, inr, Bool, true, false, ◌||◌, if◌then◌else◌,
  Bool-cases, Option, none, some, List, [], ◌∷◌, ◌++◌, map, arith, or_else, or_option, length,
  length-append, Text, codes, text_eq, has, trim,
}
use deedlit_dev.Json.{Json, null, str, arr, Items, nil, cons, prop, as_string}
use deedlit_dev.Bulk.Delete.{Failure, blame}
use deedlit_dev.Gateway.{Runtime, Thrown, gateway_error, other_error, get_image}

abbrev pub non_empty_text : Option Text → Option Text
non_empty_text none = none
non_empty_text (some []) = none
non_empty_text (some (c ∷ s)) = some (c ∷ s)

-- `str(image.filepath) ?? str(image.filePath) ?? str(image.file_path) ?? ""`.
unfoldable pub file_path_of : Json → Text
unfolding prop as_string
file_path_of image =
    let read = λ (k : Text). non_empty_text (as_string (prop k image)) in
    or_else
      (or_option (read (codes "filepath"))
        (or_option (read (codes "filePath")) (read (codes "file_path"))))
      []

-- Reading `r.kind` throws where an entry is `null`.
unfoldable pub has_null : Items → Bool
has_null nil = false
has_null (cons null items) = true
has_null (cons _ items) = has_null items

-- `(image.references ?? []).find(…)` and `.filter(…)` throw.
unfoldable pub references_throw : Option Json → Bool
unfolding has_null
references_throw none = false
references_throw (some null) = false
references_throw (some (arr items)) = has_null items
references_throw (some _) = true

-- `(image.tags ?? []).map(…)` throws.
unfoldable pub tags_throw : Option Json → Bool
tags_throw none = false
tags_throw (some null) = false
tags_throw (some (arr items)) = false
tags_throw (some _) = true

-- `image.sha256.slice(0, 12)` throws.
unfoldable pub slice_throws : Option Json → Bool
slice_throws (some (str sha256)) = false
slice_throws (some (arr items)) = false
slice_throws _ = true

-- `imageToUiDetail(image)` throws.
unfoldable pub detail_throws : Json → Bool
unfolding references_throw tags_throw slice_throws prop as_string
detail_throws null = true
detail_throws image =
    references_throw (prop (codes "references") image)
    || elim (file_path_of image) [
      | [] ↦ elim (non_empty_text (as_string (prop (codes "filename") image))) [
        | none ↦ slice_throws (prop (codes "sha256") image)
        | some name ↦ false
      ]
      | c ∷ path ↦ false
    ]
    || tags_throw (prop (codes "tags") image)

-- What `rename` comes to: it may throw an error with a message, or some other value.
pub data Renaming : Type 0 where
  done : Renaming
  threw : Text → Renaming
  not_an_error : Renaming

-- The file system `W`, `path.join` and `path.basename`, and the messages of the errors that
-- `imageToUiDetail` throws on `undefined` and on a record of a shape that it does not expect.
pub record Files (W : Type 0) : Type 0 where
  pub rename : Text → Text → W → Renaming × W
  pub path_join : Text → Text → Text
  pub basename : Text → Text
  pub no_value : Text
  pub type_error : Json → Text

pub record MoveResult : Type 0 where
  pub moved : List Text
  pub failed : List Failure

abbrev pub move_fails : Text → Text → MoveResult → MoveResult
move_fails image_id error r = record r { failed = r.failed ++ blame error image_id ∷ [] }

abbrev pub thrown_message : Thrown → Text
thrown_message (gateway_error message status) = message
thrown_message (other_error message) = message

abbrev pub renamed : {W : Type 0} → Text → MoveResult → Renaming × W → MoveResult × W
renamed image_id r (done, w) = (record r { moved = r.moved ++ image_id ∷ [] }, w)
renamed image_id r (threw message, w) = (move_fails image_id message r, w)
renamed image_id r (not_an_error, w) = (move_fails image_id (codes "Unknown error.") r, w)

module _ {W : Type 0} (runtime : Runtime) (files : Files W) (target : Text) where
  abbrev pub move_path : Text → Text → MoveResult → W → MoveResult × W
  move_path image_id [] r w = (move_fails image_id (codes "No file path in catalog.") r, w)
  move_path image_id (c ∷ path) r w =
      renamed image_id r
        (files.rename (c ∷ path) (files.path_join (trim target) (files.basename (c ∷ path))) w)

  abbrev pub move_found : Text → Thrown ⊎ Option Json → MoveResult → W → MoveResult × W
  move_found image_id (inl e) r w = (move_fails image_id (thrown_message e) r, w)
  move_found image_id (inr none) r w = (move_fails image_id files.no_value r, w)
  move_found image_id (inr (some image)) r w =
      if detail_throws image
      then (move_fails image_id (files.type_error image) r, w)
      else move_path image_id (file_path_of image) r w

  -- The loop over the ids.
  unfoldable pub move_all : List Text → MoveResult → W → MoveResult × W
  unfolding file_path_of detail_throws trim
  move_all [] r w = (r, w)
  move_all (image_id ∷ ids) r w =
      let (next, v) = move_found image_id (get_image runtime image_id true) r w in
      move_all ids next v

  pub data Answer : Type 0 where
    json_ok : MoveResult → Answer
    json_error : Text → ℕ → Answer

  abbrev pub answer_of : MoveResult × W → Answer × W
  answer_of (r, w) = (json_ok r, w)

  -- POST; ids that are no array count as none here, and both are refused.
  unfoldable pub move_route : List Text → W → Answer × W
  unfolding move_all trim
  move_route [] w = (json_error (codes "imageIds required.") 400, w)
  move_route (id ∷ ids) w = elim (trim target) [
    | [] ↦ (json_error (codes "targetFolder required.") 400, w)
    | c ∷ folder ↦ answer_of (move_all (id ∷ ids) (record { moved = []; failed = [] }) w)
  ]

  abbrev pub settled : MoveResult → ℕ
  settled r = length r.moved + length r.failed

  abbrev pub failed_ids : MoveResult → List Text
  failed_ids r = map (λ (f : Failure). f.id) r.failed

-- Whether an id is reported, as moved or as failed.
abbrev pub is_reported : Text → MoveResult → Bool
is_reported a r = has a r.moved || has a (map (λ (f : Failure). f.id) r.failed)

has-snoc : (a : Text) (xs : List Text) (b : Text) → has a (xs ++ b ∷ []) ≡ (has a xs || text_eq a b)
unfolding has
has-snoc a [] b = ground arith
has-snoc a (x ∷ xs) b = ground (arith, has-snoc a xs b)

map-snoc :
    (xs : List Failure) (f : Failure)
    → map (λ (g : Failure). g.id) (xs ++ f ∷ []) ≡ map (λ (g : Failure). g.id) xs ++ f.id ∷ []
map-snoc [] f = refl
map-snoc (x ∷ xs) f = ap (◌∷◌ x.id) (map-snoc xs f)

-- One more report, of that id.
abbrev Adds : Text → MoveResult → MoveResult → Type 0
Adds id r next =
    ((a : Text) → is_reported a next ≡ (is_reported a r || text_eq a id))
    × (length next.moved + length next.failed ≡ suc (length r.moved + length r.failed))

move_fails-Adds : (id error : Text) (r : MoveResult) → Adds id r (move_fails id error r)
move_fails-Adds id error r = (
  λ a. ground (
    arith,
    map-snoc r.failed (blame error id),
    has-snoc a (map (λ (g : Failure). g.id) r.failed) id,
  ),
  omega (arith, length-append r.failed (blame error id ∷ [])),
)

renamed-Adds :
    {W : Type 0} (id : Text) (r : MoveResult) (out : Renaming × W) → Adds id r (renamed id r out).0
renamed-Adds id r (done, w) =
    (λ a. ground (arith, has-snoc a r.moved id), omega (arith, length-append r.moved (id ∷ [])))
renamed-Adds id r (threw message, w) = move_fails-Adds id message r
renamed-Adds id r (not_an_error, w) = move_fails-Adds id (codes "Unknown error.") r

module _ {W : Type 0} (runtime : Runtime) (files : Files W) (target : Text) where
  move_path-Adds :
      (id path : Text) (r : MoveResult) (w : W)
      → Adds id r (move_path runtime files target id path r w).0
  move_path-Adds id [] r w = move_fails-Adds id (codes "No file path in catalog.") r
  move_path-Adds id (c ∷ path) r w =
      renamed-Adds id r
        (files.rename (c ∷ path) (files.path_join (trim target) (files.basename (c ∷ path))) w)

  move_found-Adds :
      (id : Text) (found : Thrown ⊎ Option Json) (r : MoveResult) (w : W)
      → Adds id r (move_found runtime files target id found r w).0
  move_found-Adds id (inl e) r w = move_fails-Adds id (thrown_message e) r
  move_found-Adds id (inr none) r w = move_fails-Adds id files.no_value r
  move_found-Adds id (inr (some image)) r w = elim (Bool-cases (detail_throws image)) [
    | inl e ↦ rw e (move_fails-Adds id (files.type_error image) r)
    | inr e ↦ rw e (move_path-Adds id (file_path_of image) r w)
  ]

  -- Whatever the gateway and the file system do, each id asked for is reported, as moved or as failed,
  -- and no other, and there are as many reports as ids.
  pub move_all-reported :
      (ids : List Text) (r : MoveResult) (w : W) (a : Text)
      → let next = (move_all runtime files target ids r w).0 in
        (is_reported a next ≡ (is_reported a r || has a ids))
        × (length next.moved + length next.failed ≡ (length r.moved + length r.failed) + length ids)
  unfolding move_all has
  move_all-reported [] r w a = (ground arith, omega arith)
  move_all-reported (id ∷ ids) r w a =
      let step = move_found runtime files target id (get_image runtime id true) r w in
      let (report, count) = move_found-Adds id (get_image runtime id true) r w in
      let (later, more) = move_all-reported ids step.0 step.1 a in
      (later ∙ ground (arith, report a), omega (arith, more, count))
