-- ===== src/Activity/Normalize.antt =====
-- `normalizeJob`, `errorMessage` and `extractError` of activity-jobs.ts, over JSON values.
use deedlit_dev.Base.{
  ℕ, ◌+◌, ◌≡◌, refl, ap, ◌≢◌, Bool, true, false, not, ◌&&◌, Option, none, some, List, [], ◌∷◌, ◌++◌,
  arith, if◌then◌else◌, or_else, All, Text, codes, text_eq, has, trim,
}
use deedlit_dev.Base.Decimal.{show}
use deedlit_dev.Json.{
  Json, null, num, str, arr, obj, Items, nil, cons, Fields, end, field, prop, nullish, as_string,
}
use deedlit_dev.Activity.{Number, JobSnapshot}

-- `Number.isFinite` of a number, by its text.
unfoldable pub is_finite : Number → Bool
is_finite n = not (has n (codes "Infinity" ∷ codes "-Infinity" ∷ codes "NaN" ∷ []))

-- An array's entries have the indices for keys.
unfoldable pub item_entries : ℕ → Items → List (Text × Json)
item_entries i nil = []
item_entries i (cons v vs) = (show i, v) ∷ item_entries (i + 1) vs

unfoldable pub field_entries : Fields → List (Text × Json)
field_entries end = []
field_entries (field k v fs) = (k, v) ∷ field_entries fs

-- `Object.entries(v)` of an object or an array.
unfoldable pub entries : Json → List (Text × Json)
unfolding item_entries field_entries
entries (obj fs) = field_entries fs
entries (arr items) = item_entries 0 items
entries _ = []

-- The entries that are finite numbers. An assignment to `__proto__` of a number does nothing.
unfoldable pub stage_count_entries : List (Text × Json) → List (Text × Number)
stage_count_entries [] = []
stage_count_entries ((k, num n) ∷ rest) =
    if is_finite n && not (text_eq k (codes "__proto__"))
    then (k, n) ∷ stage_count_entries rest
    else stage_count_entries rest
stage_count_entries ((k, v) ∷ rest) = stage_count_entries rest

unfoldable pub stage_count_map : Option Json → List (Text × Number)
unfolding stage_count_entries entries
stage_count_map none = []
stage_count_map (some v) = stage_count_entries (entries v)

unfoldable pub number_or_zero : Option Json → Number
number_or_zero (some (num n)) = if is_finite n then n else codes "0"
number_or_zero _ = codes "0"

unfoldable pub normalize_job : Json → JobSnapshot
unfolding stage_count_map number_or_zero as_string prop nullish
normalize_job o = record {
  id = or_else (as_string (prop (codes "id") o)) [];
  status = or_else (as_string (prop (codes "status") o)) (codes "unknown");
  total_files = number_or_zero (prop (codes "totalFiles") o);
  processed_files = number_or_zero (prop (codes "processedFiles") o);
  failed_files = number_or_zero (prop (codes "failedFiles") o);
  error_message = as_string (prop (codes "errorMessage") o);
  stage = as_string (nullish (prop (codes "stage") o) (prop (codes "current_stage") o));
  stage_counts =
      stage_count_map (nullish (prop (codes "stageCounts") o) (prop (codes "stage_counts") o));
}

-- A thrown value: an `Error` with its message, a text, or anything else.
pub data Thrown : Type 0 where
  error_object : Text → Thrown
  string_value : Text → Thrown
  other : Thrown

abbrev non_empty_or : Text → Text → Text
non_empty_or [] d = d
non_empty_or (c ∷ s) d = c ∷ s

unfoldable pub error_message : Thrown → Text
error_message (error_object m) = non_empty_or m (codes "failed")
error_message (string_value m) = non_empty_or m (codes "failed")
error_message other = codes "failed"

abbrev body_prop : Option Json → Text → Option Json
body_prop none k = none
body_prop (some o) k = prop k o

-- The body of a response, or nothing; then its status and status text.
unfoldable pub extract_error : Option Json → Number → Text → Text
unfolding as_string prop nullish
extract_error body status status_text =
    let read = body_prop body in
    let m =
      as_string (
        nullish (nullish (read (codes "error")) (read (codes "detail")))
          (read (codes "message"))) in
    let line = non_empty_or (trim (status ++ (b' ' ∷ status_text))) (codes "request failed") in
    elim m [ none ↦ line | some t ↦ non_empty_or t line ]

-- The row of `/api/library/jobs` that says what a snapshot holds.
abbrev count_fields : List (Text × Number) → Fields
count_fields [] = end
count_fields ((k, n) ∷ rest) = field k (num n) (count_fields rest)

abbrev text_or_null : Option Text → Json
text_or_null none = null
text_or_null (some t) = str t

abbrev pub job_row : JobSnapshot → Json
job_row job = obj (
    field (codes "id") (str job.id) (
      field (codes "status") (str job.status) (
        field (codes "totalFiles") (num job.total_files) (
          field (codes "processedFiles") (num job.processed_files) (
            field (codes "failedFiles") (num job.failed_files) (
              field (codes "errorMessage") (text_or_null job.error_message) (
                field (codes "stage") (text_or_null job.stage)
                  (field (codes "stageCounts") (obj (count_fields job.stage_counts)) end))))))))

-- Finite numbers, and no stage called `__proto__`.
pub record IsPlain (job : JobSnapshot) : Type 0 where
  pub total_files : is_finite job.total_files ≡ true
  pub processed_files : is_finite job.processed_files ≡ true
  pub failed_files : is_finite job.failed_files ≡ true
  pub stage_counts :
      All (λ e. (is_finite e.1 ≡ true) × (text_eq e.0 (codes "__proto__") ≡ false)) job.stage_counts

stage_count_map-count_fields :
    (counts : List (Text × Number))
    → All (λ e. (is_finite e.1 ≡ true) × (text_eq e.0 (codes "__proto__") ≡ false)) counts
    → stage_count_map (some (obj (count_fields counts))) ≡ counts
unfolding stage_count_map
stage_count_map-count_fields [] h = refl
stage_count_map-count_fields ((k, n) ∷ rest) h =
    rw (h.0.0, h.0.1) (ap (◌∷◌ (k, n)) (stage_count_map-count_fields rest h.1))

or_null-text : (t : Option Text) → as_string (some (text_or_null t)) ≡ t
unfolding as_string
or_null-text none = refl
or_null-text (some t) = refl

-- A row that holds what a snapshot does is normalized to that snapshot.
pub normalize_job-job_row : (job : JobSnapshot) → IsPlain job → normalize_job (job_row job) ≡ job
unfolding normalize_job text_eq
normalize_job-job_row job h =
    rw
      (
        h.total_files,
        h.processed_files,
        h.failed_files,
        stage_count_map-count_fields job.stage_counts h.stage_counts,
      )
      (ground (arith, or_null-text job.error_message, or_null-text job.stage))

-- A surfaced error is never the empty text.
pub extract_error-ne-nil :
    (body : Option Json) (status : Number) (status_text : Text)
    → extract_error body status status_text ≢ []
unfolding extract_error
extract_error-ne-nil body status status_text = ground arith
