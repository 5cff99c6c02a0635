-- ===== src/Extract.antt =====
-- lib/library/services/metadata-client.ts of deedlit.dev.comfyhelper, and the functions of
-- metadata-service.ts that make an image record of its results. Where a field of a response may be
-- absent or null, it is `none`; numbers are the texts that `String` prints.
pub mod Record
use deedlit_dev.Base.{
  ℕ, zero, suc, ◌+◌, ◌-◌, ◌*◌, ◌/◌, ◌%◌, ◌≤◌, ◌<◌, ◌≡◌, refl, sym, ap, ◌∙◌, subst, ◌≢◌, ◌↔◌, ◌⊎◌,
  inl, inr, Bool, true, false, not, ◌&&◌, ◌||◌, Option, none, some, List, [], ◌∷◌, ◌++◌, map,
  reverse, append_assoc, append-nil, arith, ltb, leb, ◌==◌, if◌then◌else◌, Bool-cases, Option-cases,
  or_else, or_option, &&-true, ||-true, length, take, drop, get_elem?, slice, filter, any, all,
  find, concat, replicate, All, length-append, length-drop, length-take, take-append-drop, drop-nil,
  drop-drop, get_elem?-drop, take-append, drop-append, filter-append, length-filter-le, filter_idem,
  concat-append, length-map, take-drop-take, take-append-le, drop-append-le, Text, Bytes, codes,
  text_eq, text_eq_iff, text_eq_refl, has, is_space, trim_start, trim, lower_unit, to_lower,
  starts_with, ends_with, includes, split_at, join, In, has_iff, cut_last_dot, extname, IsDistinct,
  append_cancel,
}
use deedlit_dev.Base.Outcome.{Outcome, returned, thrown, ◌>>=◌}
use deedlit_dev.Json.{Json}

pub record ExtractAssetRef : Type 0 where
  pub name : Text
  pub hash : Option Text

pub record ExtractReferences : Type 0 where
  pub checkpoints : List ExtractAssetRef
  pub loras : List ExtractAssetRef
  pub embeddings : List ExtractAssetRef
  pub vae : List ExtractAssetRef
  pub controlnets : List ExtractAssetRef
  pub upscalers : List ExtractAssetRef

pub record ExtractParams : Type 0 where
  pub seed : Option Text
  pub steps : Option Text
  pub cfg : Option Text
  pub sampler : Option Text
  pub scheduler : Option Text
  pub denoise : Option Text
  pub clipskip : Option Text
  pub width : Option Text
  pub height : Option Text

pub data SourceTool : Type 0 where
  a1111 comfyui unknown : SourceTool

pub record ExtractResult : Type 0 where
  pub source_tool : SourceTool
  pub prompt : Option Text
  pub negative : Option Text
  pub tags : List Text
  pub params : ExtractParams
  pub references : ExtractReferences
  pub workflow_json : Option Json
  pub api_prompt_json : Option Json

-- What `fetch` gives: a status with the text and the parsed body, or an error.
pub data Response : Type 0 where
  answered : ℕ → Text → Outcome ExtractResult → Response
  unreachable : Text → Response

unfoldable pub mime_for_extension : Text → Text
mime_for_extension ext =
    let lower = to_lower ext in
    if text_eq lower (codes ".png")
    then codes "image/png"
    else if text_eq lower (codes ".webp")
    then codes "image/webp"
    else if text_eq lower (codes ".jpg") || text_eq lower (codes ".jpeg")
    then codes "image/jpeg"
    else codes "application/octet-stream"

abbrev pub no_params : ExtractParams
no_params = record {
  seed = none;
  steps = none;
  cfg = none;
  sampler = none;
  scheduler = none;
  denoise = none;
  clipskip = none;
  width = none;
  height = none;
}

abbrev pub no_references : ExtractReferences
no_references = record {
  checkpoints = [];
  loras = [];
  embeddings = [];
  vae = [];
  controlnets = [];
  upscalers = [];
}

abbrev pub empty_extract_result : ExtractResult
empty_extract_result = record {
  source_tool = unknown;
  prompt = none;
  negative = none;
  tags = [];
  params = no_params;
  references = no_references;
  workflow_json = none;
  api_prompt_json = none;
}

abbrev pub not_configured : Text
not_configured =
    codes "METADATA_API_URL is not set — the deedlit.metadata service is required for ingest. "
    ++ codes "Start deedlit.metadata and set METADATA_API_URL (e.g. http://localhost:8005)."

-- `print` is how a number is printed.
unfoldable pub extract_error : (ℕ → Text) → ℕ → Text → Text
extract_error print status text =
    codes "deedlit.metadata /extract " ++ (print status ++ (codes ": " ++ text))

abbrev pub is_ok : ℕ → Bool
is_ok status = leb 200 status && leb status 299

unfoldable pub read_response : (ℕ → Text) → Response → Outcome ExtractResult
unfolding extract_error
read_response print (unreachable e) = thrown e
read_response print (answered status text body) =
    if status == 422
    then returned empty_extract_result
    else if not (is_ok status)
    then thrown (extract_error print status text)
    else body

-- `post` sends the bytes with their type and name to the URL.
abbrev pub Post : Type 0
Post = Text → Bytes → Text → Text → Response

unfoldable pub extract_metadata_from_buffer :
    (ℕ → Text) → Text → Post → Bytes → Text → Text → Outcome ExtractResult
extract_metadata_from_buffer print metadata_api_url post buffer mime filename =
    if text_eq metadata_api_url []
    then thrown not_configured
    else read_response print (post (metadata_api_url ++ codes "/extract") buffer mime filename)

-- `basename` is `path.basename`.
unfoldable pub extract_metadata_from_file :
    (ℕ → Text) → Text → Post → (Text → Text) → (Text → Outcome Bytes) → Text → Outcome ExtractResult
extract_metadata_from_file print metadata_api_url post basename read_file file_path =
    read_file file_path >>= λ buffer.
    let filename = basename file_path in
    extract_metadata_from_buffer print metadata_api_url post buffer
      (mime_for_extension (extname filename)) filename
