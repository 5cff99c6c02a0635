-- ===== src/Gateway.antt =====
-- The client of the gateway, `request` and its callers in lib/api-client.ts of deedlit.dev.comfyhelper,
-- with the routes that pass one image on. `fetch` is a parameter: a response, or nothing where it throws.
pub mod Health
pub mod Records
pub mod Laws
use deedlit_dev.Base.{
  ℕ, zero, suc, ◌+◌, ◌-◌, ◌*◌, ◌/◌, ◌%◌, ◌≤◌, ◌<◌, ◌≡◌, refl, sym, ap, ◌∙◌, subst, ◌≢◌, ◌↔◌, ◌⊎◌,
  inl, inr, Bool, true, false, not, ◌&&◌, ◌||◌, Option, none, some, List, [], ◌∷◌, ◌++◌, map,
  reverse, append_assoc, append-nil, arith, ltb, leb, ◌==◌, if◌then◌else◌, Bool-cases, Option-cases,
  or_else, or_option, &&-true, ||-true, length, take, drop, get_elem?, slice, filter, any, all,
  find, concat, replicate, All, length-append, length-drop, length-take, take-append-drop, drop-nil,
  drop-drop, get_elem?-drop, take-append, drop-append, filter-append, length-filter-le, filter_idem,
  concat-append, length-map, take-drop-take, take-append-le, drop-append-le, Text, Bytes, codes,
  text_eq, text_eq_iff, text_eq_refl, has, is_space, trim_start, trim, lower_unit, to_lower,
  starts_with, ends_with, includes, split_at, join, In, has_iff, cut_last_dot, extname, IsDistinct,
  append_cancel,
}
use deedlit_dev.Base.Decimal.{show}
use deedlit_dev.Json.{Json, null, obj, Fields, own}
use deedlit_dev.Export.{string_of}
use deedlit_dev.Http.{Answer, response, json_error, Handled, answered, threw, handle_route}
use deedlit_dev.Http

-- The settings DEEDLIT_API_URL and NEXT_PUBLIC_DEEDLIT_API_URL, without slashes at the end.
unfoldable pub trailing_slashes : Text → Text
trailing_slashes [] = []
trailing_slashes (c ∷ s) = elim (trailing_slashes s) [
  | d ∷ t ↦ c ∷ d ∷ t
  | [] ↦ if c == b'/' then [] else c ∷ []
]

abbrev trimmed : Option Text → Option Text
trimmed none = none
trimmed (some t) = elim (trim t) [ [] ↦ none | c ∷ s ↦ some (c ∷ s) ]

unfoldable pub get_gateway_base_url : Option Text → Option Text → Text
unfolding trailing_slashes trim
get_gateway_base_url server public_setting =
    trailing_slashes (
      or_else (or_option (trimmed server) (trimmed public_setting)) (codes "http://localhost:8088"))

pub data QueryValue : Type 0 where
  undefined : QueryValue
  single : Text → QueryValue
  repeated : List Text → QueryValue

-- The parameters in their order; the keys of the record differ.
unfoldable pub query_params : List (Text × QueryValue) → List (Text × Text)
query_params [] = []
query_params ((k, undefined) ∷ query) = query_params query
query_params ((k, single v) ∷ query) = (k, v) ∷ query_params query
query_params ((k, repeated vs) ∷ query) = map (λ (v : Text). (k, v)) vs ++ query_params query

-- What `fetch` is called with, behind the base address.
pub record Call : Type 0 where
  pub method : Text
  pub path : Text
  pub params : List (Text × Text)
  pub body : Option Json

-- The body as JSON, where it is that; its text, where that can be read instead.
pub record Response : Type 0 where
  pub ok : Bool
  pub status : ℕ
  pub json : Option Json
  pub body_text : Option Text

pub data Thrown : Type 0 where
  gateway_error : Text → ℕ → Thrown
  other_error : Text → Thrown

-- What the code takes from the runtime: `fetch`, `encodeURIComponent`, `JSON.stringify`, and the
-- messages of the errors for a body that is not JSON and for `undefined` as a JSON response.
pub record Runtime : Type 0 where
  pub base : Text
  pub fetch : Call → Option Response
  pub encode : Text → Text
  pub stringify : Json → Text
  pub not_json : Text
  pub not_serializable : Text

-- The `detail` of an error's body.
unfoldable pub detail_of : Option Json → Option Text
unfolding own string_of
detail_of (some (obj fs)) = elim (own (codes "detail") fs) [
  | none ↦ none
  | some v ↦ some (string_of v)
]
detail_of _ = none

abbrev pub default_message : Call → ℕ → Text
default_message call status =
    codes "gateway " ++ (call.method ++ (b' ' ∷ (call.path ++ (codes " -> " ++ show status))))

unfoldable pub error_text : Call → Response → Text
unfolding detail_of
error_text call res = or_else (detail_of res.json) (default_message call res.status)

module _ (runtime : Runtime) where
  abbrev pub unreachable_text : Call → Text
  unreachable_text call =
      codes "gateway unreachable at "
      ++ (runtime.base ++ (codes " (" ++ (call.method ++ (b' ' ∷ (call.path ++ codes ")")))))

  -- The value of a response, or `undefined` for status 204.
  unfoldable pub read_response : Call → Option Response → Thrown ⊎ Option Json
  unfolding error_text
  read_response call none = inl (gateway_error (unreachable_text call) 503)
  read_response call (some res) =
      if not res.ok
      then inl (gateway_error (error_text call res) res.status)
      else if res.status == 204
      then inr none
      else elim res.json [ none ↦ inl (other_error runtime.not_json) | some j ↦ inr (some j) ]

  unfoldable pub request : Call → Thrown ⊎ Option Json
  unfolding read_response
  request call = read_response call (runtime.fetch call)

  abbrev pub image_call : Text → Text → Option Json → Call
  image_call method sha256 body = record {
    method = method;
    path = codes "/images/" ++ runtime.encode sha256;
    params = [];
    body = body;
  }

  unfoldable pub get_image : Text → Bool → Thrown ⊎ Option Json
  unfolding request query_params
  get_image sha256 light = request (record (image_call (codes "GET") sha256 none) {
    params = query_params (if light then (codes "fields", single (codes "light")) ∷ [] else []);
  })

  unfoldable pub delete_image : Text → Thrown ⊎ Option Json
  unfolding request
  delete_image sha256 = request (image_call (codes "DELETE") sha256 none)

  unfoldable pub patch_image : Text → Json → Thrown ⊎ Option Json
  unfolding request
  patch_image sha256 body = request (image_call (codes "PATCH") sha256 (some body))

  -- The routes' `catch`: an image that the gateway does not know is a 404.
  unfoldable pub not_found_or : Thrown ⊎ Option Json → Handled
  not_found_or (inl (gateway_error message status)) =
      if status == 404
      then answered (json_error (codes "Image not found.") 404)
      else threw (Http.error message)
  not_found_or (inl (other_error message)) = threw (Http.error message)
  not_found_or (inr none) = threw (Http.error runtime.not_serializable)
  not_found_or (inr (some value)) = answered (response 200 (runtime.stringify value))

  -- GET of raw, and PATCH and DELETE of an image. The body of a PATCH may be no JSON.
  unfoldable pub get_raw : Text → Answer
  unfolding get_image not_found_or handle_route
  get_raw image_id = handle_route (not_found_or (get_image image_id false))

  unfoldable pub patch_route : Text → Option Json → Answer
  unfolding patch_image not_found_or handle_route
  patch_route image_id none = handle_route (threw (Http.error runtime.not_json))
  patch_route image_id (some body) = handle_route (not_found_or (patch_image image_id body))

  unfoldable pub delete_route : Text → Answer
  unfolding delete_image not_found_or handle_route
  delete_route image_id = handle_route (not_found_or (delete_image image_id))
