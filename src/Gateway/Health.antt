-- ===== src/Gateway/Health.antt =====
-- GET of app/api/library/health/route.ts of deedlit.dev.comfyhelper. The body of the gateway's answer has
-- its declared shape. No service and no flag is named like an array index or a member of all objects.
use deedlit_dev.Base.{
  ℕ, ◌≡◌, refl, ap, ◌↔◌, ◌⊎◌, inl, inr, Bool, true, false, Option, none, some, List, [], ◌∷◌, map,
  arith, if◌then◌else◌, or_else, or_option, Text, codes, text_eq, text_eq_iff,
}
use deedlit_dev.Json.{Json, bool, Fields, end, field, own, put, own-put}
use deedlit_dev.Gateway.{Thrown, gateway_error, other_error}

pub record Dependency : Type 0 where
  pub name : Text
  pub ready : Bool

pub record ComponentHealth : Type 0 where
  pub name : Text
  pub status : Text
  pub dependencies : List Dependency

pub record ServiceHealth : Type 0 where
  pub name : Text
  pub status : Text
  pub detail : Option Fields

pub record HealthResponse : Type 0 where
  pub status : Text
  pub services : Option (List ServiceHealth)

abbrev pub dep_labels : List (Text × Text)
dep_labels =
    (codes "db_ready", codes "PostgreSQL")
    ∷ (codes "blob_ready", codes "RustFS")
    ∷ (codes "collection_ready", codes "Qdrant")
    ∷ (codes "neo4j_ready", codes "Neo4j")
    ∷ (codes "vision_ready", codes "CLIP model")
    ∷ (codes "text_ready", codes "Text encoder")
    ∷ (codes "sparse_ready", codes "SPLADE model")
    ∷ []

-- `DEP_LABELS[key] ?? key`.
unfoldable pub label_of : Text → List (Text × Text) → Text
label_of key [] = key
label_of key ((k, label) ∷ labels) = if text_eq k key then label else label_of key labels

unfoldable pub flags_of : Fields → List Dependency
unfolding label_of
flags_of end = []
flags_of (field key (bool value) fs) =
    record { name = label_of key dep_labels; ready = value } ∷ flags_of fs
flags_of (field key value fs) = flags_of fs

unfoldable pub dependencies : Option Fields → List Dependency
unfolding flags_of
dependencies none = []
dependencies (some fs) = flags_of fs

abbrev pub component_of : ServiceHealth → ComponentHealth
component_of s = record { name = s.name; status = s.status; dependencies = dependencies s.detail }

abbrev pub is_ok : Text → Bool
is_ok status = text_eq status (codes "ok")

-- The map of names, where a later service of a name replaces an earlier one.
unfoldable pub services_of : List ServiceHealth → Fields → Fields
services_of [] services = services
services_of (s ∷ upstream) services =
    services_of upstream (put s.name (bool (is_ok s.status)) services)

pub record Board : Type 0 where
  pub healthy : Bool
  pub status : Text
  pub gateway_reachable : Bool
  pub components : List ComponentHealth
  pub services : Fields
  pub warnings : List Text

abbrev pub gateway_component : Text → ComponentHealth
gateway_component status = record { name = codes "gateway"; status = status; dependencies = [] }

abbrev pub message_of : Thrown → Text
message_of (gateway_error message status) = message
message_of (other_error message) = codes "gateway unreachable"

-- The board and the status of the answer.
unfoldable pub get_health : Thrown ⊎ HealthResponse → Board × ℕ
unfolding dependencies services_of
get_health (inr health) =
    let upstream = or_else health.services [] in
    let healthy = is_ok health.status in
    (
      record {
        healthy = healthy;
        status = health.status;
        gateway_reachable = true;
        components = gateway_component (codes "ok") ∷ map component_of upstream;
        services = services_of upstream end;
        warnings = [];
      },
      if healthy then 200 else 503,
    )
get_health (inl e) = (
  record {
    healthy = false;
    status = codes "down";
    gateway_reachable = false;
    components = gateway_component (codes "down") ∷ [];
    services = field (codes "gateway") (bool false) end;
    warnings = message_of e ∷ [];
  },
  503,
)

-- The last service of a name.
unfoldable pub last_named : Text → List ServiceHealth → Option ServiceHealth
last_named k [] = none
last_named k (s ∷ upstream) =
    or_option (last_named k upstream) (if text_eq s.name k then some s else none)

abbrev pub badge : Option ServiceHealth → Option Json → Option Json
badge none before = before
badge (some s) before = some (bool (is_ok s.status))

services_of_lem :
    (k : Text) (upstream : List ServiceHealth) (services : Fields)
    → own k (services_of upstream services) ≡ badge (last_named k upstream) (own k services)
unfolding services_of last_named
services_of_lem k [] services = refl
services_of_lem k (s ∷ upstream) services = ground (
  arith,
  services_of_lem k upstream (put s.name (bool (is_ok s.status)) services),
  own-put s.name k (bool (is_ok s.status)) services,
)

-- A reachable gateway's board: the badge of a name says whether the last service of that name is
-- ok, there is a row for the gateway and for each service, in order, and the answer is 200 exactly
-- where the gateway's own status is ok, else 503.
pub get_health_lem :
    (health : HealthResponse) (k : Text)
    → let (board, status) = get_health (inr health) in
      let upstream = or_else health.services [] in
      (own k board.services ≡ badge (last_named k upstream) none)
      × (map (λ (c : ComponentHealth). c.name) board.components
          ≡ codes "gateway" ∷ map (λ (s : ServiceHealth). s.name) upstream)
      × ((status ≡ 200) ↔ (health.status ≡ codes "ok"))
      × ((status ≡ 200) ⊎ (status ≡ 503))
unfolding get_health own
get_health_lem health k =
    let upstream = or_else health.services [] in
    (
      services_of_lem k upstream end,
      ap (◌∷◌ (codes "gateway")) (names upstream),
      ground (arith, text_eq_iff health.status (codes "ok")),
      ground arith,
    )
  where
    names :
        (xs : List ServiceHealth)
        → map (λ (c : ComponentHealth). c.name) (map component_of xs)
          ≡ map (λ (s : ServiceHealth). s.name) xs
    names [] = refl
    names (s ∷ xs) = ap (◌∷◌ s.name) (names xs)
