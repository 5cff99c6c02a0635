-- ===== src/Insights.antt =====
-- lib/metadata-parsing.ts of deedlit.dev.comfyhelper: reading values and the search by keys. A value
-- is a tree, so that the set `seen` of the search never holds an object that is met, and no
-- object has a key `__proto__`. `JSON.parse` is an argument, with nothing where it throws.
pub mod Search
pub mod Steps
pub mod Found
pub mod Cache
pub mod Graph
pub mod Choice
pub mod Parameters
pub mod Capture
use deedlit_dev.Base.{
  ℕ, zero, suc, ◌+◌, ◌-◌, ◌*◌, ◌/◌, ◌%◌, ◌≤◌, ◌<◌, ◌≡◌, refl, sym, ap, ◌∙◌, subst, ◌≢◌, ◌↔◌, ◌⊎◌,
  inl, inr, Bool, true, false, not, ◌&&◌, ◌||◌, Option, none, some, List, [], ◌∷◌, ◌++◌, map,
  reverse, append_assoc, append-nil, arith, ltb, leb, ◌==◌, if◌then◌else◌, Bool-cases, Option-cases,
  or_else, or_option, &&-true, ||-true, length, take, drop, get_elem?, slice, filter, any, all,
  find, concat, replicate, All, length-append, length-drop, length-take, take-append-drop, drop-nil,
  drop-drop, get_elem?-drop, take-append, drop-append, filter-append, length-filter-le, filter_idem,
  concat-append, length-map, take-drop-take, take-append-le, drop-append-le, Text, Bytes, codes,
  text_eq, text_eq_iff, text_eq_refl, has, is_space, trim_start, trim, lower_unit, to_lower,
  starts_with, ends_with, includes, split_at, join, In, has_iff, cut_last_dot, extname, IsDistinct,
  append_cancel,
}
use deedlit_dev.Json.{
  Json, null, bool, num, str, arr, obj, builtin, Items, nil, cons, Fields, end, field, prop, own,
}

abbrev pub Parser : Type 0
Parser = Text → Option Json

unfoldable pub is_record : Json → Bool
is_record (obj fs) = true
is_record _ = false

-- `toLowerCase` as far as ASCII letters come out of it.
unfoldable pub lowered : Text → Text
unfolding lower_unit
lowered [] = []
lowered (c ∷ s) =
    if c == 0x212a
    then b'k' ∷ lowered s
    else if c == 0x130
    then b'i' ∷ (0x307 ∷ lowered s)
    else lower_unit c ∷ lowered s

abbrev pub is_key_unit : ℕ → Bool
is_key_unit c = (leb b'a' c && leb c b'z') || (leb b'0' c && leb c b'9')

unfoldable pub normalize_key : Text → Text
unfolding lowered
normalize_key key = filter is_key_unit (lowered key)

unfoldable pub get_cache_key : List Text → Text
unfolding join
get_cache_key keys = join (codes "|") (map normalize_key keys)

module _ (parse : Parser) where
  abbrev pub maybe_parse_text : Text → Json
  maybe_parse_text t =
      let trimmed = trim t in
      if starts_with (codes "{") trimmed || starts_with (codes "[") trimmed
      then elim (parse trimmed) [ none ↦ str t | some v ↦ v ]
      else str t

  unfoldable pub maybe_parse_json_string : Json → Json
  unfolding trim starts_with
  maybe_parse_json_string (str t) = maybe_parse_text t
  maybe_parse_json_string v = v

abbrev pub non_empty : Text → Option Text
non_empty [] = none
non_empty (c ∷ s) = some (c ∷ s)

-- An absent property is `undefined`.
unfoldable pub to_display_value : Option Json → Option Text
unfolding trim
to_display_value (some (str t)) = non_empty (trim t)
to_display_value (some (num n)) = some n
to_display_value (some (bool true)) = some (codes "true")
to_display_value (some (bool false)) = some (codes "false")
to_display_value _ = none

unfoldable pub get_searchable_metadata : Json → Json
unfolding is_record
get_searchable_metadata metadata = elim (prop (codes "fields") metadata) [
  | none ↦ metadata
  | some v ↦ if is_record v then v else metadata
]

-- The first loop over an object: a key that is looked for.
unfoldable pub key_match : List Text → Fields → Option Json
key_match keys end = none
key_match keys (field k v fs) = if has (normalize_key k) keys then some v else key_match keys fs

-- `visit`, on fuel, with the set of normalized keys. A value that is found may be null.
unfoldable mutual
  unfolding maybe_parse_json_string key_match

  pub visit : Parser → List Text → ℕ → Json → Option Json
  visit parse keys zero value = none
  visit parse keys (suc fuel) value = elim (maybe_parse_json_string parse value) [
    | arr items ↦ visit_items parse keys fuel items
    | obj fs ↦ or_option (key_match keys fs) (visit_fields parse keys fuel fs)
    | other ↦ none
  ]

  pub visit_items : Parser → List Text → ℕ → Items → Option Json
  visit_items parse keys zero items = none
  visit_items parse keys (suc fuel) nil = none
  visit_items parse keys (suc fuel) (cons v vs) =
      or_option (visit parse keys fuel v) (visit_items parse keys fuel vs)

  pub visit_fields : Parser → List Text → ℕ → Fields → Option Json
  visit_fields parse keys zero fs = none
  visit_fields parse keys (suc fuel) end = none
  visit_fields parse keys (suc fuel) (field k v fs) =
      or_option (visit parse keys fuel v) (visit_fields parse keys fuel fs)

-- What a value takes of JSON text at the least, and so as many steps as a search of it takes.
abbrev mutual
  pub size : Json → ℕ
  size (str t) = 2 + length t
  size (arr items) = suc (items_size items)
  size (obj fs) = suc (fields_size fs)
  size null = 1
  size (bool b) = 1
  size (num n) = 1
  size (builtin t) = 1

  pub items_size : Items → ℕ
  items_size nil = 0
  items_size (cons v vs) = suc (size v + items_size vs)

  pub fields_size : Fields → ℕ
  fields_size end = 0
  fields_size (field k v fs) = suc (size v + fields_size fs)

-- A search with as much fuel as it takes.
unfoldable pub search_value : Parser → List Text → Json → Option Json
unfolding visit
search_value parse keys root = visit parse (map normalize_key keys) (size root) root

-- `JSON.parse` reads a value of no greater size than its text.
abbrev pub Fits : Parser → Type 0
Fits parse = (t : Text) (v : Json) → parse t ≡ some v → size v ≤ length t
