-- ===== src/Insights/Steps.antt =====
-- How many calls the search by keys in lib/metadata-parsing.ts of deedlit.dev.comfyhelper makes.
use deedlit_dev.Base.{
  ℕ, zero, suc, ◌+◌, ◌≤◌, ◌≡◌, refl, Option, none, some, List, map, arith, or_option, length, Text,
}
use deedlit_dev.Json.{
  Json, null, bool, num, str, arr, obj, builtin, Items, nil, cons, Fields, end, field,
}
use deedlit_dev.Insights.{
  Parser, maybe_parse_json_string, key_match, visit, visit_items, visit_fields, size, items_size,
  fields_size, search_value, Fits, normalize_key,
}
use deedlit_dev.Insights.Search.{size-maybe_parse, size-pos, visit_parsed}

-- What a search gives and how many calls of `visit` it makes; nothing where it does not end.
abbrev pub Tally : Type 0
Tally = Option (Option Json × ℕ)

abbrev pub one_more : Tally → Tally
one_more none = none
one_more (some (r, n)) = some (r, suc n)

-- A loop that goes on only where nothing was found.
abbrev pub or_later : Tally → Tally → Tally
or_later none later = none
or_later (some (some v, n)) later = some (some v, n)
or_later (some (none, n)) none = none
or_later (some (none, n)) (some (r, m)) = some (r, n + m)

abbrev pub unless_found : Option Json → Tally → Tally
unless_found none later = later
unless_found (some v) later = some (some v, 0)

-- `visit` again, with its calls counted. Where the fuel is used up there is no outcome.
mutual
  unfolding maybe_parse_json_string key_match

  pub counted : Parser → List Text → ℕ → Json → Tally
  counted parse keys zero value = none
  counted parse keys (suc fuel) value = one_more (elim (maybe_parse_json_string parse value) [
    | arr items ↦ counted_items parse keys fuel items
    | obj fs ↦ unless_found (key_match keys fs) (counted_fields parse keys fuel fs)
    | other ↦ some (none, 0)
  ])

  counted_items : Parser → List Text → ℕ → Items → Tally
  counted_items parse keys fuel nil = some (none, 0)
  counted_items parse keys zero (cons v vs) = none
  counted_items parse keys (suc fuel) (cons v vs) =
      or_later (counted parse keys fuel v) (counted_items parse keys fuel vs)

  counted_fields : Parser → List Text → ℕ → Fields → Tally
  counted_fields parse keys fuel end = some (none, 0)
  counted_fields parse keys zero (field k v fs) = none
  counted_fields parse keys (suc fuel) (field k v fs) =
      or_later (counted parse keys fuel v) (counted_fields parse keys fuel fs)

-- It ended with this value, after at most `most` calls.
abbrev Within : ℕ → Option Json → Tally → Type 0
Within most r out = (n : ℕ) × (out ≡ some (r, n)) × (n ≤ most)

or_later-Within :
    (a b : ℕ) (r s : Option Json) (x y : Tally)
    → Within a r x
    → Within b s y
    → Within (suc (a + b)) (or_option r s) (or_later x y)
or_later-Within a b none s x y (n, e, h) (m, f, k) = (n + m, rw (e, f) refl, omega (arith, h, k))
or_later-Within a b (some v) s x y (n, e, h) w = (n, rw e refl, omega (arith, h))

unless_found-Within :
    (b : ℕ) (r s : Option Json) (y : Tally)
    → Within b s y
    → Within b (or_option r s) (unless_found r y)
unless_found-Within b none s y w = w
unless_found-Within b (some v) s y w = (0, refl, omega arith)

one_more-Within :
    (b : ℕ) (r : Option Json) (y : Tally) → Within b r y → Within (suc b) r (one_more y)
one_more-Within b r y (n, e, h) = (suc n, rw e refl, omega (arith, h))

-- What `counted` does with the value that is parsed.
abbrev counted_parsed : Parser → List Text → ℕ → Json → Tally
counted_parsed parse keys fuel w = elim w [
  | arr items ↦ counted_items parse keys fuel items
  | obj fs ↦ unless_found (key_match keys fs) (counted_fields parse keys fuel fs)
  | other ↦ some (none, 0)
]

module _ (parse : Parser) (keys : List Text) (n : ℕ) where
  parsed-Within :
      (w : Json)
      → ((items : Items)
          → items_size items ≤ n
          → Within
              (items_size items)
              (visit_items parse keys n items)
              (counted_items parse keys n items))
      → ((fs : Fields)
          → fields_size fs ≤ n
          → Within (fields_size fs) (visit_fields parse keys n fs) (counted_fields parse keys n fs))
      → size w ≤ suc n
      → (k : ℕ) × (suc k ≡ size w)
        × Within k (visit_parsed parse keys n w) (counted_parsed parse keys n w)
  parsed-Within null i f h = (0, refl, (0, refl, omega arith))
  parsed-Within (bool b) i f h = (0, refl, (0, refl, omega arith))
  parsed-Within (num t) i f h = (0, refl, (0, refl, omega arith))
  parsed-Within (str t) i f h = (suc (length t), omega arith, (0, refl, omega arith))
  parsed-Within (builtin t) i f h = (0, refl, (0, refl, omega arith))
  parsed-Within (arr items) i f h = (items_size items, refl, i items (omega arith))
  parsed-Within (obj fs) i f h = (
    fields_size fs,
    refl,
    unless_found-Within (fields_size fs) (key_match keys fs) (visit_fields parse keys n fs)
        (counted_fields parse keys n fs) (f fs (omega arith)),
  )

mutual
  unfolding visit counted

  visit-Within :
      (parse : Parser) (keys : List Text)
      → Fits parse
      → (n : ℕ) (v : Json) → size v ≤ n
      → Within (size v) (visit parse keys n v) (counted parse keys n v)
  visit-Within parse keys fits zero v h = absurd (omega (arith, size-pos v))
  visit-Within parse keys fits (suc n) v h =
      let w = maybe_parse_json_string parse v in
      let smaller : size w ≤ size v = size-maybe_parse parse v fits in
      let (k, e, within) =
        parsed-Within parse keys n w (items-Within parse keys fits n)
          (fields-Within parse keys fits n) (omega (arith, smaller, h)) in
      let (c, d, few) =
        one_more-Within k (visit_parsed parse keys n w) (counted_parsed parse keys n w) within in
      (c, d, omega (arith, e, few, smaller))

  items-Within :
      (parse : Parser) (keys : List Text)
      → Fits parse
      → (n : ℕ) (items : Items) → items_size items ≤ n
      → Within
          (items_size items)
          (visit_items parse keys n items)
          (counted_items parse keys n items)
  items-Within parse keys fits zero nil h = (0, refl, omega arith)
  items-Within parse keys fits (suc n) nil h = (0, refl, omega arith)
  items-Within parse keys fits zero (cons v vs) h = absurd (omega arith)
  items-Within parse keys fits (suc n) (cons v vs) h =
      or_later-Within (size v) (items_size vs) (visit parse keys n v) (visit_items parse keys n vs)
        (counted parse keys n v) (counted_items parse keys n vs)
        (visit-Within parse keys fits n v (omega arith))
        (items-Within parse keys fits n vs (omega arith))

  fields-Within :
      (parse : Parser) (keys : List Text)
      → Fits parse
      → (n : ℕ) (fs : Fields) → fields_size fs ≤ n
      → Within (fields_size fs) (visit_fields parse keys n fs) (counted_fields parse keys n fs)
  fields-Within parse keys fits zero end h = (0, refl, omega arith)
  fields-Within parse keys fits (suc n) end h = (0, refl, omega arith)
  fields-Within parse keys fits zero (field j v fs) h = absurd (omega arith)
  fields-Within parse keys fits (suc n) (field j v fs) h =
      or_later-Within (size v) (fields_size fs) (visit parse keys n v)
        (visit_fields parse keys n fs) (counted parse keys n v) (counted_fields parse keys n fs)
        (visit-Within parse keys fits n v (omega arith))
        (fields-Within parse keys fits n fs (omega arith))

-- Where JSON.parse reads a value of no greater size than its text, the search ends: counted call by call, with
-- no outcome where the fuel is used up, it comes to the value that the search gives, after at most as many
-- calls of `visit` as the size of the root.
pub search_value_ends :
    (parse : Parser) (keys : List Text) (root : Json)
    → Fits parse
    → (n : ℕ) × (counted parse (map normalize_key keys) (size root) root
        ≡ some (search_value parse keys root, n))
      × (n ≤ size root)
unfolding search_value
search_value_ends parse keys root fits =
    visit-Within parse (map normalize_key keys) fits (size root) root (omega arith)
