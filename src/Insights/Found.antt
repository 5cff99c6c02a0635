-- ===== src/Insights/Found.antt =====
-- What the search by keys finds.
use deedlit_dev.Base.{
  ℕ, zero, suc, ◌≤◌, ◌≡◌, refl, sym, ap, ◌∙◌, ◌⊎◌, inl, inr, Bool, true, false, Option, none, some,
  List, map, arith, or_option, Text,
}
use deedlit_dev.Json.{
  Json, null, bool, num, str, arr, obj, builtin, Items, nil, cons, Fields, end, field,
}
use deedlit_dev.Insights.{
  Parser, maybe_parse_json_string, key_match, visit, visit_items, visit_fields, size, items_size,
  fields_size, search_value, Fits, normalize_key,
}
use deedlit_dev.Insights.Search.{visit_same, visit_parsed, size-maybe_parse, size-pos}

-- The objects that the search can get to: through arrays, properties and texts that are JSON.
abbrev pub InItems : Json → Items → Type 0
InItems w nil = ⊥
InItems w (cons v vs) = (w ≡ v) ⊎ InItems w vs

abbrev pub InFields : Json → Fields → Type 0
InFields w end = ⊥
InFields w (field k v fs) = (w ≡ v) ⊎ InFields w fs

pub data Reaches (parse : Parser) : Json → Fields → Type 0 where
  itself : {v : Json} {fs : Fields} → maybe_parse_json_string parse v ≡ obj fs → Reaches parse v fs
  through_items :
      {v w : Json} {items : Items} {fs : Fields}
      → maybe_parse_json_string parse v ≡ arr items
      → InItems w items
      → Reaches parse w fs
      → Reaches parse v fs
  through_fields :
      {v w : Json} {gs fs : Fields}
      → maybe_parse_json_string parse v ≡ obj gs
      → InFields w gs
      → Reaches parse w fs
      → Reaches parse v fs

abbrev pub is_found : Option Json → Bool
is_found none = false
is_found (some v) = true

found_or : (a b : Option Json) → is_found a ≡ true → is_found (or_option a b) ≡ true
found_or none b h = absurd (ground (arith, h))
found_or (some v) b h = refl

or_found : (a b : Option Json) → is_found b ≡ true → is_found (or_option a b) ≡ true
or_found none b h = h
or_found (some v) b h = refl

found-InItems :
    (parse : Parser) (keys : List Text)
    → Fits parse
    → (n : ℕ) (w : Json) (items : Items) → InItems w items
    → items_size items ≤ n
    → is_found (visit parse keys (size w) w) ≡ true
    → is_found (visit_items parse keys n items) ≡ true
unfolding visit
found-InItems parse keys fits n w nil i h f = absurd i
found-InItems parse keys fits zero w (cons v vs) i h f = absurd (omega arith)
found-InItems parse keys fits (suc n) w (cons v vs) (inl e) h f =
    let g : is_found (visit parse keys n v) ≡ true =
      ap is_found (visit_same parse keys fits n (size v) v (omega arith) (omega arith))
      ∙ ap (λ (u : Json). is_found (visit parse keys (size u) u)) (sym e)
      ∙ f in
    found_or (visit parse keys n v) (visit_items parse keys n vs) g
found-InItems parse keys fits (suc n) w (cons v vs) (inr i) h f =
    or_found (visit parse keys n v) (visit_items parse keys n vs)
      (found-InItems parse keys fits n w vs i (omega arith) f)

found-InFields :
    (parse : Parser) (keys : List Text)
    → Fits parse
    → (n : ℕ) (w : Json) (fs : Fields) → InFields w fs
    → fields_size fs ≤ n
    → is_found (visit parse keys (size w) w) ≡ true
    → is_found (visit_fields parse keys n fs) ≡ true
unfolding visit
found-InFields parse keys fits n w end i h f = absurd i
found-InFields parse keys fits zero w (field k v fs) i h f = absurd (omega arith)
found-InFields parse keys fits (suc n) w (field k v fs) (inl e) h f =
    let g : is_found (visit parse keys n v) ≡ true =
      ap is_found (visit_same parse keys fits n (size v) v (omega arith) (omega arith))
      ∙ ap (λ (u : Json). is_found (visit parse keys (size u) u)) (sym e)
      ∙ f in
    found_or (visit parse keys n v) (visit_fields parse keys n fs) g
found-InFields parse keys fits (suc n) w (field k v fs) (inr i) h f =
    or_found (visit parse keys n v) (visit_fields parse keys n fs)
      (found-InFields parse keys fits n w fs i (omega arith) f)

visit_parsed_lem :
    (parse : Parser) (keys : List Text) (n : ℕ) (v w : Json)
    → maybe_parse_json_string parse v ≡ w
    → visit parse keys (suc n) v ≡ visit_parsed parse keys n w
visit_parsed_lem parse keys n v w e = unfold visit in ap (visit_parsed parse keys n) e

found :
    (parse : Parser) (keys : List Text)
    → Fits parse
    → (n : ℕ) (v : Json) (fs : Fields) → Reaches parse v fs
    → is_found (key_match keys fs) ≡ true
    → size v ≤ n
    → is_found (visit parse keys n v) ≡ true
found parse keys fits zero v fs r f h = absurd (omega (arith, size-pos v))
found parse keys fits (suc n) v fs (itself e) f h =
    ap is_found (visit_parsed_lem parse keys n v (obj fs) e)
    ∙ found_or (key_match keys fs) (visit_fields parse keys n fs) f
found parse keys fits (suc n) v fs (through_items {w = w} {items = items} e i r) f h =
    ap is_found (visit_parsed_lem parse keys n v (arr items) e)
    ∙ found-InItems parse keys fits n w items i
        (omega (arith, ap size e, size-maybe_parse parse v fits))
        (found parse keys fits (size w) w fs r f (omega arith))
found parse keys fits (suc n) v fs (through_fields {w = w} {gs = gs} e i r) f h =
    ap is_found (visit_parsed_lem parse keys n v (obj gs) e)
    ∙ or_found (key_match keys gs) (visit_fields parse keys n gs) (
        found-InFields parse keys fits n w gs i
          (omega (arith, ap size e, size-maybe_parse parse v fits))
          (found parse keys fits (size w) w fs r f (omega arith)))

-- A value found, with the object that holds it.
abbrev Held : Parser → List Text → Json → Json → Type 0
Held parse keys v x = (fs : Fields) × Reaches parse v fs × (key_match keys fs ≡ some x)

or_option-cases :
    (a b : Option Json) (x : Json) → or_option a b ≡ some x → (a ≡ some x) ⊎ (b ≡ some x)
or_option-cases none b x h = inr h
or_option-cases (some v) b x h = inl h

Held-parsed :
    (parse : Parser) (keys : List Text) (n : ℕ) (v x w : Json)
    → ((items : Items)
        → visit_items parse keys n items ≡ some x
        → (u : Json) × InItems u items × Held parse keys u x)
    → ((fs : Fields)
        → visit_fields parse keys n fs ≡ some x
        → (u : Json) × InFields u fs × Held parse keys u x)
    → maybe_parse_json_string parse v ≡ w
    → visit_parsed parse keys n w ≡ some x
    → Held parse keys v x
Held-parsed parse keys n v x null i f e h = absurd (ground (arith, h))
Held-parsed parse keys n v x (bool b) i f e h = absurd (ground (arith, h))
Held-parsed parse keys n v x (num t) i f e h = absurd (ground (arith, h))
Held-parsed parse keys n v x (str t) i f e h = absurd (ground (arith, h))
Held-parsed parse keys n v x (builtin t) i f e h = absurd (ground (arith, h))
Held-parsed parse keys n v x (arr items) i f e h =
    let (u, at, (fs, r, k)) = i items h in (fs, through_items e at r, k)
Held-parsed parse keys n v x (obj gs) i f e h =
    elim (or_option-cases (key_match keys gs) (visit_fields parse keys n gs) x h) [
      | inl k ↦ (gs, itself e, k)
      | inr k ↦ let (u, at, (fs, r, m)) = f gs k in (fs, through_fields e at r, m)
    ]

mutual
  unfolding visit

  held :
      (parse : Parser) (keys : List Text) (n : ℕ) (v x : Json)
      → visit parse keys n v ≡ some x
      → Held parse keys v x
  held parse keys zero v x h = absurd (ground (arith, h))
  held parse keys (suc n) v x h =
      Held-parsed parse keys n v x (maybe_parse_json_string parse v)
        (λ items k. Held-items parse keys n items x k) (λ fs k. Held-fields parse keys n fs x k)
        refl h

  Held-items :
      (parse : Parser) (keys : List Text) (n : ℕ) (items : Items) (x : Json)
      → visit_items parse keys n items ≡ some x
      → (u : Json) × InItems u items × Held parse keys u x
  Held-items parse keys zero items x h = absurd (ground (arith, h))
  Held-items parse keys (suc n) nil x h = absurd (ground (arith, h))
  Held-items parse keys (suc n) (cons v vs) x h =
      elim (or_option-cases (visit parse keys n v) (visit_items parse keys n vs) x h) [
        | inl k ↦ (v, inl refl, held parse keys n v x k)
        | inr k ↦ let (u, at, m) = Held-items parse keys n vs x k in (u, inr at, m)
      ]

  Held-fields :
      (parse : Parser) (keys : List Text) (n : ℕ) (fs : Fields) (x : Json)
      → visit_fields parse keys n fs ≡ some x
      → (u : Json) × InFields u fs × Held parse keys u x
  Held-fields parse keys zero fs x h = absurd (ground (arith, h))
  Held-fields parse keys (suc n) end x h = absurd (ground (arith, h))
  Held-fields parse keys (suc n) (field j v fs) x h =
      elim (or_option-cases (visit parse keys n v) (visit_fields parse keys n fs) x h) [
        | inl k ↦ (v, inl refl, held parse keys n v x k)
        | inr k ↦ let (u, at, m) = Held-fields parse keys n fs x k in (u, inr at, m)
      ]

-- The search finds a value exactly where some object that can be reached, through arrays,
-- properties and texts that are JSON, has one of the keys; and what it finds is the value of such a key.
pub search_value-Reaches :
    (parse : Parser) (keys : List Text) (root : Json)
    → Fits parse
    → ((x : Json)
        → search_value parse keys root ≡ some x
        → (fs : Fields) × Reaches parse root fs × (key_match (map normalize_key keys) fs ≡ some x))
      × ((fs : Fields)
          → Reaches parse root fs
          → is_found (key_match (map normalize_key keys) fs) ≡ true
          → is_found (search_value parse keys root) ≡ true)
unfolding search_value
search_value-Reaches parse keys root fits = (
  λ x h. held parse (map normalize_key keys) (size root) root x h,
  λ fs r f. found parse (map normalize_key keys) fits (size root) root fs r f (omega arith),
)
