-- ===== src/Insights/Search.antt =====
-- More fuel than the size of a value gives the search by keys nothing more.
use deedlit_dev.Base.{
  ℕ, zero, suc, ◌+◌, ◌≤◌, ◌≡◌, refl, ap, inl, inr, ◌||◌, Option, none, some, List, [], ◌∷◌, reverse,
  arith, Bool-cases, Option-cases, or_option, length, Text, codes, trim_start, trim, starts_with,
}
use mathlib.Core.List.{reverse_aux}
use deedlit_dev.Json.{
  Json, null, bool, num, str, arr, obj, builtin, Items, nil, cons, Fields, end, field,
}
use deedlit_dev.Insights.{
  Parser, maybe_parse_json_string, key_match, visit, visit_items, visit_fields, size, items_size,
  fields_size, Fits,
}

length-trim_start : (s : Text) → length (trim_start s) ≤ length s
unfolding trim_start
length-trim_start [] = omega arith
length-trim_start (c ∷ s) = ground (arith, length-trim_start s)

length-reverse_aux : (xs ys : Text) → length (reverse_aux xs ys) ≡ length xs + length ys
length-reverse_aux [] ys = omega arith
length-reverse_aux (x ∷ xs) ys = omega (arith, length-reverse_aux xs (x ∷ ys))

length-reverse : (s : Text) → length (reverse s) ≡ length s
length-reverse s = omega (arith, length-reverse_aux s [])

length-trim : (s : Text) → length (trim s) ≤ length s
length-trim s =
    unfold trim in
    omega (
      arith,
      length-reverse (trim_start (reverse (trim_start s))),
      length-trim_start (reverse (trim_start s)),
      length-reverse (trim_start s),
      length-trim_start s,
    )

size-parsed :
    (parse : Parser) (t u : Text)
    → Fits parse
    → length u ≤ length t
    → size (elim (parse u) [ none ↦ str t | some v ↦ v ]) ≤ size (str t)
size-parsed parse t u fits h = elim (Option-cases (parse u)) [
  | inl e ↦ rw e (omega arith)
  | inr (v, e) ↦ rw e (omega (arith, fits u v e))
]

pub size-maybe_parse :
    (parse : Parser) (v : Json) → Fits parse → size (maybe_parse_json_string parse v) ≤ size v
unfolding maybe_parse_json_string
size-maybe_parse parse (str t) fits =
    elim (Bool-cases (starts_with (codes "{") (trim t) || starts_with (codes "[") (trim t))) [
      | inl e ↦ rw e (size-parsed parse t (trim t) fits (length-trim t))
      | inr e ↦ rw e (omega arith)
    ]
size-maybe_parse parse null fits = omega arith
size-maybe_parse parse (bool b) fits = omega arith
size-maybe_parse parse (num n) fits = omega arith
size-maybe_parse parse (arr items) fits = omega arith
size-maybe_parse parse (obj fs) fits = omega arith
size-maybe_parse parse (builtin t) fits = omega arith

pub size-pos : (v : Json) → 1 ≤ size v
size-pos null = omega arith
size-pos (bool b) = omega arith
size-pos (num n) = omega arith
size-pos (str t) = omega arith
size-pos (arr items) = omega arith
size-pos (obj fs) = omega arith
size-pos (builtin t) = omega arith

-- What `visit` does with the value that is parsed.
abbrev pub visit_parsed : Parser → List Text → ℕ → Json → Option Json
visit_parsed parse keys fuel w = elim w [
  | arr items ↦ visit_items parse keys fuel items
  | obj fs ↦ or_option (key_match keys fs) (visit_fields parse keys fuel fs)
  | other ↦ none
]

parsed_same :
    (parse : Parser) (keys : List Text) (n m : ℕ) (w : Json)
    → ((items : Items)
        → items_size items ≤ n
        → items_size items ≤ m
        → visit_items parse keys n items ≡ visit_items parse keys m items)
    → ((fs : Fields)
        → fields_size fs ≤ n
        → fields_size fs ≤ m
        → visit_fields parse keys n fs ≡ visit_fields parse keys m fs)
    → size w ≤ suc n
    → size w ≤ suc m
    → visit_parsed parse keys n w ≡ visit_parsed parse keys m w
parsed_same parse keys n m null i f h k = refl
parsed_same parse keys n m (bool b) i f h k = refl
parsed_same parse keys n m (num t) i f h k = refl
parsed_same parse keys n m (str t) i f h k = refl
parsed_same parse keys n m (builtin t) i f h k = refl
parsed_same parse keys n m (arr items) i f h k = i items (omega arith) (omega arith)
parsed_same parse keys n m (obj fs) i f h k =
    ap (or_option (key_match keys fs)) (f fs (omega arith) (omega arith))

mutual
  unfolding visit

  pub visit_same :
      (parse : Parser) (keys : List Text)
      → Fits parse
      → (n m : ℕ) (v : Json) → size v ≤ n
      → size v ≤ m
      → visit parse keys n v ≡ visit parse keys m v
  visit_same parse keys fits zero m v h k = absurd (omega (arith, size-pos v))
  visit_same parse keys fits (suc n) zero v h k = absurd (omega (arith, size-pos v))
  visit_same parse keys fits (suc n) (suc m) v h k =
      parsed_same parse keys n m (maybe_parse_json_string parse v) (items_same parse keys fits n m)
        (fields_same parse keys fits n m) (omega (arith, size-maybe_parse parse v fits))
        (omega (arith, size-maybe_parse parse v fits))

  items_same :
      (parse : Parser) (keys : List Text)
      → Fits parse
      → (n m : ℕ) (items : Items) → items_size items ≤ n
      → items_size items ≤ m
      → visit_items parse keys n items ≡ visit_items parse keys m items
  items_same parse keys fits zero zero nil h k = refl
  items_same parse keys fits zero (suc m) nil h k = refl
  items_same parse keys fits (suc n) zero nil h k = refl
  items_same parse keys fits (suc n) (suc m) nil h k = refl
  items_same parse keys fits zero m (cons v vs) h k = absurd (omega arith)
  items_same parse keys fits (suc n) zero (cons v vs) h k = absurd (omega arith)
  items_same parse keys fits (suc n) (suc m) (cons v vs) h k =
      rw
        (
          visit_same parse keys fits n m v (omega arith) (omega arith),
          items_same parse keys fits n m vs (omega arith) (omega arith),
        )
        refl

  fields_same :
      (parse : Parser) (keys : List Text)
      → Fits parse
      → (n m : ℕ) (fs : Fields) → fields_size fs ≤ n
      → fields_size fs ≤ m
      → visit_fields parse keys n fs ≡ visit_fields parse keys m fs
  fields_same parse keys fits zero zero end h k = refl
  fields_same parse keys fits zero (suc m) end h k = refl
  fields_same parse keys fits (suc n) zero end h k = refl
  fields_same parse keys fits (suc n) (suc m) end h k = refl
  fields_same parse keys fits zero m (field j v fs) h k = absurd (omega arith)
  fields_same parse keys fits (suc n) zero (field j v fs) h k = absurd (omega arith)
  fields_same parse keys fits (suc n) (suc m) (field j v fs) h k =
      rw
        (
          visit_same parse keys fits n m v (omega arith) (omega arith),
          fields_same parse keys fits n m fs (omega arith) (omega arith),
        )
        refl
