-- ===== src/Tests/Search.antt =====
-- The search by keys, the parameters of a picture, and the routes of the image cache.
use deedlit_dev.Base.{
  ℕ, ◌≤◌, ◌≡◌, refl, ap, subst, inl, inr, true, none, some, List, [], ◌∷◌, ◌++◌, map, arith,
  if◌then◌else◌, Bool-cases, length, Text, codes, text_eq, text_eq_iff, has, is_space, trim_start,
  trim, lower_unit, starts_with,
}
use deedlit_dev.Json.{Json, num, str, arr, obj, nil, cons, Fields, end, field}
use deedlit_dev.Insights.{
  Parser, maybe_parse_json_string, normalize_key, lowered, key_match, visit, search_value, size,
  Fits,
}
use deedlit_dev.Insights.Steps.{counted, search_value_ends}
use deedlit_dev.Insights.Found.{Reaches, is_found, search_value-Reaches}
use deedlit_dev.Insights.Cache.{find_all, find_all-search_value}
use deedlit_dev.Insights.Capture.{capture_lem}
use deedlit_dev.Insights.Parameters.{capture, starts_with_label}
use deedlit_dev.CacheRoute.{mask_url}
use deedlit_dev.CacheRoute.Mask.{mask_url_lem}

-- A parser that knows one text.
abbrev one_text : Parser
one_text t =
    if text_eq t (codes "{\"Seed\":1}")
    then some (obj (field (codes "Seed") (num (codes "1")) end))
    else none

one_text-Fits : Fits one_text
one_text-Fits t v e = elim (Bool-cases (text_eq t (codes "{\"Seed\":1}"))) [
  | inl y ↦
      let same = (text_eq_iff t (codes "{\"Seed\":1}")).0 y in
      let value : obj (field (codes "Seed") (num (codes "1")) end) ≡ v = ground (arith, y, e) in
      subst (λ (w : Json). size w ≤ length t) value
        (omega (arith, ap (λ (s : Text). length s) same))
  | inr n ↦ absurd (ground (arith, n, e))
]

abbrev nested : Json
nested = obj (field (codes "extra") (arr (cons (str (codes " {\"Seed\":1}")) nil)) end)

search_runs : search_value one_text (codes "SEED" ∷ []) nested ≡ some (num (codes "1"))
unfolding search_value visit maybe_parse_json_string key_match normalize_key lowered trim trim_start
    is_space starts_with text_eq has lower_unit
search_runs = refl

search_value_ends_example :
    (n : ℕ) × (counted one_text (map normalize_key (codes "SEED" ∷ [])) (size nested) nested
      ≡ some (search_value one_text (codes "SEED" ∷ []) nested, n))
    × (n ≤ size nested)
search_value_ends_example = search_value_ends one_text (codes "SEED" ∷ []) nested one_text-Fits

search_value-Reaches_example :
    ((x : Json)
      → search_value one_text (codes "SEED" ∷ []) nested ≡ some x
      → (fs : Fields) × Reaches one_text nested fs
        × (key_match (map normalize_key (codes "SEED" ∷ [])) fs ≡ some x))
    × ((fs : Fields)
        → Reaches one_text nested fs
        → is_found (key_match (map normalize_key (codes "SEED" ∷ [])) fs) ≡ true
        → is_found (search_value one_text (codes "SEED" ∷ []) nested) ≡ true)
search_value-Reaches_example =
    search_value-Reaches one_text (codes "SEED" ∷ []) nested one_text-Fits

abbrev calls : List (ℕ × Text × List Text)
calls = (1, codes "SEED", []) ∷ (1, codes "seed", []) ∷ (1, codes "steps", codes "cfg" ∷ []) ∷ []

find_all-search_value_example :
    find_all one_text (λ i. nested) calls []
    ≡ map (λ (c : ℕ × Text × List Text). search_value one_text (c.1 ∷ c.2) nested) calls
find_all-search_value_example = find_all-search_value one_text (λ i. nested) calls [] tt

capture_lem_example :
    capture
      (codes "Steps:")
      (codes "a cat" ++ (codes "Steps:" ++ (b' ' ∷ (codes "20" ++ codes ", x"))))
    ≡ some (trim (codes "20"))
capture_lem_example =
    capture_lem (codes "Steps:") (codes "a cat") (codes "20") (codes ", x")
      (unfold starts_with_label starts_with lower_unit in
        (refl, (refl, (refl, (refl, (refl, tt))))))
      ((unfold is_space in refl), (refl, (refl, tt))) refl

mask_url_lem_example :
    mask_url (
      codes "redis"
      ++ (b':' ∷ (codes "//bob" ++ (b':' ∷ (b'p' ∷ (codes "w" ++ (b'@' ∷ codes "host")))))))
    ≡ codes "redis" ++ (b':' ∷ (codes "//bob" ++ (codes ":***@" ++ codes "host")))
mask_url_lem_example =
    mask_url_lem (codes "redis") (codes "//bob") b'p' (codes "w") (codes "host")
      (refl, (refl, (refl, (refl, (refl, tt))))) (refl, (refl, (refl, (refl, (refl, tt)))))
      (refl, (refl, tt))
