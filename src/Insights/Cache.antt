-- ===== src/Insights/Cache.antt =====
-- `findFirstValueByKeys` with the results that it keeps for each object and list of keys.
use deedlit_dev.Base.{
  ℕ, ◌≡◌, refl, sym, ap, ◌∙◌, inl, inr, Bool, true, false, not, ◌&&◌, Option, none, some, List, [],
  ◌∷◌, ◌++◌, map, arith, ◌==◌, if◌then◌else◌, Bool-cases, Option-cases, &&-true, filter, All, Text,
  codes, text_eq, text_eq_iff, has, split_at, join,
}
use deedlit_dev.Json.{Json, null, bool, num, str, arr, obj, builtin}
use deedlit_dev.Insights.{
  Parser, is_record, is_key_unit, lowered, normalize_key, get_cache_key, maybe_parse_json_string,
  visit, search_value, size, to_display_value,
}

-- A result kept for an object, by its identity. The latest stands first.
pub record Kept : Type 0 where
  pub owner : ℕ
  pub key : Text
  pub result : Option Json

unfoldable pub kept_result : ℕ → Text → List Kept → Option (Option Json)
kept_result owner key [] = none
kept_result owner key (k ∷ cache) =
    if k.owner == owner && text_eq k.key key then some k.result else kept_result owner key cache

unfoldable pub is_truthy : Json → Bool
is_truthy null = false
is_truthy (bool b) = b
is_truthy (str []) = false
is_truthy (num n) = not (has n (codes "0" ∷ codes "NaN" ∷ []))
is_truthy _ = true

module _ (parse : Parser) where
  -- The result, and the results that are kept afterwards. The first number is the object's identity.
  unfoldable pub find_first_value_by_keys :
      ℕ → Json → List Text → List Kept → Option Json × List Kept
  unfolding search_value
  find_first_value_by_keys owner root keys cache =
      let result = search_value parse keys root in
      let key = get_cache_key keys in
      if not (is_truthy root)
      then (none, cache)
      else if not (is_record root)
      then (result, cache)
      else elim (kept_result owner key cache) [
        | some kept ↦ (kept, cache)
        | none ↦ (result, record { owner = owner; key = key; result = result } ∷ cache)
      ]

  unfoldable pub extract_prompt_text_from_metadata :
      ℕ → Json → List Text → List Kept → Option Text × List Kept
  unfolding find_first_value_by_keys to_display_value
  extract_prompt_text_from_metadata owner metadata keys cache =
      let r = find_first_value_by_keys owner metadata keys cache in (to_display_value r.0, r.1)

-- A text with none of the code unit.
abbrev Lacks : ℕ → Text → Type 0
Lacks d t = All (λ c. (c == d) ≡ false) t

split_at-cons :
    (d c : ℕ) (s p : Text) (ps : List Text)
    → (c == d) ≡ false
    → split_at d s ≡ p ∷ ps
    → split_at d (c ∷ s) ≡ (c ∷ p) ∷ ps
unfolding split_at
split_at-cons d c s p ps n e = rw e (rw n refl)

split_at-here :
    (d : ℕ) (s p : Text) (ps : List Text) → split_at d s ≡ p ∷ ps → split_at d (d ∷ s) ≡ [] ∷ p ∷ ps
unfolding split_at
split_at-here d s p ps e = rw e (ground arith)

split_at-Lacks : (d : ℕ) (t : Text) → Lacks d t → split_at d t ≡ t ∷ []
split_at-Lacks d [] h = unfold split_at in refl
split_at-Lacks d (c ∷ t) (n, h) = split_at-cons d c t t [] n (split_at-Lacks d t h)

split_at-append :
    (d : ℕ) (t rest p : Text) (ps : List Text)
    → Lacks d t
    → split_at d rest ≡ p ∷ ps
    → split_at d (t ++ (d ∷ rest)) ≡ t ∷ p ∷ ps
split_at-append d [] rest p ps h e = split_at-here d rest p ps e
split_at-append d (c ∷ t) rest p ps (n, h) e =
    split_at-cons d c (t ++ (d ∷ rest)) t (p ∷ ps) n (split_at-append d t rest p ps h e)

split_at-join :
    (d : ℕ) (p : Text) (ps : List Text)
    → All (Lacks d) (p ∷ ps)
    → split_at d (join (d ∷ []) (p ∷ ps)) ≡ p ∷ ps
unfolding join
split_at-join d p [] (h, t) = split_at-Lacks d p h
split_at-join d p (q ∷ ps) (h, t) =
    split_at-append d p (join (d ∷ []) (q ∷ ps)) q ps h (split_at-join d q ps t)

Lacks-filter : (s : Text) → Lacks b'|' (filter is_key_unit s)
Lacks-filter [] = tt
Lacks-filter (c ∷ s) = elim (Bool-cases (is_key_unit c)) [
  | inl e ↦ rw e (ground (arith, e), Lacks-filter s)
  | inr e ↦ rw e (Lacks-filter s)
]

Lacks-keys : (keys : List Text) → All (Lacks b'|') (map normalize_key keys)
Lacks-keys [] = tt
Lacks-keys (k ∷ keys) = ((unfold normalize_key in Lacks-filter (lowered k)), Lacks-keys keys)

-- The key of a list of keys says which normalized keys it has.
get_cache_key-injective :
    (k j : Text) (ks js : List Text)
    → get_cache_key (k ∷ ks) ≡ get_cache_key (j ∷ js)
    → map normalize_key (k ∷ ks) ≡ map normalize_key (j ∷ js)
unfolding get_cache_key
get_cache_key-injective k j ks js e =
    sym (split_at-join b'|' (normalize_key k) (map normalize_key ks) (Lacks-keys (k ∷ ks)))
    ∙ ap (split_at b'|') e
    ∙ split_at-join b'|' (normalize_key j) (map normalize_key js) (Lacks-keys (j ∷ js))

-- The objects that the code searches, by identity: none of them changes.
module _ (parse : Parser) (objects : ℕ → Json) where
  -- What is kept is what the search gives.
  abbrev pub IsKept : Kept → Type 0
  IsKept k =
      (key : Text) × (keys : List Text) × (k.key ≡ get_cache_key (key ∷ keys))
      × (k.result ≡ search_value parse (key ∷ keys) (objects k.owner))

  search_same :
      (owner : ℕ) (key : Text) (keys : List Text) (k : Kept)
      → IsKept k
      → k.owner ≡ owner
      → k.key ≡ get_cache_key (key ∷ keys)
      → k.result ≡ search_value parse (key ∷ keys) (objects owner)
  search_same owner key keys k (j, js, e, r) o c =
      let same : map normalize_key (j ∷ js) ≡ map normalize_key (key ∷ keys) =
        get_cache_key-injective j key js keys (sym e ∙ c) in
      r
      ∙ (unfold search_value in
          (ap (λ (n : ℕ). visit parse (map normalize_key (j ∷ js)) (size (objects n)) (objects n)) o
            ∙ ap (λ (ns : List Text). visit parse ns (size (objects owner)) (objects owner)) same))

  kept_result_lem :
      (owner : ℕ) (key : Text) (keys : List Text) (cache : List Kept) (r : Option Json)
      → All IsKept cache
      → kept_result owner (get_cache_key (key ∷ keys)) cache ≡ some r
      → r ≡ search_value parse (key ∷ keys) (objects owner)
  unfolding kept_result
  kept_result_lem owner key keys [] r h e = absurd (ground (arith, e))
  kept_result_lem owner key keys (k ∷ cache) r (i, h) e =
      elim (Bool-cases (k.owner == owner && text_eq k.key (get_cache_key (key ∷ keys)))) [
        | inl y ↦
            let both = &&-true (k.owner == owner) (text_eq k.key (get_cache_key (key ∷ keys))) y in
            let here : k.result ≡ r = ground (arith, y, e) in
            sym here
            ∙ search_same owner key keys k i (ground (arith, both.0))
                ((text_eq_iff k.key (get_cache_key (key ∷ keys))).0 both.1)
        | inr n ↦ kept_result_lem owner key keys cache r h (ground (arith, n, e))
      ]

  search-falsy :
      (keys : List Text) (root : Json)
      → is_truthy root ≡ false
      → search_value parse keys root ≡ none
  unfolding is_truthy search_value visit maybe_parse_json_string
  search-falsy keys null h = refl
  search-falsy keys (bool b) h = refl
  search-falsy keys (num n) h = refl
  search-falsy keys (str []) h = refl
  search-falsy keys (str (c ∷ s)) h = absurd (ground (arith, h))
  search-falsy keys (arr items) h = absurd (ground (arith, h))
  search-falsy keys (obj fs) h = absurd (ground (arith, h))
  search-falsy keys (builtin t) h = absurd (ground (arith, h))

  -- A cached search is the search, whatever is in the cache, and it keeps the cache right.
  pub find_first_value_by_keys-search_value :
      (owner : ℕ) (key : Text) (keys : List Text) (cache : List Kept)
      → All IsKept cache
      → let r = find_first_value_by_keys parse owner (objects owner) (key ∷ keys) cache in
        (r.0 ≡ search_value parse (key ∷ keys) (objects owner)) × All IsKept r.1
  unfolding find_first_value_by_keys
  find_first_value_by_keys-search_value owner key keys cache h =
      elim (Bool-cases (is_truthy (objects owner))) [
        | inr f ↦ rw f (sym (search-falsy (key ∷ keys) (objects owner) f), h)
        | inl t ↦ elim (Bool-cases (is_record (objects owner))) [
          | inr n ↦ rw t (rw n (refl, h))
          | inl y ↦ elim (Option-cases (kept_result owner (get_cache_key (key ∷ keys)) cache)) [
            | inl e ↦ rw t (rw y (rw e (refl, ((key, keys, refl, refl), h))))
            | inr (r, e) ↦ rw t (rw y (rw e (kept_result_lem owner key keys cache r h e, h)))
          ]
        ]
      ]

  -- A search by keys, of an object.
  unfoldable pub find_all : List (ℕ × Text × List Text) → List Kept → List (Option Json)
  find_all [] cache = []
  find_all ((owner, key, keys) ∷ calls) cache =
      let r = find_first_value_by_keys parse owner (objects owner) (key ∷ keys) cache in
      r.0 ∷ find_all calls r.1

  -- Any run of cached searches of objects that do not change, each with at least one key, gives
  -- what searches without the cache give.
  pub find_all-search_value :
      (calls : List (ℕ × Text × List Text)) (cache : List Kept)
      → All IsKept cache
      → find_all calls cache
        ≡ map (λ (c : ℕ × Text × List Text). search_value parse (c.1 ∷ c.2) (objects c.0)) calls
  unfolding find_all
  find_all-search_value [] cache h = refl
  find_all-search_value ((owner, key, keys) ∷ calls) cache h =
      let r = find_first_value_by_keys parse owner (objects owner) (key ∷ keys) cache in
      let step = find_first_value_by_keys-search_value owner key keys cache h in
      rw (step.0) (
        ap (◌∷◌ (search_value parse (key ∷ keys) (objects owner)))
          (find_all-search_value calls r.1 step.1))
