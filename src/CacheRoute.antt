-- ===== src/CacheRoute.antt =====
-- app/api/library/cache/route.ts of deedlit.dev.comfyhelper: what Redis holds of images, and the
-- deletion of all of it. Redis is a parameter, read at one moment by GET.
pub mod Routes
pub mod Mask
pub mod Scan
pub mod Sample
use deedlit_dev.Base.{
  ℕ, zero, suc, ◌+◌, ◌-◌, ◌*◌, ◌/◌, ◌%◌, ◌≤◌, ◌<◌, ◌≡◌, refl, sym, ap, ◌∙◌, subst, ◌≢◌, ◌↔◌, ◌⊎◌,
  inl, inr, Bool, true, false, not, ◌&&◌, ◌||◌, Option, none, some, List, [], ◌∷◌, ◌++◌, map,
  reverse, append_assoc, append-nil, arith, ltb, leb, ◌==◌, if◌then◌else◌, Bool-cases, Option-cases,
  or_else, or_option, &&-true, ||-true, length, take, drop, get_elem?, slice, filter, any, all,
  find, concat, replicate, All, length-append, length-drop, length-take, take-append-drop, drop-nil,
  drop-drop, get_elem?-drop, take-append, drop-append, filter-append, length-filter-le, filter_idem,
  concat-append, length-map, take-drop-take, take-append-le, drop-append-le, Text, Bytes, codes,
  text_eq, text_eq_iff, text_eq_refl, has, is_space, trim_start, trim, lower_unit, to_lower,
  starts_with, ends_with, includes, split_at, join, In, has_iff, cut_last_dot, extname, IsDistinct,
  append_cancel,
}
use deedlit_dev.Base.Decimal.{value}
use deedlit_dev.Base.Outcome.{Outcome, returned, thrown, ◌>>=◌, catch}

-- A cursor and a batch of keys; `ttl` of a list of keys in one pipeline, which may give no results.
pub record Redis : Type 0 where
  pub ping : Bool
  pub scan : Text → Text → Outcome (Text × List Text)
  pub info : Text → Outcome Text
  pub ttls : List Text → Outcome (Option (List Text))

-- The loop of `scanKeys`, on fuel: nothing where the cursor has not come back to "0".
unfoldable pub scan_from : Redis → Text → ℕ → Text → Outcome (Option (List Text))
scan_from redis pattern zero cursor = returned none
scan_from redis pattern (suc fuel) cursor = redis.scan cursor pattern >>= λ r.
    if text_eq r.0 (codes "0")
    then returned (some r.1)
    else (scan_from redis pattern fuel r.0 >>= λ rest.
        returned (elim rest [ none ↦ none | some keys ↦ some (r.1 ++ keys) ]))

abbrev pub scan_keys : Redis → Text → ℕ → Outcome (Option (List Text))
scan_keys redis pattern fuel = scan_from redis pattern fuel (codes "0")

abbrev pub ends_line : ℕ → Bool
ends_line c = c == 10 || c == 13 || c == 0x2028 || c == 0x2029

unfoldable pub split_lines : Text → List Text
split_lines [] = [] ∷ []
split_lines (c ∷ s) = elim (split_lines s) [
  | [] ↦ [] ∷ []
  | l ∷ ls ↦ if ends_line c then [] ∷ l ∷ ls else (c ∷ l) ∷ ls
]

-- What stands behind `field:` in the first line where that is not empty and passes the test.
unfoldable pub field_line : Text → (Text → Bool) → List Text → Option Text
unfolding starts_with
field_line field ok [] = none
field_line field ok (l ∷ ls) =
    let label = field ++ codes ":" in
    let rest = drop (length label) l in
    if starts_with label l && not (text_eq rest []) && ok rest
    then some rest
    else field_line field ok ls

unfoldable pub parse_memory_info : Text → Text → Option Text
unfolding field_line split_lines trim
parse_memory_info info field = elim (field_line field (λ t. true) (split_lines info)) [
  | none ↦ none
  | some t ↦ some (trim t)
]

abbrev pub is_digit : ℕ → Bool
is_digit c = leb b'0' c && leb c b'9'

-- `parseInt` is exact below 2⁵³.
unfoldable pub parse_stats_info : Text → Text → Option ℕ
unfolding field_line split_lines value
parse_stats_info info field = elim (field_line field (all is_digit) (split_lines info)) [
  | none ↦ none
  | some t ↦ some (value 0 t)
]

-- `[^:@]+@` at the start of a text: what stands behind it.
unfoldable pub after_secret : Text → Option Text
after_secret [] = none
after_secret (c ∷ s) =
    if c == b':' || c == b'@'
    then none
    else elim s [ [] ↦ none | d ∷ t ↦ if d == b'@' then some t else after_secret s ]

-- `url.replace(/:[^:@]+@/, ":***@")`.
unfoldable pub mask_url : Text → Text
unfolding after_secret
mask_url [] = []
mask_url (c ∷ s) = elim (if c == b':' then after_secret s else none) [
  | some t ↦ codes ":***@" ++ t
  | none ↦ c ∷ mask_url s
]

pub record Flags : Type 0 where
  pub has_thumb : Bool
  pub has_orig : Bool

abbrev pub no_flags : Flags
no_flags = record { has_thumb = false; has_orig = false }

unfoldable pub strip_prefix : Text → Text → Text
unfolding starts_with
strip_prefix p s = if starts_with p s then drop (length p) s else s

unfoldable pub strip_suffix : Text → Text → Text
unfolding ends_with
strip_suffix p s = if ends_with p s then take (length s - length p) s else s

unfoldable pub sha_of : Text → Text → Text
unfolding strip_prefix strip_suffix
sha_of suffix key = strip_suffix suffix (strip_prefix (codes "img:") key)

-- `map.set(k, f(map.get(k) ?? noFlags))`, in the order of first insertion.
unfoldable pub set_flags : Text → (Flags → Flags) → List (Text × Flags) → List (Text × Flags)
set_flags sha f [] = (sha, f no_flags) ∷ []
set_flags sha f ((k, flags) ∷ entries) =
    if text_eq k sha then (k, f flags) ∷ entries else (k, flags) ∷ set_flags sha f entries

unfoldable pub add_keys :
    Text → (Flags → Flags) → List Text → List (Text × Flags) → List (Text × Flags)
unfolding set_flags sha_of
add_keys suffix f [] entries = entries
add_keys suffix f (k ∷ keys) entries =
    add_keys suffix f keys (set_flags (sha_of suffix k) f entries)

abbrev pub mark_thumb : Flags → Flags
mark_thumb flags = record flags { has_thumb = true }

abbrev pub mark_orig : Flags → Flags
mark_orig flags = record flags { has_orig = true }

unfoldable pub sha_entries : List Text → List Text → List (Text × Flags)
unfolding add_keys
sha_entries thumb_keys orig_keys =
    add_keys (codes ":orig:data") mark_orig orig_keys
      (add_keys (codes ":thumb:data") mark_thumb thumb_keys [])

abbrev pub data_key : Text → Text → Text
data_key sha suffix = codes "img:" ++ (sha ++ suffix)

-- The two commands of each entry.
unfoldable pub ttl_commands : List (Text × Flags) → List Text
ttl_commands [] = []
ttl_commands ((sha, flags) ∷ entries) =
    (if flags.has_thumb then data_key sha (codes ":thumb:data") else codes "__missing__")
    ∷ (if flags.has_orig then data_key sha (codes ":orig:data") else codes "__missing__")
    ∷ ttl_commands entries

pub record SampleEntry : Type 0 where
  pub sha256 : Text
  pub has_thumb : Bool
  pub has_orig : Bool
  pub thumb_ttl : Option Text
  pub orig_ttl : Option Text

-- `flag && results ? results[i][1] : null`, which throws where there is no such result.
abbrev pub ttl_at : Bool → Option (List Text) → ℕ → Outcome (Option Text)
ttl_at false results i = returned none
ttl_at true none i = returned none
ttl_at true (some results) i = elim (get_elem? results i) [
  | none ↦ thrown (codes "Cannot read properties of undefined (reading '1')")
  | some t ↦ returned (some t)
]

unfoldable pub sample_of : Option (List Text) → ℕ → List (Text × Flags) → Outcome (List SampleEntry)
sample_of results i [] = returned []
sample_of results i ((sha, flags) ∷ entries) = ttl_at flags.has_thumb results (i * 2) >>= λ thumb.
    ttl_at flags.has_orig results (i * 2 + 1) >>= λ orig.
    sample_of results (i + 1) entries >>= λ rest. returned (
      record {
        sha256 = sha;
        has_thumb = flags.has_thumb;
        has_orig = flags.has_orig;
        thumb_ttl = thumb;
        orig_ttl = orig;
      }
      ∷ rest)

abbrev pub sample_size : ℕ
sample_size = 30

-- The sample of what is there, with the times to live.
unfoldable pub sample_entries : Redis → List Text → List Text → Outcome (List SampleEntry)
unfolding sha_entries ttl_commands sample_of
sample_entries redis thumb_keys orig_keys =
    elim (take sample_size (sha_entries thumb_keys orig_keys)) [
      | [] ↦ returned []
      | e ∷ entries ↦
          redis.ttls (ttl_commands (e ∷ entries)) >>= λ results. sample_of results 0 (e ∷ entries)
    ]
