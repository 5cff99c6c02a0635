-- ===== src/Gateway/Records.antt =====
-- The mappers of lib/api-client.ts of deedlit.dev.comfyhelper that make the cards of the library: from a
-- hit of a search, and from a record of the catalog in its declared shape.
use deedlit_dev.Base.{
  ℕ, ◌≡◌, refl, inl, inr, Bool, false, ◌||◌, Option, none, some, List, [], ◌∷◌, ◌++◌, map, arith,
  ◌==◌, if◌then◌else◌, Option-cases, or_else, or_option, take, any, Text, codes, text_eq, has,
  is_space, trim, join,
}
use deedlit_dev.Json.{Json, num, str, arr, Items, nil, cons, Fields, end, own}

-- `str(v)` of a property: a text that is not empty.
unfoldable pub text_at : Text → Fields → Option Text
unfolding own
text_at k fs = elim (own k fs) [
  | none ↦ none
  | some v ↦ elim v [ str t ↦ (elim t [ [] ↦ none | c ∷ s ↦ some (c ∷ s) ]) | other ↦ none ]
]

abbrev pub number_of : Option Json → Option Text
number_of (some (num n)) = some n
number_of _ = none

unfoldable pub strings : Items → List Text
strings nil = []
strings (cons (str t) items) = t ∷ strings items
strings (cons v items) = strings items

unfoldable pub string_array : Option Json → List Text
unfolding strings
string_array (some (arr items)) = strings items
string_array _ = []

-- `s.replace(/\s+/g, " ")`; the flag says that the unit before was white space.
unfoldable pub collapse_spaces : Bool → Text → Text
unfolding is_space
collapse_spaces before [] = []
collapse_spaces before (c ∷ s) =
    let rest = collapse_spaces (is_space c) s in
    if is_space c then (if before then rest else 32 ∷ rest) else c ∷ rest

abbrev pub summary_length : ℕ
summary_length = 140

unfoldable pub summary_of : Text → Text
unfolding collapse_spaces trim
summary_of prompt = take summary_length (trim (collapse_spaces false prompt))

abbrev pub tag_line : List Text → Option Text
tag_line [] = none
tag_line (t ∷ tags) = some (join (codes ", ") (take 8 (t ∷ tags)))

unfoldable pub summarize_payload : Option Fields → Text → Text
unfolding text_at summary_of string_array join
summarize_payload none fallback = fallback
summarize_payload (some payload) fallback =
    elim (or_option (text_at (codes "prompt") payload) (text_at (codes "summary") payload)) [
      | some prompt ↦ summary_of prompt
      | none ↦
          or_else
            (or_option (tag_line (string_array (own (codes "tags") payload)))
              (text_at (codes "filename") payload))
            fallback
    ]

abbrev pub image_url : Text → Text → Text
image_url sha256 kind = codes "/api/library/images/" ++ (sha256 ++ (b'/' ∷ kind))

unfoldable pub safety_of : Option Json → Option Text
safety_of (some (str t)) =
    if has t (codes "sfw" ∷ codes "nsfw" ∷ codes "explicit" ∷ []) then some t else none
safety_of _ = none

-- `directory` is absent on the card of a hit.
pub record CompactResult : Type 0 where
  pub image_id : Text
  pub score : Option Text
  pub thumbnail_url : Text
  pub grid_url : Text
  pub summary : Text
  pub tags : List Text
  pub model : Option Text
  pub checkpoint : Option Text
  pub rating : Option Text
  pub safety : Option Text
  pub directory : Option Text

pub record SearchHit : Type 0 where
  pub sha256 : Text
  pub score : Option Json
  pub payload : Option Fields

unfoldable pub hit_to_compact_result : SearchHit → CompactResult
unfolding text_at string_array summarize_payload safety_of
hit_to_compact_result hit =
    let p = or_else hit.payload end in
    record {
      image_id = hit.sha256;
      score = number_of hit.score;
      thumbnail_url =
          or_else (or_option (text_at (codes "thumbnail_url") p) (text_at (codes "thumbnailUrl") p))
            (image_url hit.sha256 (codes "thumbnail"));
      grid_url = image_url hit.sha256 (codes "grid");
      summary = summarize_payload (some p) hit.sha256;
      tags = string_array (own (codes "tags") p);
      model = or_option (text_at (codes "model") p) (text_at (codes "checkpoint") p);
      checkpoint = text_at (codes "checkpoint") p;
      rating = number_of (own (codes "rating") p);
      safety = safety_of (own (codes "safety") p);
      directory = none;
    }

pub record Reference : Type 0 where
  pub kind : Text
  pub name : Text

-- A record of the catalog: its references, and its other properties.
pub record CatalogImage : Type 0 where
  pub sha256 : Text
  pub references : List Reference
  pub fields : Fields

unfoldable pub ref_name : List Reference → Text → Option Text
ref_name [] kind = none
ref_name (r ∷ refs) kind = if text_eq r.kind kind then some r.name else ref_name refs kind

abbrev pub is_separator : ℕ → Bool
is_separator c = c == b'/' || c == b'\\'

abbrev pub is_line_end : ℕ → Bool
is_line_end c = c == 10 || c == 13 || c == 0x2028 || c == 0x2029

-- `path.replace(/^.*[/\\]/, "")`: what follows the last separator of the first line; `rest` is what
-- follows the last so far.
unfoldable pub base_from : Text → Text → Text
base_from rest [] = rest
base_from rest (c ∷ s) =
    let later = base_from (if is_separator c then s else rest) s in
    if is_line_end c then rest else later

unfoldable pub base_name : Text → Text
unfolding base_from
base_name path = base_from path path

abbrev pub slashed : Text → Text
slashed = map (λ c. if c == b'\\' then b'/' else c)

-- What stands before the last slash.
unfoldable pub before_slash : Text → Option Text
before_slash [] = none
before_slash (c ∷ s) = elim (before_slash s) [
  | some t ↦ some (c ∷ t)
  | none ↦ if c == b'/' then some [] else none
]

-- `path.replace(/\\/g, "/").replace(/\/[^/]*$/, "")`.
unfoldable pub directory_of : Text → Text
unfolding before_slash
directory_of path = or_else (before_slash (slashed path)) (slashed path)

abbrev pub path_of : Fields → Option Text
path_of fs =
    or_option (text_at (codes "filepath") fs)
      (or_option (text_at (codes "filePath") fs) (text_at (codes "file_path") fs))

abbrev pub mapped : (Text → Text) → Option Text → Option Text
mapped f none = none
mapped f (some t) = some (f t)

unfoldable pub catalog_image_to_compact_result : CatalogImage → CompactResult
unfolding text_at string_array summary_of ref_name base_name directory_of safety_of join
catalog_image_to_compact_result image =
    let fs = image.fields in
    let tags = string_array (own (codes "tags") fs) in
    let path = path_of fs in
    let checkpoint = ref_name image.references (codes "checkpoint") in
    record {
      image_id = image.sha256;
      score = none;
      thumbnail_url = image_url image.sha256 (codes "thumbnail");
      grid_url = image_url image.sha256 (codes "grid");
      summary =
          or_else
            (or_option (mapped summary_of (text_at (codes "prompt") fs))
              (or_option (tag_line tags) (mapped base_name path)))
            image.sha256;
      tags = tags;
      model = or_option checkpoint (text_at (codes "model") fs);
      checkpoint = checkpoint;
      rating = number_of (own (codes "rating") fs);
      safety = safety_of (own (codes "safety") fs);
      directory = or_option (text_at (codes "directory") fs) (mapped directory_of path);
    }

base_from-none :
    (s rest : Text)
    → any is_line_end s ≡ false
    → before_slash (slashed s) ≡ none
    → base_from rest s ≡ rest
unfolding base_from before_slash
base_from-none [] rest h e = refl
base_from-none (c ∷ s) rest h e = elim (Option-cases (before_slash (slashed s))) [
  | inr (t, f) ↦ absurd (ground (arith, e, f))
  | inl f ↦ ground (arith, h, e, f, base_from-none s rest)
]

base_from-some :
    (s rest d : Text)
    → any is_line_end s ≡ false
    → before_slash (slashed s) ≡ some d
    → d ++ (b'/' ∷ slashed (base_from rest s)) ≡ slashed s
unfolding base_from before_slash
base_from-some [] rest d h e = absurd (ground (arith, e))
base_from-some (c ∷ s) rest d h e = elim (Option-cases (before_slash (slashed s))) [
  | inr (t, f) ↦ ground (arith, h, e, f, base_from-some s (if is_separator c then s else rest) t)
  | inl f ↦ ground (arith, h, e, f, base_from-none s (if is_separator c then s else rest))
]

-- The directory and the file name of a card are the two parts of the path: joined by a slash they are
-- the path with slashes for backslashes, where it is one line with a separator.
pub directory_of-base_name :
    (path d : Text)
    → any is_line_end path ≡ false
    → before_slash (slashed path) ≡ some d
    → directory_of path ++ (b'/' ∷ slashed (base_name path)) ≡ slashed path
unfolding directory_of base_name
directory_of-base_name path d h e = rw e (base_from-some path path d h e)
