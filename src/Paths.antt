-- ===== src/Paths.antt =====
-- lib/library/paths.ts of deedlit.dev.comfyhelper.
pub mod Laws
pub mod Tidy
use deedlit_dev.Base.{
  ℕ, zero, suc, ◌+◌, ◌-◌, ◌*◌, ◌/◌, ◌%◌, ◌≤◌, ◌<◌, ◌≡◌, refl, sym, ap, ◌∙◌, subst, ◌≢◌, ◌↔◌, ◌⊎◌,
  inl, inr, Bool, true, false, not, ◌&&◌, ◌||◌, Option, none, some, List, [], ◌∷◌, ◌++◌, map,
  reverse, append_assoc, append-nil, arith, ltb, leb, ◌==◌, if◌then◌else◌, Bool-cases, Option-cases,
  or_else, or_option, &&-true, ||-true, length, take, drop, get_elem?, slice, filter, any, all,
  find, concat, replicate, All, length-append, length-drop, length-take, take-append-drop, drop-nil,
  drop-drop, get_elem?-drop, take-append, drop-append, filter-append, length-filter-le, filter_idem,
  concat-append, length-map, take-drop-take, take-append-le, drop-append-le, Text, Bytes, codes,
  text_eq, text_eq_iff, text_eq_refl, has, is_space, trim_start, trim, lower_unit, to_lower,
  starts_with, ends_with, includes, split_at, join, In, has_iff, cut_last_dot, extname, IsDistinct,
  append_cancel,
}

abbrev pub image_extensions : List Text
image_extensions = codes ".png" ∷ codes ".webp" ∷ codes ".jpg" ∷ codes ".jpeg" ∷ []

unfoldable pub is_image_file : Text → Bool
is_image_file name = elim (cut_last_dot name) [
  | none ↦ false
  | some (stem, ext) ↦ has (to_lower ext) image_extensions
]

abbrev pub slash : ℕ
slash = b'/'

abbrev pub backslash : ℕ
backslash = b'\\'

abbrev pub is_sep : ℕ → Bool
is_sep c = c == slash || c == backslash

-- `/^(\\\\|\/\/)/`: a doubled separator in front, and what follows it.
unfoldable pub cut_lead : Text → Text × Text
cut_lead (c ∷ d ∷ s) =
    if (c == slash && d == slash) || (c == backslash && d == backslash)
    then (c ∷ d ∷ [], s)
    else ([], c ∷ d ∷ s)
cut_lead s = ([], s)

-- `replace(/c{2,}/g, c)`: of each run of `c` one is kept.
unfoldable pub collapse : ℕ → Text → Text
collapse sep [] = []
collapse sep (c ∷ []) = c ∷ []
collapse sep (c ∷ d ∷ s) =
    let rest = collapse sep (d ∷ s) in if c == sep && d == sep then rest else c ∷ rest

abbrev pub is_letter : ℕ → Bool
is_letter c = (leb b'a' c && leb c b'z') || (leb b'A' c && leb c b'Z')

-- `/^[A-Za-z]:[\\/]?$/`.
unfoldable pub is_drive : Text → Bool
is_drive (c ∷ d ∷ []) = is_letter c && d == b':'
is_drive (c ∷ d ∷ e ∷ []) = is_letter c && d == b':' && is_sep e
is_drive _ = false

-- `replace(/[\\/]+$/, "")`.
unfoldable pub drop_seps : Text → Text
drop_seps [] = []
drop_seps (c ∷ s) = if is_sep c then drop_seps s else c ∷ s

unfoldable pub strip_trailing : Text → Text
strip_trailing s = reverse (drop_seps (reverse s))

-- What is done to a path behind its lead.
unfoldable pub tidy_body : Text → Text
tidy_body raw =
    let body = collapse backslash (collapse slash raw) in
    if not (is_drive body) && ltb 1 (length body) then strip_trailing body else body

unfoldable pub normalize_path : Text → Text
normalize_path raw =
    let trimmed = trim raw in
    if text_eq trimmed [] then [] else (let cut = cut_lead trimmed in cut.0 ++ tidy_body cut.1)

unfoldable pub path_key : Text → Text
path_key path = to_lower (normalize_path path)

-- `raw.split(/\r?\n/)`.
unfoldable pub drop_cr : Text → Text
drop_cr [] = []
drop_cr (c ∷ []) = if c == 13 then [] else c ∷ []
drop_cr (c ∷ d ∷ s) = c ∷ drop_cr (d ∷ s)

-- A carriage return goes with the newline behind it; the last line keeps its own.
unfoldable pub drop_crs : List Text → List Text
drop_crs [] = []
drop_crs (l ∷ []) = l ∷ []
drop_crs (l ∷ m ∷ ls) = drop_cr l ∷ drop_crs (m ∷ ls)

unfoldable pub lines_of : Text → List Text
lines_of raw = drop_crs (split_at 10 raw)

-- The loop of `splitPaths`: `seen` holds the keys met so far.
unfoldable pub collect_paths : List Text → List Text → List Text
collect_paths seen [] = []
collect_paths seen (line ∷ lines) =
    let norm = normalize_path line in
    let key = to_lower norm in
    let skipped = collect_paths seen lines in
    let taken = norm ∷ collect_paths (key ∷ seen) lines in
    if text_eq norm [] || has key seen then skipped else taken

unfoldable pub split_paths : Text → List Text
split_paths raw = collect_paths [] (lines_of raw)

unfoldable pub is_already_configured : Text → List Text → Bool
is_already_configured path existing =
    let key = path_key path in
    if text_eq key [] then false else any (λ e. text_eq (path_key e) key) existing

-- `path.replace(/^(\\\\|\/\/)/, "")`, then both separators.
unfoldable pub has_mixed_separators : Text → Bool
has_mixed_separators path =
    let body = (cut_lead path).1 in any (λ c. c == backslash) body && any (λ c. c == slash) body
