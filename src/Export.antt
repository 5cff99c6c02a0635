-- ===== src/Export.antt =====
-- lib/library/bulk-export.ts of deedlit.dev.comfyhelper: what is asked for, and the files that are
-- offered for download.
pub mod Reader
pub mod RoundTrip
pub mod Pool
pub mod Lanes
pub mod Run
use deedlit_dev.Base.{
  ℕ, zero, suc, ◌+◌, ◌-◌, ◌*◌, ◌/◌, ◌%◌, ◌≤◌, ◌<◌, ◌≡◌, refl, sym, ap, ◌∙◌, subst, ◌≢◌, ◌↔◌, ◌⊎◌,
  inl, inr, Bool, true, false, not, ◌&&◌, ◌||◌, Option, none, some, List, [], ◌∷◌, ◌++◌, map,
  reverse, append_assoc, append-nil, arith, ltb, leb, ◌==◌, if◌then◌else◌, Bool-cases, Option-cases,
  or_else, or_option, &&-true, ||-true, length, take, drop, get_elem?, slice, filter, any, all,
  find, concat, replicate, All, length-append, length-drop, length-take, take-append-drop, drop-nil,
  drop-drop, get_elem?-drop, take-append, drop-append, filter-append, length-filter-le, filter_idem,
  concat-append, length-map, take-drop-take, take-append-le, drop-append-le, Text, Bytes, codes,
  text_eq, text_eq_iff, text_eq_refl, has, is_space, trim_start, trim, lower_unit, to_lower,
  starts_with, ends_with, includes, split_at, join, In, has_iff, cut_last_dot, extname, IsDistinct,
  append_cancel,
}
use deedlit_dev.Base.Outcome.{Outcome, returned, thrown}
use deedlit_dev.Base.Decimal.{show}
use deedlit_dev.Json.{
  Json, null, bool, num, str, arr, obj, builtin, Items, nil, cons, Fields, end, field, own,
}
use deedlit_dev.Bulk.Delete.{Failure}

-- A record of the catalog, as far as it is read here; numbers as `String` prints them.
pub record CatalogImage : Type 0 where
  pub sha256 : Text
  pub filepath : Option Text
  pub file_path : Option Text
  pub width : Option Text
  pub height : Option Text
  pub rating : Option Text
  pub favorite : Option Bool
  pub safety : Option Text
  pub source_tool : Option Text
  pub created_at : Option Text
  pub tags : Option (List Text)

pub record SimpleExportRecord : Type 0 where
  pub id : Text
  pub sha256 : Text
  pub file_path : Option Text
  pub filename : Option Text
  pub width : Option Text
  pub height : Option Text
  pub rating : Option Text
  pub favorite : Bool
  pub safety : Option Text
  pub source_tool : Option Text
  pub created_at : Option Text
  pub tags : List Text

-- `path.split(/[\\/]/).pop()`: what follows the last separator; `name` is what follows the last so
-- far.
unfoldable pub last_segment : Text → Text → Text
last_segment name [] = name
last_segment name (c ∷ s) = last_segment (if c == b'/' || c == b'\\' then [] else name ++ c ∷ []) s

unfoldable pub file_name_of : Option Text → Option Text
unfolding last_segment
file_name_of none = none
file_name_of (some []) = none
file_name_of (some (c ∷ s)) = some (last_segment [] (c ∷ s))

unfoldable pub to_simple_record : CatalogImage → SimpleExportRecord
unfolding file_name_of
to_simple_record image =
    let file_path = or_option image.filepath image.file_path in
    record {
      id = image.sha256;
      sha256 = image.sha256;
      file_path = file_path;
      filename = file_name_of file_path;
      width = image.width;
      height = image.height;
      rating = image.rating;
      favorite = or_else image.favorite false;
      safety = image.safety;
      source_tool = image.source_tool;
      created_at = image.created_at;
      tags = or_else image.tags [];
    }

-- What the export route answers, and what is made of it.
pub record ExportBody : Type 0 where
  pub exported_at : Option Text
  pub requested : Option ℕ
  pub count : Option ℕ
  pub images : Option (List CatalogImage)
  pub errors : Option (List Failure)
  pub error : Option Text

pub record BulkExportResult : Type 0 where
  pub exported_at : Text
  pub requested : ℕ
  pub count : ℕ
  pub images : List CatalogImage
  pub errors : List Failure

abbrev pub empty_body : ExportBody
empty_body = record {
  exported_at = none;
  requested = none;
  count = none;
  images = none;
  errors = none;
  error = none;
}

abbrev pub export_failed : ℕ → Text
export_failed status = codes "Export failed (HTTP " ++ (show status ++ codes ")")

-- `status` and `body` are those of the response, `none` where the body is no JSON; `now` is the time
-- of the call.
unfoldable pub export_images : List Text → Text → ℕ → Option ExportBody → Outcome BulkExportResult
export_images ids now status answer =
    let body = or_else answer empty_body in
    if leb 200 status && leb status 299
    then returned (record {
      exported_at = or_else body.exported_at now;
      requested = or_else body.requested (length ids);
      count = or_else body.count (elim body.images [ none ↦ 0 | some images ↦ length images ]);
      images = or_else body.images [];
      errors = or_else body.errors [];
    })
    else thrown (or_else body.error (export_failed status))

-- `String(v)`, and the entries of an array as `join` prints them.
unfoldable mutual
  pub string_of : Json → Text
  string_of null = codes "null"
  string_of (bool b) = if b then codes "true" else codes "false"
  string_of (num n) = n
  string_of (str s) = s
  string_of (arr items) = join (b',' ∷ []) (entries_of items)
  string_of (obj fields) = codes "[object Object]"
  string_of (builtin name) = name

  pub entries_of : Items → List Text
  entries_of nil = []
  entries_of (cons null items) = [] ∷ entries_of items
  entries_of (cons item items) = string_of item ∷ entries_of items

abbrev pub quote : ℕ
quote = b'"'

abbrev pub comma : ℕ
comma = b','

-- `/[",\n]/`.
abbrev pub is_special : ℕ → Bool
is_special c = c == quote || c == comma || c == 10

-- `s.replace(/"/g, '""')`.
unfoldable pub double_quotes : Text → Text
double_quotes [] = []
double_quotes (c ∷ s) = if c == quote then c ∷ c ∷ double_quotes s else c ∷ double_quotes s

unfoldable pub quoted : Text → Text
quoted s = if any is_special s then quote ∷ (double_quotes s ++ quote ∷ []) else s

-- The text of a cell before quoting.
unfoldable pub cell_text : Option Json → Text
cell_text none = []
cell_text (some null) = []
cell_text (some (arr items)) = join (codes "; ") (entries_of items)
cell_text (some v) = string_of v

unfoldable pub keys : Fields → List Text
keys end = []
keys (field k v fs) = k ∷ keys fs

unfoldable pub line_of : List Text → Text
line_of cells = join (comma ∷ []) cells

abbrev pub cells_of : List Text → Fields → List Text
cells_of headers row = map (λ h. cell_text (own h row)) headers

unfoldable pub row_line : List Text → Fields → Text
row_line headers row = line_of (map quoted (cells_of headers row))

-- `lines.join("\n") + "\n"`, for at least one line.
unfoldable pub join_lines : List Text → Text
join_lines lines = join (10 ∷ []) lines ++ 10 ∷ []

-- What `downloadCsv` offers.
unfoldable pub csv_text : List Fields → Text
csv_text [] = []
csv_text (row ∷ rows) =
    let headers = keys row in join_lines (line_of headers ∷ map (row_line headers) (row ∷ rows))

-- What `downloadJsonl` offers; `stringify` is `JSON.stringify`.
unfoldable pub jsonl_text : (Json → Text) → List Json → Text
jsonl_text stringify images = join (10 ∷ []) (map stringify images) ++ 10 ∷ []
