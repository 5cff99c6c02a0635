-- ===== src/Png/Reader.antt =====
-- `readEmbeddedMetadataFromPng` of deedlit.dev.comfyhelper/lib/png-metadata.ts. A file is its
-- bytes. Inflating, UTF-8 and JSON are the runtime's, and come in as parameters.
pub mod Laws
use deedlit_dev.Base.{
  ℕ, zero, suc, ◌+◌, ◌-◌, ◌*◌, ◌/◌, ◌%◌, ◌≤◌, ◌<◌, ◌≡◌, refl, sym, ap, ◌∙◌, subst, ◌≢◌, ◌↔◌, ◌⊎◌,
  inl, inr, Bool, true, false, not, ◌&&◌, ◌||◌, Option, none, some, List, [], ◌∷◌, ◌++◌, map,
  append_assoc, append-nil, arith, ltb, leb, ◌==◌, if◌then◌else◌, Bool-cases, Option-cases, or_else,
  or_option, &&-true, ||-true, length, take, drop, get_elem?, slice, filter, any, all, find, concat,
  replicate, All, length-append, length-drop, length-take, take-append-drop, drop-nil, drop-drop,
  get_elem?-drop, take-append, drop-append, filter-append, length-filter-le, filter_idem,
  concat-append, length-map, take-drop-take, Text, Bytes, codes, text_eq, text_eq_iff, text_eq_refl,
  has, is_space, trim_start, trim, lower_unit, to_lower, starts_with, ends_with, includes, split_at,
  join,
}
use mathlib.Core.Option
use deedlit_dev.Base.Outcome.{Outcome, returned, thrown, ◌>>=◌, catch}
use deedlit_dev.Json.{
  Json, null, bool, num, str, arr, obj, builtin, Items, nil, cons, Fields, end, field, own, put,
  push_item,
}
use deedlit_dev.Png.Format.{read_uint32_be, byte, signature, ascii, iend}

-- What the code takes from Node: `inflateSync`, `toString("utf8")` and `JSON.parse`.
pub record Runtime : Type 0 where
  pub inflate : Bytes → Outcome Bytes
  pub utf8 : Bytes → Text
  pub json_parse : Text → Option Json

pub record TextChunk : Type 0 where
  pub keyword : Text
  pub chunk_type : Text
  pub text : Text

-- `buffer.indexOf(0, offset)`, with `none` for -1.
unfoldable pub index_of_zero : Bytes → ℕ → Option ℕ
index_of_zero [] from = none
index_of_zero (x ∷ xs) zero = if x == 0 then some 0 else Option.map suc (index_of_zero xs zero)
index_of_zero (x ∷ xs) (suc from) = Option.map suc (index_of_zero xs from)

unfoldable pub looks_like_json : Text → Bool
looks_like_json value =
    let trimmed = trim value in starts_with (codes "{") trimmed || starts_with (codes "[") trimmed

-- `toString("latin1")` takes each byte for a code unit.
text_at : Bytes → Option ℕ → Option TextChunk
text_at buffer none = none
text_at buffer (some zero) = none
text_at buffer (some (suc k)) = some (record {
  keyword = slice 0 (suc k) buffer;
  chunk_type = codes "tEXt";
  text = drop (suc k + 1) buffer;
})

unfoldable pub parse_text_chunk : Bytes → Option TextChunk
unfolding text_at index_of_zero
parse_text_chunk buffer = text_at buffer (index_of_zero buffer 0)

-- `toMetadataObject` first reads `fields[keyword]`, through the prototype where there is no own one.
abbrev pub inherited_names : List Text
inherited_names =
    codes "constructor"
    ∷ codes "__proto__"
    ∷ codes "toString"
    ∷ codes "toLocaleString"
    ∷ codes "valueOf"
    ∷ codes "hasOwnProperty"
    ∷ codes "isPrototypeOf"
    ∷ codes "propertyIsEnumerable"
    ∷ codes "__defineGetter__"
    ∷ codes "__defineSetter__"
    ∷ codes "__lookupGetter__"
    ∷ codes "__lookupSetter__"
    ∷ []

unfoldable pub read_prop : Text → Fields → Option Json
unfolding own
read_prop k fs = or_option (own k fs) (if has k inherited_names then some (builtin k) else none)

-- `fields[k] = v`; at `__proto__` this replaces the prototype and adds no property.
unfoldable pub assign : Text → Json → Fields → Fields
unfolding put
assign k v fs = if text_eq k (codes "__proto__") then fs else put k v fs

-- What `fields[chunk.keyword]` is set to, by what stood there.
unfoldable pub combine : Option Json → Json → Json
unfolding push_item
combine none parsed = parsed
combine (some (arr items)) parsed = arr (push_item parsed items)
combine (some existing) parsed = arr (cons existing (cons parsed nil))

-- `handle.read(data, 0, length, position)` into a fresh zeroed buffer.
abbrev pub read_data : Bytes → ℕ → ℕ → Bytes
read_data file position size =
    let got = slice position (position + size) file in got ++ replicate (size - length got) 0

abbrev pub is_text_type : Text → Bool
is_text_type type =
    text_eq type (codes "tEXt") || text_eq type (codes "zTXt") || text_eq type (codes "iTXt")

module _ (rt : Runtime) where
  ztxt_at : Bytes → Option ℕ → Outcome (Option TextChunk)
  ztxt_at buffer none = returned none
  ztxt_at buffer (some zero) = returned none
  ztxt_at buffer (some (suc k)) =
      let separator = suc k in
      if ltb (length buffer) (separator + 2) || not (byte buffer (separator + 1) == 0)
      then returned none
      else (rt.inflate (drop (separator + 2) buffer) >>= λ text. returned (
          some (record {
            keyword = slice 0 separator buffer;
            chunk_type = codes "zTXt";
            text = rt.utf8 text;
          })))

  unfoldable pub parse_ztxt_chunk : Bytes → Outcome (Option TextChunk)
  unfolding ztxt_at index_of_zero
  parse_ztxt_chunk buffer = ztxt_at buffer (index_of_zero buffer 0)

  -- The text behind the translated keyword, inflated if the flag is set.
  itxt_text : Bytes → ℕ → Bytes → Outcome (Option TextChunk)
  itxt_text buffer keyword_end text_data =
      let flag = byte buffer (keyword_end + 1) in
      let method = byte buffer (keyword_end + 2) in
      let chunk = λ (text : Bytes). some (record {
        keyword = slice 0 keyword_end buffer;
        chunk_type = codes "iTXt";
        text = rt.utf8 text;
      }) in
      if flag == 1
      then if not (method == 0)
        then returned none
        else (rt.inflate text_data >>= λ text. returned (chunk text))
      else returned (chunk text_data)

  itxt_at : Bytes → Option ℕ → Outcome (Option TextChunk)
  unfolding itxt_text index_of_zero
  itxt_at buffer none = returned none
  itxt_at buffer (some zero) = returned none
  itxt_at buffer (some (suc k)) =
      let keyword_end = suc k in
      if ltb (length buffer) (keyword_end + 1 + 2)
      then returned none
      else elim (index_of_zero buffer (keyword_end + 3)) [
        | none ↦ returned none
        | some language_tag_end ↦ elim (index_of_zero buffer (language_tag_end + 1)) [
          | none ↦ returned none
          | some translated_keyword_end ↦
              itxt_text buffer keyword_end (drop (translated_keyword_end + 1) buffer)
        ]
      ]

  unfoldable pub parse_itxt_chunk : Bytes → Outcome (Option TextChunk)
  unfolding itxt_at
  parse_itxt_chunk buffer = itxt_at buffer (index_of_zero buffer 0)

  unfoldable pub parse_chunk : Text → Bytes → Outcome (Option TextChunk)
  parse_chunk type buffer =
      if text_eq type (codes "tEXt")
      then returned (parse_text_chunk buffer)
      else if text_eq type (codes "zTXt")
      then parse_ztxt_chunk buffer
      else if text_eq type (codes "iTXt")
      then parse_itxt_chunk buffer
      else returned none

  unfoldable pub parsed_value : Text → Json
  unfolding looks_like_json
  parsed_value text =
      if looks_like_json text then or_else (rt.json_parse text) (str text) else str text

  -- The loop of `toMetadataObject`.
  unfoldable pub metadata_fields : List TextChunk → Fields → Fields
  unfolding parsed_value combine assign read_prop
  metadata_fields [] fields = fields
  metadata_fields (chunk ∷ chunks) fields =
      let parsed = parsed_value (trim chunk.text) in
      metadata_fields chunks
        (assign chunk.keyword (combine (read_prop chunk.keyword fields) parsed) fields)

  unfoldable pub to_metadata_object : List TextChunk → Json
  unfolding metadata_fields
  to_metadata_object chunks = obj (
      field (codes "source") (str (codes "embedded-png"))
        (field (codes "fields") (obj (metadata_fields chunks end)) end))

  -- What one chunk adds to `chunks`.
  unfoldable pub chunk_texts : Text → Bytes → Outcome (List TextChunk)
  chunk_texts type buffer =
      if is_text_type type
      then (parse_chunk type buffer >>= λ parsed. elim parsed [
        | none ↦ returned []
        | some chunk ↦ returned (chunk ∷ [])
      ])
      else returned []

  -- The `while` loop, on fuel.
  unfoldable pub read_chunks : ℕ → Bytes → ℕ → List TextChunk → Outcome (List TextChunk)
  read_chunks zero file offset chunks = returned chunks
  read_chunks (suc fuel) file offset chunks =
      let header = slice offset (offset + 8) file in
      let size = read_uint32_be header 0 in
      let type = ascii (slice 4 8 header) in
      let round = chunk_texts type (read_data file (offset + 8) size) >>= (λ parsed.
        let rest = read_chunks fuel file (offset + (8 + size + 4)) (chunks ++ parsed) in
        if text_eq type iend then returned (chunks ++ parsed) else rest) in
      if ltb (length header) 8 then returned chunks else round

  -- Everything between the signature and the `IEND`; each round but the last passes twelve bytes.
  unfoldable pub read_text_chunks : Bytes → Outcome (List TextChunk)
  read_text_chunks file =
      let signature_read = slice 0 8 file in
      if ltb (length signature_read) 8 || not (text_eq signature_read signature)
      then returned []
      else read_chunks (length file) file 8 []

pub record EmbeddedMetadataResult : Type 0 where
  pub metadata : Option Json
  pub error : Option Text

-- The file as `open` gives it, or the error that it throws.
unfoldable pub read_embedded_metadata_from_png : Runtime → Outcome Bytes → EmbeddedMetadataResult
read_embedded_metadata_from_png rt opened =
    catch
      (opened >>= λ file. read_text_chunks rt file >>= λ chunks. returned (record {
        metadata = if ltb 0 (length chunks) then some (to_metadata_object rt chunks) else none;
        error = none;
      }))
      (λ message. record { metadata = none; error = some message })
