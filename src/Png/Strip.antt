-- ===== src/Png/Strip.antt =====
-- `stripPngMetadata` of deedlit.dev/src/app/image/route.ts.
pub mod Laws
pub mod Kept
use deedlit_dev.Base.{
  ℕ, zero, suc, ◌+◌, ◌≡◌, Bool, true, false, not, List, [], ◌∷◌, ◌++◌, if◌then◌else◌, ltb, leb,
  Text, Bytes, codes, text_eq, has, take, slice, length, concat,
}
use deedlit_dev.Png.Format.{read_uint32_be, signature, iend}

abbrev pub removable_png_chunks : List Text
removable_png_chunks = codes "tEXt" ∷ codes "zTXt" ∷ codes "iTXt" ∷ codes "eXIf" ∷ []

-- The `while` loop, on fuel: `chunks` is what it has pushed so far.
unfoldable pub strip_loop : ℕ → Bytes → ℕ → List Bytes → List Bytes
strip_loop zero buffer offset chunks = chunks
strip_loop (suc fuel) buffer offset chunks =
    let chunk_length = read_uint32_be buffer offset in
    let data_start = offset + 8 in
    let data_end = data_start + chunk_length in
    let full_end = data_end + 4 in
    let type = slice (offset + 4) (offset + 8) buffer in
    let full_chunk = slice offset full_end buffer in
    let pushed =
      if not (has type removable_png_chunks) then chunks ++ full_chunk ∷ [] else chunks in
    let rest = strip_loop fuel buffer full_end pushed in
    if leb (offset + 8) (length buffer)
    then if ltb (length buffer) full_end then chunks else if text_eq type iend then pushed else rest
    else chunks

-- Each round but the last passes twelve bytes, so the buffer's length is fuel enough.
unfoldable pub strip_png_metadata : Bytes → Bytes
strip_png_metadata buffer =
    if ltb (length buffer) 8
    then buffer
    else if not (text_eq (slice 0 8 buffer) signature)
    then buffer
    else concat (strip_loop (length buffer) buffer 8 (slice 0 8 buffer ∷ []))
