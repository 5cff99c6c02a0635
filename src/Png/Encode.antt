-- ===== src/Png/Encode.antt =====
-- PNG files written chunk by chunk, as the format lays them down, and what the stripper makes of
-- them. The encoder is the format's, not the program's.
use deedlit_dev.Base.{
  ◌<◌, ◌≡◌, refl, sym, ◌∙◌, Bool, true, false, not, List, [], ◌∷◌, ◌++◌, map, arith, length, filter,
  any, concat, length-append, take-append, Bytes, text_eq, text_eq_refl, has,
}
use deedlit_dev.Png.Format.{read_uint32_be, uint32_be, signature, iend}
use deedlit_dev.Png.Stream.{type_of, is_end, raw_chunks, raw_chunks-ended, IsChunk, IsStream}
use deedlit_dev.Png.Strip.{removable_png_chunks, strip_png_metadata}
use deedlit_dev.Png.Strip.Laws.{is_kept}
use deedlit_dev.Png.Strip.Kept.{strip_png_metadata-kept}

pub record Chunk : Type 0 where
  pub type : Bytes
  pub content : Bytes
  pub crc : Bytes

abbrev pub encode : Chunk → Bytes
encode c = uint32_be (length c.content) ++ (c.type ++ (c.content ++ c.crc))

pub record IsEncodable (c : Chunk) : Type 0 where
  pub type_size : length c.type ≡ 4
  pub crc_size : length c.crc ≡ 4
  pub content_size : length c.content < 4294967296

read_uint32_be-encode : (c : Chunk) → IsEncodable c → read_uint32_be (encode c) 0 ≡ length c.content
unfolding read_uint32_be uint32_be
read_uint32_be-encode c h = omega (arith, h.content_size)

type_of-encode : (c : Chunk) → IsEncodable c → type_of (encode c) ≡ c.type
unfolding uint32_be
type_of-encode c h = rw (sym h.type_size) (take-append c.type (c.content ++ c.crc))

encode-IsChunk : (c : Chunk) → IsEncodable c → IsChunk (encode c)
unfolding uint32_be
encode-IsChunk c h = record {
  sized = omega (
    arith,
    read_uint32_be-encode c h,
    h.type_size,
    h.crc_size,
    length-append c.type (c.content ++ c.crc),
    length-append c.content c.crc,
  );
}

abbrev pub encode_file : List Chunk → Bytes
encode_file cs = signature ++ concat (map encode cs)

abbrev pub is_kept_chunk : Chunk → Bool
is_kept_chunk c = not (has c.type removable_png_chunks)

-- Encodable chunks with no IEND among them, then one IEND.
abbrev pub IsBody : List Chunk → Type 0
IsBody [] = Unit {0}
IsBody (c ∷ cs) = IsEncodable c × (text_eq c.type iend ≡ false) × IsBody cs

abbrev pub IsEnd : Chunk → Type 0
IsEnd c = IsEncodable c × (c.type ≡ iend)

encode-IsStream :
    (cs : List Chunk) (last : Chunk)
    → IsBody cs
    → IsEnd last
    → IsStream (map encode (cs ++ last ∷ [])) × (any is_end (map encode (cs ++ last ∷ [])) ≡ true)
encode-IsStream [] last h e = (
  (encode-IsChunk last e.0, (λ _. refl), tt),
  rw (type_of-encode last e.0, e.1, text_eq_refl iend),
)
encode-IsStream (c ∷ cs) last h e =
    let (stream, ended) = encode-IsStream cs last h.2 e in
    let inner : is_end (encode c) ≡ false = rw (type_of-encode c h.0) h.1 in
    ((encode-IsChunk c h.0, (λ i. cc), stream), rw inner ended)

filter-encode :
    (cs : List Chunk) (last : Chunk)
    → IsBody cs
    → IsEnd last
    → filter is_kept (map encode (cs ++ last ∷ []))
      ≡ map encode (filter is_kept_chunk cs ++ last ∷ [])
filter-encode [] last h e = unfold has text_eq in rw (type_of-encode last e.0, e.1)
filter-encode (c ∷ cs) last h e =
    rw (type_of-encode c h.0) (ground (arith, filter-encode cs last h.2 e))

-- Of a file of encodable chunks that ends with an IEND chunk, with any bytes behind it, the
-- stripper keeps the signature, every chunk whose type is not removable, in order and byte for
-- byte, and the IEND; what follows the IEND is dropped.
pub strip_png_metadata-encode :
    (cs : List Chunk) (last : Chunk) (trailing : Bytes)
    → IsBody cs
    → IsEnd last
    → strip_png_metadata (encode_file (cs ++ last ∷ []) ++ trailing)
      ≡ encode_file (filter is_kept_chunk cs ++ last ∷ [])
strip_png_metadata-encode cs last trailing h e =
    let body = map encode (cs ++ last ∷ []) in
    let (stream, ended) = encode-IsStream cs last h e in
    let file = encode_file (cs ++ last ∷ []) ++ trailing in
    let walk : raw_chunks (length file) (concat body ++ trailing) ≡ body =
      raw_chunks-ended (length file) body trailing stream ended
        (omega (arith, length-append (concat body) trailing)) in
    strip_png_metadata-kept file refl ∙ rw (walk, filter-encode cs last h e)
