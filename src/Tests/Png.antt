-- ===== src/Tests/Png.antt =====
-- The PNG walkers on small files.
use deedlit_dev.Base.{
  ◌≡◌, refl, true, none, List, [], ◌∷◌, ◌++◌, arith, filter, concat, Bytes, codes, text_eq, has,
}
use deedlit_dev.Base.Outcome.{returned, gather}
use deedlit_dev.Png.Format.{read_uint32_be, uint32_be, signature, ascii}
use deedlit_dev.Png.Stream.{raw_chunks}
use deedlit_dev.Png.Strip.{strip_loop, strip_png_metadata}
use deedlit_dev.Png.Strip.Kept.{
  IsPng, body_chunks, kept_chunks, strip_other, body_chunks-strip_png_metadata,
}
use deedlit_dev.Png.Reader.{
  Runtime, read_text_chunks, read_chunks, chunk_texts, parse_chunk, parse_text_chunk,
  read_embedded_metadata_from_png,
}
use deedlit_dev.Png.Reader.Laws.{texts_of, IsReadable}
use deedlit_dev.Png.Clean.{has_plain_types, read_text_chunks-stream, read_embedded_metadata-strip}
use deedlit_dev.Png.Encode.{
  Chunk, encode, encode_file, IsBody, IsEnd, is_kept_chunk, strip_png_metadata-encode,
}

abbrev header : Chunk
header = record { type = codes "IHDR"; content = 1 ∷ 2 ∷ []; crc = 9 ∷ 9 ∷ 9 ∷ 9 ∷ [] }

abbrev comment : Chunk
comment = record {
  type = codes "tEXt";
  content = codes "k" ++ (0 ∷ codes "hi");
  crc = 7 ∷ 7 ∷ 7 ∷ 7 ∷ [];
}

abbrev ending : Chunk
ending = record { type = codes "IEND"; content = []; crc = 8 ∷ 8 ∷ 8 ∷ 8 ∷ [] }

abbrev chunks : List Chunk
chunks = header ∷ comment ∷ []

abbrev pub png_image : Bytes
png_image = encode_file (header ∷ comment ∷ ending ∷ [])

abbrev pub runtime : Runtime
runtime = record { inflate = returned; utf8 = λ b. b; json_parse = λ t. none }

chunks-IsBody : IsBody chunks
unfolding text_eq
chunks-IsBody =
    ((
      record { type_size = refl; crc_size = refl; content_size = omega arith },
      refl,
      (record { type_size = refl; crc_size = refl; content_size = omega arith }, refl, tt),
    ))

ending-IsEnd : IsEnd ending
ending-IsEnd = (record { type_size = refl; crc_size = refl; content_size = omega arith }, refl)

strip_image : strip_png_metadata png_image ≡ encode_file (header ∷ ending ∷ [])
unfolding strip_png_metadata strip_loop read_uint32_be uint32_be has text_eq
strip_image = refl

read_image :
    read_text_chunks runtime png_image
    ≡ returned (record { keyword = codes "k"; chunk_type = codes "tEXt"; text = codes "hi" } ∷ [])
unfolding read_text_chunks read_chunks chunk_texts parse_chunk parse_text_chunk read_uint32_be
    uint32_be text_eq ascii
read_image = refl

-- A chunk whose type is tEXt but for a high bit is kept by the stripper and read by the reader.
abbrev disguised : Chunk
disguised = record comment { type = 0xF4 ∷ codes "EXt" }

read_disguised :
    read_text_chunks runtime (strip_png_metadata (encode_file (disguised ∷ ending ∷ [])))
    ≡ returned (record { keyword = codes "k"; chunk_type = codes "tEXt"; text = codes "hi" } ∷ [])
unfolding strip_png_metadata strip_loop has read_text_chunks read_chunks chunk_texts parse_chunk
    parse_text_chunk read_uint32_be uint32_be text_eq ascii
read_disguised = refl

image_plain : has_plain_types png_image ≡ true
unfolding raw_chunks read_uint32_be uint32_be text_eq
image_plain = refl

image-IsPng : IsPng png_image
image-IsPng = refl

body_chunks-strip_png_metadata_example :
    IsPng (strip_png_metadata png_image)
    × (body_chunks (strip_png_metadata png_image) ≡ kept_chunks png_image)
body_chunks-strip_png_metadata_example = body_chunks-strip_png_metadata png_image image-IsPng

strip_other_example : strip_png_metadata (1 ∷ 2 ∷ []) ≡ 1 ∷ 2 ∷ []
strip_other_example = strip_other (1 ∷ 2 ∷ []) (λ e. cc)

strip_png_metadata-encode_example :
    strip_png_metadata (encode_file (chunks ++ ending ∷ []) ++ 5 ∷ 6 ∷ [])
    ≡ encode_file (filter is_kept_chunk chunks ++ ending ∷ [])
strip_png_metadata-encode_example =
    strip_png_metadata-encode chunks ending (5 ∷ 6 ∷ []) chunks-IsBody ending-IsEnd

written-IsReadable : IsReadable (encode comment ∷ encode ending ∷ [])
unfolding read_uint32_be uint32_be text_eq ascii
written-IsReadable =
    (record { sized = refl }, (λ e. cc), (record { sized = refl }, (λ e. refl), tt))

read_text_chunks-stream_example :
    read_text_chunks runtime (signature ++ concat (encode comment ∷ encode ending ∷ []))
    ≡ gather (texts_of runtime) (encode comment ∷ encode ending ∷ [])
read_text_chunks-stream_example =
    read_text_chunks-stream runtime (encode comment ∷ encode ending ∷ []) written-IsReadable

read_embedded_metadata-strip_example :
    read_embedded_metadata_from_png runtime (returned (strip_png_metadata png_image))
    ≡ record { metadata = none; error = none }
read_embedded_metadata-strip_example = read_embedded_metadata-strip runtime png_image image_plain
