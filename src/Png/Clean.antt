-- ===== src/Png/Clean.antt =====
-- The two walkers together: what the reader finds in a file of whole chunks, and in a stripped one.
use deedlit_dev.Base.{
  ◌≡◌, refl, sym, ap, ◌∙◌, inl, inr, Bool, true, none, List, [], ◌∷◌, ◌++◌, arith, Bool-cases,
  length, take, filter, all, concat, length-append, Bytes, text_eq_iff, text_eq_refl, has,
}
use deedlit_dev.Base.Outcome.{returned, gather, >>=-returned}
use deedlit_dev.Png.Format.{signature, is_seven_bit, ascii_seven_bit}
use deedlit_dev.Png.Stream.{type_of, IsStream}
use deedlit_dev.Png.Strip.{strip_png_metadata}
use deedlit_dev.Png.Strip.Laws.{is_kept}
use deedlit_dev.Png.Strip.Kept.{
  IsPng, body_chunks, kept_chunks, dec-IsPng, strip_png_metadata-kept, strip_other,
  kept_chunks-IsStream, body_chunks-strip_png_metadata,
}
use deedlit_dev.Png.Reader.{Runtime, chunk_texts, read_text_chunks, read_embedded_metadata_from_png}
use deedlit_dev.Png.Reader.Laws.{texts_of, read_type, IsReadable, read_chunks-stream}

-- The type of every chunk is four bytes without the high bit, as the types of PNG are letters.
abbrev pub are_plain : List Bytes → Bool
are_plain cs = all (λ c. is_seven_bit (type_of c)) cs

abbrev pub has_plain_types : Bytes → Bool
has_plain_types b = are_plain (body_chunks b)

-- In a file that is the signature and whole chunks of which the reader takes only the last for an IEND, it finds the
-- texts of all its chunks in turn, by their types with the high bits cleared, or the first error that
-- decoding one of them throws.
pub read_text_chunks-stream :
    (rt : Runtime) (cs : List Bytes)
    → IsReadable cs
    → read_text_chunks rt (signature ++ concat cs) ≡ gather (texts_of rt) cs
unfolding read_text_chunks
read_text_chunks-stream rt cs h =
    rw
      (read_chunks-stream rt (length (signature ++ concat cs)) 8 (signature ++ concat cs) cs [] h
        refl (omega (arith, length-append signature (concat cs))))
      (rw (text_eq_refl signature) (>>=-returned (gather (texts_of rt) cs)))

read_type_plain : (c : Bytes) → is_seven_bit (type_of c) ≡ true → read_type c ≡ type_of c
read_type_plain c h = ascii_seven_bit (type_of c) h

kept_texts :
    (rt : Runtime) (c : Bytes)
    → is_seven_bit (type_of c) ≡ true
    → is_kept c ≡ true
    → texts_of rt c ≡ returned []
unfolding chunk_texts has
kept_texts rt c p h = rw (read_type_plain c p) (ground arith)

gather-kept :
    (rt : Runtime) (cs : List Bytes)
    → are_plain (filter is_kept cs) ≡ true
    → gather (texts_of rt) (filter is_kept cs) ≡ returned []
gather-kept rt [] p = refl
gather-kept rt (c ∷ cs) p = elim (Bool-cases (is_kept c)) [
  | inl e ↦ rw (e, kept_texts rt c (ground arith) e, gather-kept rt cs (ground arith))
  | inr e ↦ rw (e, gather-kept rt cs (ground arith))
]

IsStream-plain : (cs : List Bytes) → IsStream cs → are_plain cs ≡ true → IsReadable cs
IsStream-plain [] h p = tt
IsStream-plain (c ∷ cs) h p =
    (h.0, rw (read_type_plain c (ground arith)) h.1, IsStream-plain cs h.2 (ground arith))

are_plain-filter : (cs : List Bytes) → are_plain cs ≡ true → are_plain (filter is_kept cs) ≡ true
are_plain-filter [] p = refl
are_plain-filter (c ∷ cs) p = ground (arith, are_plain-filter cs)

read_text_chunks-other :
    (rt : Runtime) (b : Bytes) → ¬ IsPng b → read_text_chunks rt b ≡ returned []
unfolding read_text_chunks
read_text_chunks-other rt b h = ground (arith, text_eq_iff (take 8 b) signature)

read_text_chunks-strip :
    (rt : Runtime) (b : Bytes)
    → (IsPng b → are_plain (kept_chunks b) ≡ true)
    → read_text_chunks rt (strip_png_metadata b) ≡ returned []
read_text_chunks-strip rt b p = elim (dec-IsPng b) [
  | inl h ↦ rw (strip_png_metadata-kept b h) (
      read_text_chunks-stream rt (kept_chunks b)
        (IsStream-plain (kept_chunks b) (kept_chunks-IsStream b) (p h))
      ∙ gather-kept rt (body_chunks b) (p h))
  | inr h ↦ rw (strip_other b h) (read_text_chunks-other rt b h)
]

-- In a stripped buffer whose chunk types have no high bit set the reader finds nothing.
pub read_stripped :
    (rt : Runtime) (b : Bytes)
    → has_plain_types (strip_png_metadata b) ≡ true
    → read_embedded_metadata_from_png rt (returned (strip_png_metadata b))
      ≡ record { metadata = none; error = none }
unfolding read_embedded_metadata_from_png
read_stripped rt b p =
    let kept : IsPng b → are_plain (kept_chunks b) ≡ true =
      λ h. ap are_plain (sym (body_chunks-strip_png_metadata b h).1) ∙ p in
    rw (read_text_chunks-strip rt b kept)

-- Whatever the buffer, if the types of its chunks have no high bit set, the metadata reader finds no metadata and
-- meets no error in what the stripper returns.
pub read_embedded_metadata-strip :
    (rt : Runtime) (b : Bytes)
    → has_plain_types b ≡ true
    → read_embedded_metadata_from_png rt (returned (strip_png_metadata b))
      ≡ record { metadata = none; error = none }
unfolding read_embedded_metadata_from_png
read_embedded_metadata-strip rt b p =
    rw (read_text_chunks-strip rt b (λ h. are_plain-filter (body_chunks b) p))
