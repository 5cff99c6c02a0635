-- ===== src/Png/Strip/Kept.antt =====
-- What `stripPngMetadata` returns, for any buffer.
use deedlit_dev.Base.{
  ◌≤◌, ◌≡◌, refl, sym, ap, ◌∙◌, ◌⊎◌, inl, inr, false, List, [], ◌∷◌, ◌++◌, arith, ltb, Bool-cases,
  length, take, drop, filter, concat, length-append, length-take, filter_idem, Bytes, text_eq,
  text_eq_iff, text_eq_refl,
}
use deedlit_dev.Png.Format.{signature}
use deedlit_dev.Png.Stream.{
  raw_chunks, IsStream, raw_chunks-IsStream, filter-IsStream, raw_chunks-concat,
}
use deedlit_dev.Png.Strip.Laws.{is_kept, strip_loop-raw_chunks}
use deedlit_dev.Png.Strip.{strip_png_metadata}

abbrev pub IsPng : Bytes → Type 0
IsPng b = take 8 b ≡ signature

-- The whole chunks behind the signature, up to the first `IEND`.
abbrev pub body_chunks : Bytes → List Bytes
body_chunks b = raw_chunks (length b) (drop 8 b)

abbrev pub kept_chunks : Bytes → List Bytes
kept_chunks b = filter is_kept (body_chunks b)

pub IsPng-length : (b : Bytes) → IsPng b → 8 ≤ length b
IsPng-length b h = omega (arith, ap length h, length-take 8 b)

pub strip_png_metadata-kept :
    (b : Bytes) → IsPng b → strip_png_metadata b ≡ signature ++ concat (kept_chunks b)
unfolding strip_png_metadata
strip_png_metadata-kept b h =
    let long : ltb (length b) 8 ≡ false = ground (arith, IsPng-length b h) in
    rw (h, text_eq_refl signature, long, strip_loop-raw_chunks (length b) b 8 (signature ∷ []))
      (refl)

-- A buffer that does not begin with the PNG signature is returned as it is.
pub strip_other : (b : Bytes) → ¬ IsPng b → strip_png_metadata b ≡ b
unfolding strip_png_metadata
strip_other b h = ground (arith, text_eq_iff (take 8 b) signature)

pub kept_chunks-IsStream : (b : Bytes) → IsStream (kept_chunks b)
kept_chunks-IsStream b =
    filter-IsStream is_kept (body_chunks b) (raw_chunks-IsStream (length b) (drop 8 b))

-- On a PNG buffer the result has the signature, and its chunks are those chunks of the buffer
-- whose type is not tEXt, zTXt, iTXt or eXIf, in their order.
pub body_chunks-strip_png_metadata :
    (b : Bytes)
    → IsPng b
    → IsPng (strip_png_metadata b) × (body_chunks (strip_png_metadata b) ≡ kept_chunks b)
body_chunks-strip_png_metadata b h = rw (strip_png_metadata-kept b h) (
  refl,
  raw_chunks-concat (length (signature ++ concat (kept_chunks b))) (kept_chunks b)
      (kept_chunks-IsStream b) (omega (arith, length-append signature (concat (kept_chunks b)))),
)

pub dec-IsPng : (b : Bytes) → IsPng b ⊎ (¬ IsPng b)
dec-IsPng b = elim (Bool-cases (text_eq (take 8 b) signature)) [
  | inl e ↦ inl ((text_eq_iff _ _).0 e)
  | inr e ↦ inr (λ h. cc (e, (text_eq_iff (take 8 b) signature).1 h))
]

-- Stripping a second time changes nothing.
pub strip_png_metadata_idem :
    (b : Bytes) → strip_png_metadata (strip_png_metadata b) ≡ strip_png_metadata b
strip_png_metadata_idem b = elim (dec-IsPng b) [
  | inl h ↦
      let (sig, same) = body_chunks-strip_png_metadata b h in
      strip_png_metadata-kept (strip_png_metadata b) sig
      ∙ (rw (same, filter_idem is_kept (body_chunks b)) (sym (strip_png_metadata-kept b h)))
  | inr h ↦ ap strip_png_metadata (strip_other b h)
]
