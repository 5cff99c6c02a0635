-- ===== src/Png/Reader/Laws.antt =====
-- The reader's loop over a file of whole chunks.
use deedlit_dev.Base.{
  ℕ, zero, suc, ◌+◌, ◌-◌, ◌≤◌, ◌≡◌, refl, sym, ap, ◌∙◌, inl, inr, true, false, List, [], ◌∷◌, ◌++◌,
  append_assoc, append-nil, arith, Bool, ltb, if◌then◌else◌, Text, text_eq, Bool-cases, length,
  take, drop, slice, concat, length-append, length-drop, length-take, drop-drop, drop-append,
  take-drop-take, take-append-le, drop-append-le, Bytes,
}
use mathlib.Core.Path.{fun_ext}
use deedlit_dev.Base.Outcome.{Outcome, returned, thrown, ◌>>=◌, gather}
use deedlit_dev.Png.Format.{read_uint32_be, ascii, iend}
use deedlit_dev.Png.Stream.{type_of, IsChunk, read_uint32_be-take, read_uint32_be-append}
use deedlit_dev.Png.Reader.{Runtime, TextChunk, chunk_texts, read_data, read_chunks}

-- The data of a whole chunk.
abbrev pub data_of : Bytes → Bytes
data_of c = slice 8 (8 + read_uint32_be c 0) c

-- The type as the reader sees it.
abbrev pub read_type : Bytes → Text
read_type c = ascii (type_of c)

abbrev pub ends_reading : Bytes → Bool
ends_reading c = text_eq (read_type c) iend

-- Whole chunks, of which the reader takes none but the last for an `IEND`.
abbrev pub IsReadable : List Bytes → Type 0
IsReadable [] = Unit {0}
IsReadable (c ∷ cs) = IsChunk c × (ends_reading c ≡ true → cs ≡ []) × IsReadable cs

-- What the reader takes from a whole chunk.
abbrev pub texts_of : Runtime → Bytes → Outcome (List TextChunk)
texts_of rt c = chunk_texts rt (read_type c) (data_of c)

module _ (c rest : Bytes) (whole : IsChunk c) where
  header_size : read_uint32_be (take 8 (c ++ rest)) 0 ≡ read_uint32_be c 0
  header_size =
      read_uint32_be-take (c ++ rest) 8 (omega arith)
      ∙ read_uint32_be-append c rest (omega (arith, whole.sized))

  header_type : slice 4 8 (take 8 (c ++ rest)) ≡ type_of c
  header_type =
      take-drop-take 4 4 8 (c ++ rest) (omega arith)
      ∙ ap (take 4) (drop-append-le 4 c rest (omega (arith, whole.sized)))
      ∙ take-append-le 4 (drop 4 c) rest (omega (arith, whole.sized, length-drop 4 c))

  header_full : ltb (length (take 8 (c ++ rest))) 8 ≡ false
  header_full = ground (arith, length-take 8 (c ++ rest), length-append c rest, whole.sized)

  -- No padding is read from a whole chunk.
  read_data_whole :
      (file : Bytes) (o : ℕ)
      → drop o file ≡ c ++ rest
      → read_data file (o + 8) (read_uint32_be c 0) ≡ data_of c
  read_data_whole file o at =
      let n = read_uint32_be c 0 in
      let long : n ≤ length (drop 8 c) = omega (arith, whole.sized, length-drop 8 c) in
      let cut : o + 8 + n - (o + 8) ≡ n = omega arith in
      let cut' : 8 + n - 8 ≡ n = omega arith in
      let got : take n (drop (o + 8) file) ≡ take n (drop 8 c) =
        ap (take n) (
          sym (drop-drop 8 o file)
          ∙ ap (drop 8) at
          ∙ drop-append-le 8 c rest (omega (arith, whole.sized)))
        ∙ take-append-le n (drop 8 c) rest long in
      let none_left : n - length (take n (drop 8 c)) ≡ 0 =
        omega (arith, length-take n (drop 8 c)) in
      rw (cut, cut', got, none_left) (append-nil (take n (drop 8 c)))

read_chunks_step :
    (rt : Runtime) (fuel o : ℕ) (file c rest : Bytes) (acc : List TextChunk)
    → IsChunk c
    → drop o file ≡ c ++ rest
    → read_chunks rt (suc fuel) file o acc ≡ (
        texts_of rt c >>= λ ts.
        if ends_reading c
        then returned (acc ++ ts)
        else read_chunks rt fuel file (o + length c) (acc ++ ts))
unfolding read_chunks
read_chunks_step rt fuel o file c rest acc whole at =
    let cut : o + 8 - o ≡ 8 = omega arith in
    let on : o + (8 + read_uint32_be c 0 + 4) ≡ o + length c = omega (arith, whole.sized) in
    rw (
      cut,
      at,
      header_full c rest whole,
      header_type c rest whole,
      header_size c rest whole,
      read_data_whole c rest whole file o at,
      on,
    )

-- The texts of the chunks in turn, behind those read before.
abbrev then_texts : Runtime → List TextChunk → List Bytes → Outcome (List TextChunk)
then_texts rt acc cs = gather (texts_of rt) cs >>= λ ts. returned (acc ++ ts)

then_texts-cons :
    (rt : Runtime) (acc : List TextChunk) (c : Bytes) (cs : List Bytes)
    → then_texts rt acc (c ∷ cs) ≡ (texts_of rt c >>= λ ts. then_texts rt (acc ++ ts) cs)
then_texts-cons rt acc c cs = go (texts_of rt c) (gather (texts_of rt) cs)
  where
    go :
        (m k : Outcome (List TextChunk))
        → ((m >>= λ ts. k >>= λ us. returned (ts ++ us)) >>= λ ts. returned (acc ++ ts))
          ≡ (m >>= λ ts. k >>= λ us. returned ((acc ++ ts) ++ us))
    go (thrown e) k = refl
    go (returned ts) (thrown e) = refl
    go (returned ts) (returned us) = ap returned (sym (append_assoc acc ts us))

read_chunks-end :
    (rt : Runtime) (fuel o : ℕ) (file : Bytes) (acc : List TextChunk)
    → drop o file ≡ []
    → read_chunks rt fuel file o acc ≡ returned acc
unfolding read_chunks
read_chunks-end rt zero o file acc at = refl
read_chunks-end rt (suc fuel) o file acc at = let cut : o + 8 - o ≡ 8 = omega arith in rw (cut, at)

after_chunk :
    (rt : Runtime) (c : Bytes) (cs : List Bytes) (acc : List TextChunk)
    (rest : Outcome (List TextChunk))
    → (ends_reading c ≡ true → cs ≡ [])
    → rest ≡ then_texts rt acc cs
    → (if ends_reading c then returned acc else rest) ≡ then_texts rt acc cs
after_chunk rt c cs acc rest last ih = elim (Bool-cases (ends_reading c)) [
  | inl e ↦ rw (e, last e) (ap returned (sym (append-nil acc)))
  | inr e ↦ rw e ih
]

pub read_chunks-stream :
    (rt : Runtime) (fuel o : ℕ) (file : Bytes) (cs : List Bytes) (acc : List TextChunk)
    → IsReadable cs
    → drop o file ≡ concat cs
    → length (concat cs) ≤ fuel
    → read_chunks rt fuel file o acc ≡ then_texts rt acc cs
read_chunks-stream rt fuel o file [] acc h at l =
    read_chunks-end rt fuel o file acc at ∙ ap returned (sym (append-nil acc))
read_chunks-stream rt zero o file (c ∷ cs) acc h at l =
    absurd (omega (arith, h.0.sized, length-append c (concat cs)))
read_chunks-stream rt (suc fuel) o file (c ∷ cs) acc h at l =
    let short : length (concat cs) ≤ fuel = omega (arith, h.0.sized, length-append c (concat cs)) in
    let next : drop (o + length c) file ≡ concat cs =
      sym (drop-drop (length c) o file) ∙ ap (drop (length c)) at ∙ drop-append c (concat cs) in
    rw (read_chunks_step rt fuel o file c (concat cs) acc h.0 at, then_texts-cons rt acc c cs)
      (ap (λ k. texts_of rt c >>= k)
        (fun_ext (λ ts.
          after_chunk rt c cs (acc ++ ts) _ h.1
            (read_chunks-stream rt fuel (o + length c) file cs (acc ++ ts) h.2 next short))))
