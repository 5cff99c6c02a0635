-- ===== src/Png/Stream.antt =====
-- A buffer as a list of whole chunks: what a walk over it yields, and that walking over the
-- chunks of such a list yields the list again.
use deedlit_dev.Base.{
  ℕ, zero, suc, ◌+◌, ◌≤◌, ◌<◌, ◌≡◌, refl, Bool, true, List, [], ◌∷◌, ◌++◌, append_assoc, arith, leb,
  if◌then◌else◌, length, take, drop, get_elem?, slice, filter, any, concat, length-append,
  length-take, get_elem?-drop, take-append, drop-append, Text, Bytes, text_eq,
}
use deedlit_dev.Png.Format.{read_uint32_be, iend}

abbrev pub type_of : Bytes → Text
type_of c = slice 4 8 c

-- The length that a chunk at the head of these bytes declares, its header and checksum included.
abbrev pub span : Bytes → ℕ
span b = 12 + read_uint32_be b 0

abbrev pub is_end : Bytes → Bool
is_end c = text_eq (type_of c) iend

-- The whole chunks at the head of `rest`, up to the first `IEND`.
unfoldable pub raw_chunks : ℕ → Bytes → List Bytes
raw_chunks zero rest = []
raw_chunks (suc fuel) rest =
    let c = take (span rest) rest in
    let more = raw_chunks fuel (drop (span rest) rest) in
    if leb 8 (length rest)
    then if leb (span rest) (length rest) then if is_end c then c ∷ [] else c ∷ more else []
    else []

pub record IsChunk (c : Bytes) : Type 0 where
  pub sized : length c ≡ span c

-- Whole chunks, of which only the last may be `IEND`.
abbrev pub IsStream : List Bytes → Type 0
IsStream [] = Unit {0}
IsStream (c ∷ cs) = IsChunk c × (is_end c ≡ true → cs ≡ []) × IsStream cs

get_elem?-append {ℓ} :
    {A : Type ℓ} (xs ys : List A) (i : ℕ) → i < length xs → get_elem? (xs ++ ys) i ≡ get_elem? xs i
get_elem?-append [] ys i h = elim h [ ]
get_elem?-append (x ∷ xs) ys zero h = refl
get_elem?-append (x ∷ xs) ys (suc i) h = get_elem?-append xs ys i (omega arith)

get_elem?-take {ℓ} :
    {A : Type ℓ} (n : ℕ) (xs : List A) (i : ℕ) → i < n → get_elem? (take n xs) i ≡ get_elem? xs i
get_elem?-take zero xs i h = elim h [ ]
get_elem?-take (suc n) [] i h = refl
get_elem?-take (suc n) (x ∷ xs) zero h = refl
get_elem?-take (suc n) (x ∷ xs) (suc i) h = get_elem?-take n xs i (omega arith)

pub read_uint32_be-drop : (b : Bytes) (o : ℕ) → read_uint32_be (drop o b) 0 ≡ read_uint32_be b o
unfolding read_uint32_be
read_uint32_be-drop b o =
    ground (
      arith,
      get_elem?-drop o 0 b,
      get_elem?-drop o 1 b,
      get_elem?-drop o 2 b,
      get_elem?-drop o 3 b,
    )

pub read_uint32_be-take :
    (b : Bytes) (n : ℕ) → 4 ≤ n → read_uint32_be (take n b) 0 ≡ read_uint32_be b 0
unfolding read_uint32_be
read_uint32_be-take b n h =
    ground (
      arith,
      get_elem?-take n b 0,
      get_elem?-take n b 1,
      get_elem?-take n b 2,
      get_elem?-take n b 3,
    )

pub read_uint32_be-append :
    (c rest : Bytes) → 4 ≤ length c → read_uint32_be (c ++ rest) 0 ≡ read_uint32_be c 0
unfolding read_uint32_be
read_uint32_be-append c rest h = ground (
  arith,
  get_elem?-append c rest 0,
  get_elem?-append c rest 1,
  get_elem?-append c rest 2,
  get_elem?-append c rest 3,
)

-- Every walk yields a stream.
pub raw_chunks-IsStream : (fuel : ℕ) (rest : Bytes) → IsStream (raw_chunks fuel rest)
unfolding raw_chunks
raw_chunks-IsStream zero rest = tt
raw_chunks-IsStream (suc fuel) rest = ground (
  arith,
  read_uint32_be-take rest (span rest),
  length-take (span rest) rest,
  raw_chunks-IsStream fuel (drop (span rest) rest),
)

pub filter-IsStream : (p : Bytes → Bool) (cs : List Bytes) → IsStream cs → IsStream (filter p cs)
filter-IsStream p [] h = tt
filter-IsStream p (c ∷ cs) h = ground (arith, filter-IsStream p cs h.2)

span-append : (c rest : Bytes) → IsChunk c → span (c ++ rest) ≡ length c
span-append c rest h = omega (arith, h.sized, read_uint32_be-append c rest (omega (arith, h.sized)))

-- Walking over the bytes of a stream yields the stream, and what follows its `IEND` is dropped.
pub raw_chunks-concat :
    (fuel : ℕ) (cs : List Bytes)
    → IsStream cs
    → length (concat cs) ≤ fuel
    → raw_chunks fuel (concat cs) ≡ cs
unfolding raw_chunks
raw_chunks-concat zero [] h l = refl
raw_chunks-concat zero (c ∷ cs) h l = absurd (omega (arith, h.0.sized, length-append c (concat cs)))
raw_chunks-concat (suc fuel) [] h l = refl
raw_chunks-concat (suc fuel) (c ∷ cs) h l =
    let e = span-append c (concat cs) h.0 in
    rw (e, take-append c (concat cs), drop-append c (concat cs))
      (ground (arith, h.0.sized, length-append c (concat cs), h.1, raw_chunks-concat fuel cs h.2))

-- Behind the `IEND` of a stream the walk reads no more.
pub raw_chunks-ended :
    (fuel : ℕ) (cs : List Bytes) (t : Bytes)
    → IsStream cs
    → any is_end cs ≡ true
    → length (concat cs) ≤ fuel
    → raw_chunks fuel (concat cs ++ t) ≡ cs
unfolding raw_chunks
raw_chunks-ended fuel [] t h e l = cc
raw_chunks-ended zero (c ∷ cs) t h e l =
    absurd (omega (arith, h.0.sized, length-append c (concat cs)))
raw_chunks-ended (suc fuel) (c ∷ cs) t h e l =
    let rest = concat cs ++ t in
    let s = span-append c rest h.0 in
    rw (append_assoc c (concat cs) t, s, take-append c rest, drop-append c rest)
      (ground (
        arith,
        h.0.sized,
        length-append c rest,
        length-append c (concat cs),
        h.1,
        raw_chunks-ended fuel cs t h.2,
      ))
