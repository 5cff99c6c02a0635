-- ===== src/Png/Strip/Laws.antt =====
-- `stripPngMetadata` keeps exactly the chunks that are not removable.
use deedlit_dev.Base.{
  ℕ, zero, suc, ◌+◌, ◌-◌, ◌≤◌, ◌≡◌, sym, Bool, not, List, [], ◌∷◌, ◌++◌, append_assoc, append-nil,
  arith, leb, if◌then◌else◌, length, take, drop, slice, filter, length-drop, drop-drop,
  take-drop-take, Bytes, has,
}
use deedlit_dev.Png.Format.{read_uint32_be}
use deedlit_dev.Png.Stream.{type_of, span, is_end, raw_chunks, read_uint32_be-drop}
use deedlit_dev.Png.Strip.{removable_png_chunks, strip_loop}

abbrev pub is_kept : Bytes → Bool
is_kept c = not (has (type_of c) removable_png_chunks)

type_of_head : (o n : ℕ) (b : Bytes) → 8 ≤ n → type_of (take n (drop o b)) ≡ slice (o + 4) (o + 8) b
type_of_head o n b h =
    let e : (o + 8) - (o + 4) ≡ 4 = omega arith in
    rw (take-drop-take 4 4 n (drop o b) h, drop-drop 4 o b, e)

strip_loop_step :
    (fuel o : ℕ) (b : Bytes) (cs : List Bytes)
    → strip_loop (suc fuel) b o cs ≡ (
        let rest = drop o b in
        let c = take (span rest) rest in
        let pushed = if is_kept c then cs ++ c ∷ [] else cs in
        if leb 8 (length rest)
        then if leb (span rest) (length rest)
          then if is_end c then pushed else strip_loop fuel b (o + span rest) pushed
          else cs
        else cs)
unfolding strip_loop
strip_loop_step fuel o b cs =
    let r = read_uint32_be b o in
    let full : o + 8 + r + 4 ≡ o + (12 + r) = omega arith in
    let cut : o + (12 + r) - o ≡ 12 + r = omega arith in
    rw (type_of_head o (span (drop o b)) b (omega arith), read_uint32_be-drop b o, full, cut)
      (ground (arith, length-drop o b))

pub strip_loop-raw_chunks :
    (fuel : ℕ) (b : Bytes) (o : ℕ) (cs : List Bytes)
    → strip_loop fuel b o cs ≡ cs ++ filter is_kept (raw_chunks fuel (drop o b))
unfolding raw_chunks
strip_loop-raw_chunks zero b o cs = unfold strip_loop in sym (append-nil cs)
strip_loop-raw_chunks (suc fuel) b o cs = rw (strip_loop_step fuel o b cs) (
    ground (
      arith,
      strip_loop-raw_chunks fuel b (o + span (drop o b)) cs,
      strip_loop-raw_chunks fuel b (o + span (drop o b))
          (cs ++ take (span (drop o b)) (drop o b) ∷ []),
      drop-drop (span (drop o b)) o b,
      append-nil cs,
      append_assoc cs (take (span (drop o b)) (drop o b) ∷ [])
          (filter is_kept (raw_chunks fuel (drop (o + span (drop o b)) b))),
    ))
