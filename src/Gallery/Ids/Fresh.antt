-- ===== src/Gallery/Ids/Fresh.antt =====
-- Every image of the index gets an id of its own.
use deedlit_dev.Base.{
  ℕ, zero, suc, ◌+◌, ◌≤◌, ◌<◌, ◌≡◌, refl, ap, ◌≢◌, inl, inr, true, false, not, some, List, [], ◌∷◌,
  ◌++◌, map, arith, Bool-cases, length, get_elem?, filter, length-append, length-filter-le, Text,
  text_eq, text_eq_iff, text_eq_refl, has, IsDistinct, append_cancel,
}
use deedlit_dev.Base.Decimal.{show, show-injective}
use deedlit_dev.Gallery.Sort.{sort}
use deedlit_dev.Gallery.Ids.{
  IndexedImage, DirEntry, Node, is_indexed, scan_after, fresh_loop, fresh_id, assign_ids,
  scan_image_dir, find_image,
}

-- The ids tried in turn.
abbrev candidate : Text → ℕ → Text
candidate base zero = base
candidate base (suc k) = base ++ (b'-' ∷ show (suc k))

candidate-injective : (base : Text) (i j : ℕ) → candidate base i ≡ candidate base j → i ≡ j
candidate-injective base zero zero e = refl
candidate-injective base zero (suc j) e =
    absurd (omega (arith, ap length e, length-append base (b'-' ∷ show (suc j))))
candidate-injective base (suc i) zero e =
    absurd (omega (arith, ap length e, length-append base (b'-' ∷ show (suc i))))
candidate-injective base (suc i) (suc j) e =
    let tails : b'-' ∷ show (suc i) ≡ b'-' ∷ show (suc j) = append_cancel base _ _ e in
    show-injective (suc i) (suc j) (cc)

without : Text → List Text → List Text
without a = filter (λ x. not (text_eq a x))

has-without : (a b : Text) (xs : List Text) → a ≢ b → has b xs ≡ true → has b (without a xs) ≡ true
unfolding has without
has-without a b [] ne h = h
has-without a b (x ∷ xs) ne h =
    ground (arith, text_eq_iff a x, text_eq_iff b x, has-without a b xs ne)

length-without-le : (a : Text) (xs : List Text) → length (without a xs) ≤ length xs
unfolding without
length-without-le a xs = length-filter-le (λ x. not (text_eq a x)) xs

length-without-lt :
    (a : Text) (xs : List Text) → has a xs ≡ true → length (without a xs) < length xs
unfolding has without
length-without-lt a [] h = cc
length-without-lt a (x ∷ xs) h =
    ground (arith, length-without-lt a xs, length-filter-le (λ x. not (text_eq a x)) xs)

-- `left` bounds the used ids that candidates from `k` on may still meet.
fresh_loop-fresh :
    (fuel : ℕ) (used left : List Text) (base : Text) (k : ℕ)
    → length left < fuel
    → ((j : ℕ) → k ≤ j → has (candidate base j) used ≡ true → has (candidate base j) left ≡ true)
    → has (fresh_loop fuel used base (candidate base k) (suc k)) used ≡ false
unfolding fresh_loop
fresh_loop-fresh zero used left base k h keep = absurd (omega arith)
fresh_loop-fresh (suc fuel) used left base k h keep =
    elim (Bool-cases (has (candidate base k) used)) [
      | inr e ↦ rw e e
      | inl e ↦
          let here = keep k (omega arith) e in
          let on : suc k + 1 ≡ suc (suc k) = omega arith in
          rw (e, on)
            (fresh_loop-fresh fuel used (without (candidate base k) left) base (suc k)
              (omega (arith, length-without-lt (candidate base k) left here))
              (λ j above found.
                has-without (candidate base k) (candidate base j) left
                  (λ same. omega (arith, candidate-injective base k j same))
                  (keep j (omega arith) found)))
    ]

-- The suffix loop ends with an id that is not in use.
pub fresh_id-fresh : (used : List Text) (base : Text) → has (fresh_id used base) used ≡ false
unfolding fresh_id
fresh_id-fresh used base =
    fresh_loop-fresh (length used + 1) used used base 0 (omega arith) (λ j h e. e)

abbrev pub ids : List IndexedImage → List Text
ids = map (λ i. i.id)

assign_ids-fresh :
    (node : Node) (used : List Text) (items : List DirEntry) (a : Text)
    → has a used ≡ true
    → has a (ids (assign_ids node used items)) ≡ false
unfolding assign_ids has
assign_ids-fresh node used [] a h = refl
assign_ids-fresh node used (item ∷ items) a h =
    let id = fresh_id used (node.base_id item.name) in
    ground (
      arith,
      fresh_id-fresh used (node.base_id item.name),
      text_eq_iff a id,
      assign_ids-fresh node (id ∷ used) items a,
    )

assign_ids-IsDistinct :
    (node : Node) (used : List Text) (items : List DirEntry)
    → IsDistinct (ids (assign_ids node used items))
unfolding assign_ids
assign_ids-IsDistinct node used [] = tt
assign_ids-IsDistinct node used (item ∷ items) =
    let id = fresh_id used (node.base_id item.name) in
    (
      assign_ids-fresh node (id ∷ used) items id (unfold has in rw (text_eq_refl id)),
      assign_ids-IsDistinct node (id ∷ used) items,
    )

assign_ids-filename :
    (node : Node) (used : List Text) (items : List DirEntry)
    → map (λ i. i.filename) (assign_ids node used items) ≡ map (λ d. d.name) items
unfolding assign_ids
assign_ids-filename node used [] = refl
assign_ids-filename node used (item ∷ items) =
    ap (◌∷◌ item.name)
      (assign_ids-filename node (fresh_id used (node.base_id item.name) ∷ used) items)

has-get_elem? :
    (images : List IndexedImage) (i : ℕ) (image : IndexedImage)
    → get_elem? images i ≡ some image
    → has image.id (ids images) ≡ true
unfolding has
has-get_elem? [] i image h = cc
has-get_elem? (x ∷ xs) zero image h =
    let e : image.id ≡ x.id = ground arith in rw (e, text_eq_refl x.id)
has-get_elem? (x ∷ xs) (suc i) image h = let rest = has-get_elem? xs i image h in ground arith

find_image-get_elem? :
    (images : List IndexedImage) (i : ℕ) (image : IndexedImage)
    → IsDistinct (ids images)
    → get_elem? images i ≡ some image
    → find_image image.id images ≡ some image
unfolding find_image
find_image-get_elem? [] i image d h = cc
find_image-get_elem? (x ∷ xs) zero image d h = ground (arith, text_eq_iff x.id image.id)
find_image-get_elem? (x ∷ xs) (suc i) image d h = ground (
  arith,
  text_eq_iff x.id image.id,
  has-get_elem? xs i image h,
  find_image-get_elem? xs i image d.1 h,
)

-- The ids of a scan are all different, whatever the hash gives, and its files are the files of the
-- directory that are indexed, as often as they are listed, in the order of the comparator's sort.
pub scan_image_dir-IsDistinct :
    (node : Node) (entries : List DirEntry)
    → IsDistinct (ids (scan_image_dir node entries))
      × (map (λ i. i.filename) (scan_image_dir node entries)
          ≡ map (λ d. d.name) (sort (scan_after node) (filter is_indexed entries)))
scan_image_dir-IsDistinct node entries =
    unfold scan_image_dir in
    (
      assign_ids-IsDistinct node [] (sort (scan_after node) (filter is_indexed entries)),
      assign_ids-filename node [] (sort (scan_after node) (filter is_indexed entries)),
    )

-- Looking an image of the index up by its id finds that image.
pub find_image-scan_image_dir :
    (node : Node) (entries : List DirEntry) (i : ℕ) (image : IndexedImage)
    → get_elem? (scan_image_dir node entries) i ≡ some image
    → find_image image.id (scan_image_dir node entries) ≡ some image
find_image-scan_image_dir node entries i image h =
    find_image-get_elem? (scan_image_dir node entries) i image
      (scan_image_dir-IsDistinct node entries).0 h
