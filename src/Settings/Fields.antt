-- ===== src/Settings/Fields.antt =====
-- What the helpers of `mergeSettings` make of one field.
use deedlit_dev.Base.{
  ℕ, ◌≤◌, ◌≡◌, refl, sym, ap, true, false, Option, none, some, List, [], ◌∷◌, map, arith, All, Text,
  text_eq, text_eq_iff, text_eq_refl, has, IsDistinct,
}
use deedlit_dev.Settings.{
  Numbers, Value, flag, number, text, listed, other, LibrarySettings, clamp, num, one_of,
  allowed_once, subset_of, browse_modes, view_modes, sort_modes, group_modes, densities, image_fits,
  safety_classes,
}

-- What is used of the order: the literals keep it, and it is total.
pub record IsOrdered {N : Type 0} (n : Numbers N) : Type 0 where
  pub literals : (a b : ℕ) → a ≤ b → n.number_leb (n.literal a) (n.literal b) ≡ true
  pub total : (a b : N) → n.number_leb a b ≡ false → n.number_leb b a ≡ true

module _ {N : Type 0} (n : Numbers N) where
  abbrev pub IsWithin : ℕ → ℕ → N → Type 0
  IsWithin low high v =
      (n.number_leb (n.literal low) v ≡ true) × (n.number_leb v (n.literal high) ≡ true)

-- Every number within its bounds, every choice among the allowed ones, the safety classes allowed
-- and each once.
pub record IsValid {N : Type 0} (n : Numbers N) (s : LibrarySettings N) : Type 0 where
  pub page_size : IsWithin n 10 200 s.page_size
  pub default_mode : has s.default_mode browse_modes ≡ true
  pub view_mode : has s.view_mode view_modes ≡ true
  pub sort_mode : has s.sort_mode sort_modes ≡ true
  pub group_by : has s.group_by group_modes ≡ true
  pub grid_density : has s.grid_density densities ≡ true
  pub viewer_image_fit : has s.viewer_image_fit image_fits ≡ true
  pub graph_depth : IsWithin n 1 3 s.graph_depth
  pub similar_count : IsWithin n 0 48 s.similar_count
  pub similar_min_score : IsWithin n 0 1 s.similar_min_score
  pub related_tags_count : IsWithin n 0 40 s.related_tags_count
  pub default_min_rating : IsWithin n 0 5 s.default_min_rating
  pub default_min_score : IsWithin n 0 1 s.default_min_score
  pub default_safety : All (λ c. has c safety_classes ≡ true) s.default_safety
  pub default_safety_once : IsDistinct s.default_safety
  pub slideshow_interval : IsWithin n 1 60 s.slideshow_interval

module _ {N : Type 0} (n : Numbers N) (ord : IsOrdered n) where
  pub clamp_bounds : (v : N) (low high : ℕ) → low ≤ high → IsWithin n low high (clamp n v low high)
  unfolding clamp
  clamp_bounds v low high h = ground (
    arith,
    ord.literals low high h,
    ord.literals low low (omega arith),
    ord.literals high high (omega arith),
    ord.total (n.literal low) v,
    ord.total v (n.literal high),
  )

  pub num_bounds :
      (v : Value N) (low high fallback : ℕ)
      → low ≤ fallback
      → fallback ≤ high
      → IsWithin n low high (num n v low high (n.literal fallback))
  unfolding num
  num_bounds (number (some v)) low high fallback h k = clamp_bounds v low high (omega arith)
  num_bounds (number none) low high fallback h k =
      (ord.literals low fallback h, ord.literals fallback high k)
  num_bounds (flag b) low high fallback h k =
      (ord.literals low fallback h, ord.literals fallback high k)
  num_bounds (text t) low high fallback h k =
      (ord.literals low fallback h, ord.literals fallback high k)
  num_bounds (listed xs) low high fallback h k =
      (ord.literals low fallback h, ord.literals fallback high k)
  num_bounds other low high fallback h k =
      (ord.literals low fallback h, ord.literals fallback high k)

pub one_of-allowed :
    {N : Type 0} (v : Value N) (allowed : List Text) (fallback : Text)
    → has fallback allowed ≡ true
    → has (one_of v allowed fallback) allowed ≡ true
unfolding one_of
one_of-allowed (text t) allowed fallback h = ground arith
one_of-allowed (flag b) allowed fallback h = h
one_of-allowed (number v) allowed fallback h = h
one_of-allowed (listed xs) allowed fallback h = h
one_of-allowed other allowed fallback h = h

allowed_once-All :
    (allowed seen : List Text) (xs : List (Option Text))
    → All (λ c. has c allowed ≡ true) (allowed_once allowed seen xs)
unfolding allowed_once
allowed_once-All allowed seen [] = tt
allowed_once-All allowed seen (none ∷ xs) = allowed_once-All allowed seen xs
allowed_once-All allowed seen (some t ∷ xs) =
    ground (arith, allowed_once-All allowed seen xs, allowed_once-All allowed (t ∷ seen) xs)

allowed_once_fresh :
    (allowed seen : List Text) (xs : List (Option Text)) (a : Text)
    → has a seen ≡ true
    → has a (allowed_once allowed seen xs) ≡ false
unfolding allowed_once has
allowed_once_fresh allowed seen [] a h = refl
allowed_once_fresh allowed seen (none ∷ xs) a h = allowed_once_fresh allowed seen xs a h
allowed_once_fresh allowed seen (some t ∷ xs) a h = ground (
  arith,
  allowed_once_fresh allowed seen xs a h,
  allowed_once_fresh allowed (t ∷ seen) xs a,
  text_eq_iff a t,
)

allowed_once-IsDistinct :
    (allowed seen : List Text) (xs : List (Option Text)) → IsDistinct (allowed_once allowed seen xs)
unfolding allowed_once
allowed_once-IsDistinct allowed seen [] = tt
allowed_once-IsDistinct allowed seen (none ∷ xs) = allowed_once-IsDistinct allowed seen xs
allowed_once-IsDistinct allowed seen (some t ∷ xs) = ground (
  arith,
  allowed_once-IsDistinct allowed seen xs,
  allowed_once-IsDistinct allowed (t ∷ seen) xs,
  allowed_once_fresh allowed (t ∷ seen) xs t (unfold has in rw (text_eq_refl t) refl),
)

still_new :
    (x : Text) (xs seen : List Text)
    → has x xs ≡ false
    → ((a : Text) → has a (x ∷ xs) ≡ true → has a seen ≡ false)
    → (a : Text) → has a xs ≡ true
    → has a (x ∷ seen) ≡ false
unfolding has
still_new x xs seen d new a k =
    let same : text_eq a x ≡ true → has x xs ≡ has a xs =
      λ e. ap (λ b. has b xs) (sym ((text_eq_iff a x).0 e)) in
    let before : has a xs ≡ true → has a seen ≡ false = λ e. new a (ground arith) in ground arith

-- Texts that are allowed, and in which nothing repeats or was met before, are all kept.
pub allowed_once_same :
    (allowed seen xs : List Text)
    → All (λ c. has c allowed ≡ true) xs
    → IsDistinct xs
    → ((a : Text) → has a xs ≡ true → has a seen ≡ false)
    → allowed_once allowed seen (map some xs) ≡ xs
unfolding allowed_once
allowed_once_same allowed seen [] h d new = refl
allowed_once_same allowed seen (x ∷ xs) (h, hs) (d, ds) new =
    let fresh = new x (unfold has in rw (text_eq_refl x) refl) in
    rw (h, fresh)
      (ap (◌∷◌ x) (allowed_once_same allowed (x ∷ seen) xs hs ds (still_new x xs seen d new)))

pub subset_of-All :
    {N : Type 0} (v : Value N) (allowed fallback : List Text)
    → All (λ c. has c allowed ≡ true) fallback
    → All (λ c. has c allowed ≡ true) (subset_of v allowed fallback)
unfolding subset_of
subset_of-All (listed xs) allowed fallback h = allowed_once-All allowed [] xs
subset_of-All (flag b) allowed fallback h = h
subset_of-All (number v) allowed fallback h = h
subset_of-All (text t) allowed fallback h = h
subset_of-All other allowed fallback h = h

pub subset_of-IsDistinct :
    {N : Type 0} (v : Value N) (allowed fallback : List Text)
    → IsDistinct fallback
    → IsDistinct (subset_of v allowed fallback)
unfolding subset_of
subset_of-IsDistinct (listed xs) allowed fallback h = allowed_once-IsDistinct allowed [] xs
subset_of-IsDistinct (flag b) allowed fallback h = h
subset_of-IsDistinct (number v) allowed fallback h = h
subset_of-IsDistinct (text t) allowed fallback h = h
subset_of-IsDistinct other allowed fallback h = h

pub safety_classes-All : All (λ c. has c safety_classes ≡ true) safety_classes
unfolding has text_eq
safety_classes-All = (refl, (refl, (refl, tt)))

pub safety_classes-IsDistinct : IsDistinct safety_classes
unfolding has text_eq
safety_classes-IsDistinct = (refl, (refl, (refl, tt)))

module _ {N : Type 0} (n : Numbers N) where
  clamp_inside : (v : N) (low high : ℕ) → IsWithin n low high v → clamp n v low high ≡ v
  unfolding clamp
  clamp_inside v low high h = ground arith

  pub num_inside :
      (v : N) (low high : ℕ) (fallback : N)
      → IsWithin n low high v
      → num n (number (some v)) low high fallback ≡ v
  unfolding num
  num_inside v low high fallback h = clamp_inside v low high h

  pub one_of_allowed :
      (t : Text) (allowed : List Text) (fallback : Text)
      → has t allowed ≡ true
      → one_of {N = N} (text t) allowed fallback ≡ t
  unfolding one_of
  one_of_allowed t allowed fallback h = rw h refl
