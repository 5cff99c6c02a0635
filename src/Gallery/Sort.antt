-- ===== src/Gallery/Sort.antt =====
-- `Array.prototype.sort` by a comparator: a stable sort. `after a b` says that the comparator's
-- value at `(a, b)` is positive.
use deedlit_dev.Base.{
  ℕ, ◌≡◌, refl, sym, ap, ◌∙◌, subst, inl, inr, Bool, true, false, not, ◌&&◌, List, [], ◌∷◌, arith,
  ltb, if◌then◌else◌, Bool-cases, filter, All,
}
use mathlib.Core.List.{Perm}
use mathlib.Core.List.Perm

module _ {ℓ} {A : Type ℓ} (after : A → A → Bool) where
  unfoldable pub insert : A → List A → List A
  insert x [] = x ∷ []
  insert x (y ∷ ys) = if after x y then y ∷ insert x ys else x ∷ y ∷ ys

  unfoldable pub sort : List A → List A
  unfolding insert
  sort [] = []
  sort (x ∷ xs) = insert x (sort xs)

  insert-perm : (x : A) (ys : List A) → Perm (insert x ys) (x ∷ ys)
  unfolding insert
  insert-perm x [] = Perm.refl (x ∷ [])
  insert-perm x (y ∷ ys) = elim (Bool-cases (after x y)) [
    | inl e ↦ rw e (Perm.trans (Perm.cons y (insert-perm x ys)) (Perm.swap x y ys))
    | inr e ↦ rw e (Perm.refl (x ∷ y ∷ ys))
  ]

  -- Sorting loses nothing and makes nothing up.
  pub sort-perm : (xs : List A) → Perm (sort xs) xs
  unfolding sort
  sort-perm [] = Perm.refl []
  sort-perm (x ∷ xs) = Perm.trans (insert-perm x (sort xs)) (Perm.cons x (sort-perm xs))

-- A comparator that orders: never both ways round, and with no cycles among ties.
pub record IsOrder {ℓ} {A : Type ℓ} (after : A → A → Bool) : Type ℓ where
  pub asym : (a b : A) → after a b ≡ true → after b a ≡ false
  pub trans : (a b c : A) → after a b ≡ false → after b c ≡ false → after a c ≡ false

module _ {ℓ} {A : Type ℓ} (after : A → A → Bool) where
  -- No entry comes after a later one.
  abbrev pub IsSorted : List A → Type 0
  IsSorted [] = Unit
  IsSorted (x ∷ xs) = All (λ y. after x y ≡ false) xs × IsSorted xs

  -- Neither comes after the other.
  abbrev pub ties : A → A → Bool
  ties a b = not (after a b) && not (after b a)

module _ {ℓ} {A : Type ℓ} (after : A → A → Bool) (order : IsOrder after) where
  All-insert :
      (z x : A) (ys : List A)
      → after z x ≡ false
      → All (λ y. after z y ≡ false) ys
      → All (λ y. after z y ≡ false) (insert after x ys)
  unfolding insert
  All-insert z x [] h k = (h, tt)
  All-insert z x (y ∷ ys) h k = ground (arith, All-insert z x ys h k.1)

  All-trans :
      (x y : A) (ys : List A)
      → after x y ≡ false
      → All (λ z. after y z ≡ false) ys
      → All (λ z. after x z ≡ false) ys
  All-trans x y [] h k = tt
  All-trans x y (z ∷ ys) h k = (order.trans x y z h k.0, All-trans x y ys h k.1)

  insert-IsSorted : (x : A) (ys : List A) → IsSorted after ys → IsSorted after (insert after x ys)
  unfolding insert
  insert-IsSorted x [] h = (tt, tt)
  insert-IsSorted x (y ∷ ys) h = elim (Bool-cases (after x y)) [
    | inl e ↦ rw e (All-insert y x ys (order.asym x y e) h.0, insert-IsSorted x ys h.1)
    | inr e ↦ rw e ((e, All-trans x y ys e h.0), h)
  ]

  pub sort-IsSorted : (xs : List A) → IsSorted after (sort after xs)
  unfolding sort
  sort-IsSorted [] = tt
  sort-IsSorted (x ∷ xs) = insert-IsSorted x (sort after xs) (sort-IsSorted xs)

  filter-insert :
      (a x : A) (ys : List A)
      → filter (ties after a) (insert after x ys) ≡ filter (ties after a) (x ∷ ys)
  unfolding insert
  filter-insert a x [] = refl
  filter-insert a x (y ∷ ys) =
      ground (arith, filter-insert a x ys, order.asym x y, order.trans x a y, order.trans y a x)

  -- Entries that tie keep their order.
  pub sort_stable :
      (a : A) (xs : List A) → filter (ties after a) (sort after xs) ≡ filter (ties after a) xs
  unfolding sort
  sort_stable a [] = refl
  sort_stable a (x ∷ xs) =
      filter-insert a x (sort after xs)
      ∙ ap (λ ys. if ties after a x then x ∷ ys else ys) (sort_stable a xs)

-- Numbers order, either way round.
pub ascending-IsOrder {ℓ} : {A : Type ℓ} (key : A → ℕ) → IsOrder (λ a b. ltb (key b) (key a))
ascending-IsOrder key = record { asym = λ a b h. ground arith; trans = λ a b c h k. ground arith }

pub descending-IsOrder {ℓ} : {A : Type ℓ} (key : A → ℕ) → IsOrder (λ a b. ltb (key a) (key b))
descending-IsOrder key = record { asym = λ a b h. ground arith; trans = λ a b c h k. ground arith }

pub flip-IsOrder {ℓ} :
    {A B : Type ℓ} (after : B → B → Bool) (key : A → B)
    → IsOrder after
    → IsOrder (λ a b. after (key b) (key a))
flip-IsOrder after key order = record {
  asym = λ a b h. order.asym (key b) (key a) h;
  trans = λ a b c h k. order.trans (key c) (key b) (key a) k h;
}

pub key-IsOrder {ℓ} :
    {A B : Type ℓ} (after : B → B → Bool) (key : A → B)
    → IsOrder after
    → IsOrder (λ a b. after (key a) (key b))
key-IsOrder after key order = record {
  asym = λ a b h. order.asym (key a) (key b) h;
  trans = λ a b c h k. order.trans (key a) (key b) (key c) h k;
}

-- Comparators that agree on the entries sort them alike.
module _ {ℓ κ} {A : Type ℓ} (P : A → Type κ) (f g : A → A → Bool)
    (agree : (x y : A) → P x → P y → f x y ≡ g x y) where
  All-insert_same : (x : A) (ys : List A) → P x → All P ys → All P (insert f x ys)
  unfolding insert
  All-insert_same x [] p h = (p, tt)
  All-insert_same x (y ∷ ys) p h = ground (arith, All-insert_same x ys p h.1)

  pub All-sort : (xs : List A) → All P xs → All P (sort f xs)
  unfolding sort
  All-sort [] h = tt
  All-sort (x ∷ xs) h = All-insert_same x (sort f xs) h.0 (All-sort xs h.1)

  insert_congr : (x : A) (ys : List A) → P x → All P ys → insert f x ys ≡ insert g x ys
  unfolding insert
  insert_congr x [] p h = refl
  insert_congr x (y ∷ ys) p h = rw (agree x y p h.0, insert_congr x ys p h.1)

  pub sort_congr : (xs : List A) → All P xs → sort f xs ≡ sort g xs
  unfolding sort
  sort_congr [] h = refl
  sort_congr (x ∷ xs) h =
      insert_congr x (sort f xs) h.0 (All-sort xs h.1) ∙ ap (insert g x) (sort_congr xs h.1)

  All-agree :
      (x : A) (ys : List A)
      → P x
      → All P ys
      → All (λ y. g x y ≡ false) ys
      → All (λ y. f x y ≡ false) ys
  All-agree x [] p h k = tt
  All-agree x (y ∷ ys) p h k = (agree x y p h.0 ∙ k.0, All-agree x ys p h.1 k.1)

  IsSorted-agree : (xs : List A) → All P xs → IsSorted g xs → IsSorted f xs
  IsSorted-agree [] h s = tt
  IsSorted-agree (x ∷ xs) h s = (All-agree x xs h.0 h.1 s.0, IsSorted-agree xs h.1 s.1)

  -- It is enough that the comparator orders the entries that there are.
  pub sort-IsSorted_on : (xs : List A) → IsOrder g → All P xs → IsSorted f (sort f xs)
  sort-IsSorted_on xs order h =
      IsSorted-agree (sort f xs) (All-sort xs h)
        (subst (IsSorted g) (sym (sort_congr xs h)) (sort-IsSorted g order xs))
