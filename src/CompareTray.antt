-- ===== src/CompareTray.antt =====
-- lib/store/compare-tray.tsx of deedlit.dev.comfyhelper: the images queued for comparison, and the
-- list that is kept in the session's storage.
use deedlit_dev.Base.{
  ℕ, zero, suc, ◌≤◌, ◌≡◌, refl, sym, ap, ◌∙◌, subst, inl, inr, Bool, true, false, not, ◌&&◌, ◌||◌,
  Option, none, some, List, [], ◌∷◌, ◌++◌, map, append-nil, arith, leb, if◌then◌else◌, Bool-cases,
  length, take, filter, all, length-append, filter-append, length-filter-le, Text, text_eq,
  text_eq_iff, text_eq_refl, has, IsDistinct,
}

abbrev pub max_ids : ℕ
max_ids = 4

-- What the session's storage has under the key: nothing, a text that is not JSON, JSON that is no
-- array, or an array, of which an entry is `none` where it is no text.
pub data Stored : Type 0 where
  absent : Stored
  malformed : Stored
  no_array : Stored
  entries : List (Option Text) → Stored

-- The list in memory and what is stored.
pub record Tray : Type 0 where
  pub ids : List Text
  pub stored : Stored

unfoldable pub texts_of : List (Option Text) → List Text
texts_of [] = []
texts_of (none ∷ xs) = texts_of xs
texts_of (some t ∷ xs) = t ∷ texts_of xs

unfoldable pub add : Text → List Text → List Text
add id p = if has id p || leb max_ids (length p) then p else p ++ id ∷ []

unfoldable pub remove : Text → List Text → List Text
remove id p = filter (λ x. not (text_eq x id)) p

unfoldable pub toggle : Text → List Text → List Text
unfolding remove
toggle id p = if has id p then remove id p else if leb max_ids (length p) then p else p ++ id ∷ []

abbrev pub is_full : List Text → Bool
is_full ids = leb max_ids (length ids)

-- An action with what the storage does: each call of `getItem` and `setItem` may throw.
pub data Action : Type 0 where
  add_id : Text → Bool → Action
  remove_id : Text → Bool → Action
  toggle_id : Text → Bool → Action
  clear : Bool → Action
  -- The provider is mounted again: a read, the write of the empty list, and that of the list read.
  reload : Bool → Bool → Bool → Action

-- The effect that stores a new list.
abbrev pub store : Bool → List Text → Stored → Tray
store writes ids old = record { ids = ids; stored = if writes then entries (map some ids) else old }

-- The list that the first effect sets, if it sets one.
unfoldable pub loaded : Stored → Option (List Text)
unfolding texts_of
loaded (entries xs) = some (take max_ids (texts_of xs))
loaded _ = none

abbrev pub mount : Option (List Text) → Bool → Tray → Tray
mount none writes t = t
mount (some ids) writes t = store writes ids t.stored

-- Where a list is set to itself, no effect runs.
unfoldable pub act : Action → Tray → Tray
unfolding loaded
act (add_id id writes) t =
    if has id t.ids || is_full t.ids then t else store writes (add id t.ids) t.stored
act (remove_id id writes) t = store writes (remove id t.ids) t.stored
act (toggle_id id writes) t =
    if not (has id t.ids) && is_full t.ids then t else store writes (toggle id t.ids) t.stored
act (clear writes) t = store writes [] t.stored
act (reload reads writes writes_again) t =
    mount (if reads then loaded t.stored else none) writes_again (store writes [] t.stored)

unfoldable pub run : List Action → Tray → Tray
unfolding act
run [] t = t
run (a ∷ as_) t = run as_ (act a t)

-- At most four ids, each once.
abbrev pub IsShort : List Text → Type 0
IsShort ids = (length ids ≤ max_ids) × IsDistinct ids

abbrev pub IsStored : Stored → Type 0
IsStored (entries xs) = IsShort (texts_of xs)
IsStored _ = Unit {0}

-- The list in memory and the stored one have at most four ids each, and no id twice.
pub record IsTray (t : Tray) : Type 0 where
  pub short : IsShort t.ids
  pub kept : IsStored t.stored

-- What is stored is the list in memory.
abbrev pub InSync : Tray → Type 0
InSync t = t.stored ≡ entries (map some t.ids)

abbrev pub writes_succeed : Action → Bool
writes_succeed (add_id id writes) = writes
writes_succeed (remove_id id writes) = writes
writes_succeed (toggle_id id writes) = writes
writes_succeed (clear writes) = writes
writes_succeed (reload reads writes writes_again) = reads && writes && writes_again

has-filter :
    (a : Text) (q : Text → Bool) (xs : List Text) → has a xs ≡ false → has a (filter q xs) ≡ false
unfolding has
has-filter a q [] h = refl
has-filter a q (x ∷ xs) h = ground (arith, has-filter a q xs)

IsDistinct-filter : (q : Text → Bool) (xs : List Text) → IsDistinct xs → IsDistinct (filter q xs)
IsDistinct-filter q [] h = tt
IsDistinct-filter q (x ∷ xs) h = ground (arith, IsDistinct-filter q xs, has-filter x q xs)

has-append : (a : Text) (xs ys : List Text) → has a (xs ++ ys) ≡ (has a xs || has a ys)
unfolding has
has-append a [] ys = refl
has-append a (x ∷ xs) ys = ground (arith, has-append a xs ys)

IsDistinct-append :
    (id : Text) (xs : List Text) → has id xs ≡ false → IsDistinct xs → IsDistinct (xs ++ id ∷ [])
unfolding has
IsDistinct-append id [] h d = (refl, tt)
IsDistinct-append id (x ∷ xs) h d =
    ground (
      arith,
      IsDistinct-append id xs,
      has-append x xs (id ∷ []),
      text_eq_iff x id,
      text_eq_iff id x,
    )

texts_of-some : (xs : List Text) → texts_of (map some xs) ≡ xs
unfolding texts_of
texts_of-some [] = refl
texts_of-some (x ∷ xs) = ap (◌∷◌ x) (texts_of-some xs)

take_few : (xs : List Text) (n : ℕ) → length xs ≤ n → take n xs ≡ xs
take_few [] zero h = refl
take_few [] (suc n) h = refl
take_few (x ∷ xs) zero h = absurd (omega arith)
take_few (x ∷ xs) (suc n) h = ap (◌∷◌ x) (take_few xs n (omega arith))

store-IsTray :
    (writes : Bool) (ids : List Text) (old : Stored)
    → IsShort ids
    → IsStored old
    → IsTray (store writes ids old)
store-IsTray true ids old h k = record {
  short = h;
  kept = subst IsShort (sym (texts_of-some ids)) h;
}
store-IsTray false ids old h k = record { short = h; kept = k }

remove-IsShort : (id : Text) (p : List Text) → IsShort p → IsShort (remove id p)
unfolding remove
remove-IsShort id p h = (
  omega (arith, h.0, length-filter-le (λ x. not (text_eq x id)) p),
  IsDistinct-filter (λ x. not (text_eq x id)) p h.1,
)

append-IsShort :
    (id : Text) (p : List Text)
    → has id p ≡ false
    → leb max_ids (length p) ≡ false
    → IsShort p
    → IsShort (p ++ id ∷ [])
append-IsShort id p n room h =
    (ground (arith, length-append p (id ∷ [])), IsDistinct-append id p n h.1)

add-IsShort : (id : Text) (p : List Text) → IsShort p → IsShort (add id p)
unfolding add
add-IsShort id p h = elim (Bool-cases (has id p || leb max_ids (length p))) [
  | inl y ↦ rw y h
  | inr n ↦ rw n (append-IsShort id p (ground arith) (ground arith) h)
]

toggle-IsShort : (id : Text) (p : List Text) → IsShort p → IsShort (toggle id p)
unfolding toggle
toggle-IsShort id p h = elim (Bool-cases (has id p)) [
  | inl y ↦ rw y (remove-IsShort id p h)
  | inr n ↦ elim (Bool-cases (leb max_ids (length p))) [
    | inl f ↦ rw n (rw f h)
    | inr r ↦ rw n (rw r (append-IsShort id p n r h))
  ]
]

-- A change that is made unless a test refuses it.
unless-IsTray :
    (refused writes : Bool) (ids : List Text) (t : Tray)
    → IsTray t
    → IsShort ids
    → IsTray (if refused then t else store writes ids t.stored)
unless-IsTray true writes ids t v h = v
unless-IsTray false writes ids t v h = store-IsTray writes ids t.stored h v.kept

loaded-IsShort : (s : Stored) (ids : List Text) → IsStored s → loaded s ≡ some ids → IsShort ids
unfolding loaded
loaded-IsShort absent ids k e = absurd (ground arith)
loaded-IsShort malformed ids k e = absurd (ground arith)
loaded-IsShort no_array ids k e = absurd (ground arith)
loaded-IsShort (entries xs) ids k e =
    let same : ids ≡ texts_of xs = ground (arith, take_few (texts_of xs) max_ids k.0) in
    subst IsShort (sym same) k

mount-IsTray :
    (found : Option (List Text)) (writes : Bool) (t : Tray)
    → ((ids : List Text) → found ≡ some ids → IsShort ids)
    → IsTray t
    → IsTray (mount found writes t)
mount-IsTray none writes t h v = v
mount-IsTray (some ids) writes t h v = store-IsTray writes ids t.stored (h ids refl) v.kept

act-IsTray : (a : Action) (t : Tray) → IsTray t → IsTray (act a t)
unfolding act
act-IsTray (add_id id writes) t v =
    unless-IsTray (has id t.ids || is_full t.ids) writes (add id t.ids) t v
      (add-IsShort id t.ids v.short)
act-IsTray (remove_id id writes) t v =
    store-IsTray writes (remove id t.ids) t.stored (remove-IsShort id t.ids v.short) v.kept
act-IsTray (toggle_id id writes) t v =
    unless-IsTray (not (has id t.ids) && is_full t.ids) writes (toggle id t.ids) t v
      (toggle-IsShort id t.ids v.short)
act-IsTray (clear writes) t v = store-IsTray writes [] t.stored (omega arith, tt) v.kept
act-IsTray (reload true writes again) t v =
    mount-IsTray (loaded t.stored) again (store writes [] t.stored)
      (λ ids e. loaded-IsShort t.stored ids v.kept e)
      (store-IsTray writes [] t.stored (omega arith, tt) v.kept)
act-IsTray (reload false writes again) t v =
    store-IsTray writes [] t.stored (omega arith, tt) v.kept

unless-InSync :
    (refused : Bool) (ids : List Text) (t : Tray)
    → InSync t
    → InSync (if refused then t else store true ids t.stored)
unless-InSync true ids t s = s
unless-InSync false ids t s = refl

-- A reload whose calls succeed shows the list that was shown.
reload-InSync : (t : Tray) → IsTray t → InSync t → act (reload true true true) t ≡ t
unfolding act loaded
reload-InSync t v s =
    let same : take max_ids (texts_of (map some t.ids)) ≡ t.ids =
      ap (take max_ids) (texts_of-some t.ids) ∙ take_few t.ids max_ids v.short.0 in
    rw s (rw same refl)

act-InSync :
    (a : Action) (t : Tray) → IsTray t → writes_succeed a ≡ true → InSync t → InSync (act a t)
unfolding act
act-InSync (add_id id true) t v w s =
    unless-InSync (has id t.ids || is_full t.ids) (add id t.ids) t s
act-InSync (remove_id id true) t v w s = refl
act-InSync (toggle_id id true) t v w s =
    unless-InSync (not (has id t.ids) && is_full t.ids) (toggle id t.ids) t s
act-InSync (clear true) t v w s = refl
act-InSync (reload true true true) t v w s = subst InSync (sym (reload-InSync t v s)) s
act-InSync (add_id id false) t v w s = absurd (ground arith)
act-InSync (remove_id id false) t v w s = absurd (ground arith)
act-InSync (toggle_id id false) t v w s = absurd (ground arith)
act-InSync (clear false) t v w s = absurd (ground arith)
act-InSync (reload false a b) t v w s = absurd (ground arith)
act-InSync (reload true false b) t v w s = absurd (ground arith)
act-InSync (reload true true false) t v w s = absurd (ground arith)

-- Whatever is done, and whichever calls of the storage throw: a tray whose list and stored list have at most four
-- ids each, and no id twice, stays such a tray; and where every call succeeds and what is stored is the list in
-- memory, it stays that list, and mounting the provider again changes neither.
pub run-IsTray :
    (as_ : List Action) (t : Tray)
    → IsTray t
    → IsTray (run as_ t)
      × (all writes_succeed as_ ≡ true
          → InSync t
          → InSync (run as_ t) × (act (reload true true true) (run as_ t) ≡ run as_ t))
unfolding run
run-IsTray [] t v = (v, λ w s. (s, reload-InSync t v s))
run-IsTray (a ∷ as_) t v =
    let (kept, synced) = run-IsTray as_ (act a t) (act-IsTray a t v) in
    (kept, λ w s. synced (ground arith) (act-InSync a t v (ground arith) s))

filter-absent :
    (id : Text) (p : List Text) → has id p ≡ false → filter (λ x. not (text_eq x id)) p ≡ p
unfolding has
filter-absent id [] n = refl
filter-absent id (x ∷ p) n = ground (arith, filter-absent id p, text_eq_iff x id, text_eq_iff id x)

-- Toggling an id that is not in the list twice leaves the list as it was, whether or not it is full.
pub toggle-toggle : (id : Text) (p : List Text) → has id p ≡ false → toggle id (toggle id p) ≡ p
toggle-toggle id p n = elim (Bool-cases (leb max_ids (length p))) [
  | inl f ↦ unfold toggle in rw n (rw f (rw n (rw f refl)))
  | inr r ↦
      let e : toggle id p ≡ p ++ id ∷ [] = unfold toggle in rw n (rw r refl) in
      let h : has id (p ++ id ∷ []) ≡ true =
        has-append id p (id ∷ []) ∙ (unfold has in rw n (rw (text_eq_refl id) refl)) in
      let q : not (text_eq id id) ≡ false = ap not (text_eq_refl id) in
      rw e (
        unfold toggle in
        rw h (
          unfold remove in
          (filter-append (λ x. not (text_eq x id)) p (id ∷ [])
            ∙ rw (q, append-nil) (filter-absent id p n))))
]
