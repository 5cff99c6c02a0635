-- ===== src/CacheRoute/Scan.antt =====
-- The scan of Redis comes to its end, and the deletion takes every key once.
use deedlit_dev.Base.{
  ℕ, zero, suc, ◌+◌, ◌-◌, ◌≤◌, ◌≡◌, refl, sym, ap, ◌∙◌, inl, inr, false, some, List, [], ◌∷◌, ◌++◌,
  append-nil, arith, ltb, Bool-cases, length, take, drop, concat, All, length-drop, length-take,
  take-append-drop, drop-drop, Text, codes, text_eq,
}
use deedlit_dev.Base.Outcome.{returned}
use deedlit_dev.CacheRoute.{Redis, scan_from, scan_keys}
use deedlit_dev.CacheRoute.Routes.{batch_size, batches_from, key_batches}

-- From the cursor, Redis gives these batches, and the last comes with the cursor "0".
pub data Scans (redis : Redis) (pattern : Text) : Text → List (List Text) → Type 0 where
  last :
      {cursor : Text} {keys : List Text}
      → redis.scan cursor pattern ≡ returned (codes "0", keys)
      → Scans redis pattern cursor (keys ∷ [])
  more :
      {cursor next : Text} {keys : List Text} {batches : List (List Text)}
      → redis.scan cursor pattern ≡ returned (next, keys)
      → text_eq next (codes "0") ≡ false
      → Scans redis pattern next batches
      → Scans redis pattern cursor (keys ∷ batches)

scan_from_lem :
    (redis : Redis) (pattern cursor : Text) (batches : List (List Text)) (fuel : ℕ)
    → Scans redis pattern cursor batches
    → length batches ≤ fuel
    → scan_from redis pattern fuel cursor ≡ returned (some (concat batches))
unfolding scan_from text_eq
scan_from_lem redis pattern cursor [] zero s h = elim s [ ]
scan_from_lem redis pattern cursor (b ∷ bs) zero s h = absurd (omega arith)
scan_from_lem redis pattern cursor batches (suc fuel) (last {keys = keys} e) h =
    rw (e, append-nil) refl
scan_from_lem redis pattern cursor batches (suc fuel) (more {next = next} {batches = rest} e n s)
      h =
    rw e (rw n (rw (scan_from_lem redis pattern next rest fuel s (omega arith)) refl))

-- A scan that Redis ends after some batches is read whole, in order, with that many rounds or more.
pub scan_keys-Scans :
    (redis : Redis) (pattern : Text) (batches : List (List Text)) (fuel : ℕ)
    → Scans redis pattern (codes "0") batches
    → length batches ≤ fuel
    → scan_keys redis pattern fuel ≡ returned (some (concat batches))
scan_keys-Scans redis pattern batches fuel s h =
    scan_from_lem redis pattern (codes "0") batches fuel s h

drop-step :
    (i : ℕ) (keys : List Text)
    → take batch_size (drop i keys) ++ drop (i + batch_size) keys ≡ drop i keys
drop-step i keys =
    ap (λ r. take batch_size (drop i keys) ++ r) (sym (drop-drop batch_size i keys))
    ∙ take-append-drop batch_size (drop i keys)

drop-all : (i : ℕ) (keys : List Text) → length keys ≤ i → drop i keys ≡ []
drop-all zero [] h = refl
drop-all (suc i) [] h = refl
drop-all zero (k ∷ keys) h = absurd (omega arith)
drop-all (suc i) (k ∷ keys) h = drop-all i keys (omega arith)

batches_from_lem :
    (fuel i : ℕ) (keys : List Text)
    → length keys ≤ i + fuel
    → concat (batches_from fuel i keys) ≡ drop i keys
unfolding batches_from
batches_from_lem zero i keys h = sym (drop-all i keys (omega arith))
batches_from_lem (suc fuel) i keys h = elim (Bool-cases (ltb i (length keys))) [
  | inl y ↦
      let cut : (i + batch_size) - i ≡ batch_size = omega arith in
      rw y (rw (cut, batches_from_lem fuel (i + batch_size) keys (omega arith)) (drop-step i keys))
  | inr n ↦ rw n (sym (drop-all i keys (ground arith)))
]

abbrev pub IsBatch : List Text → Type 0
IsBatch b = (1 ≤ length b) × (length b ≤ batch_size)

batches_from-IsBatch : (fuel i : ℕ) (keys : List Text) → All IsBatch (batches_from fuel i keys)
unfolding batches_from
batches_from-IsBatch zero i keys = tt
batches_from-IsBatch (suc fuel) i keys = elim (Bool-cases (ltb i (length keys))) [
  | inr n ↦ rw n tt
  | inl y ↦
      let cut = length-take ((i + batch_size) - i) (drop i keys) in
      let behind = length-drop i keys in
      rw y (
        (ground (arith, cut, behind, y), omega (arith, cut)),
        batches_from-IsBatch fuel (i + batch_size) keys,
      )
]

-- Each key is in one batch, in order, and a batch has at least one key and at most five hundred.
pub key_batches_lem :
    (keys : List Text) → (concat (key_batches keys) ≡ keys) × All IsBatch (key_batches keys)
unfolding key_batches
key_batches_lem keys =
    (batches_from_lem (length keys) 0 keys (omega arith), batches_from-IsBatch (length keys) 0 keys)
