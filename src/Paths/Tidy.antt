-- ===== src/Paths/Tidy.antt =====
-- What `normalizePath` leaves of the separators of a path.
use deedlit_dev.Base.{
  ℕ, ◌≤◌, ◌≡◌, refl, sym, ap, ◌∙◌, ◌⊎◌, inl, inr, Bool, true, false, not, ◌&&◌, Option, none, some,
  [], ◌∷◌, ◌++◌, reverse, arith, ltb, ◌==◌, Bool-cases, &&-true, length, Text,
}
use mathlib.Core.List.{reverse-append, reverse-reverse}
use deedlit_dev.Paths.{
  collapse, is_sep, slash, backslash, is_drive, drop_seps, strip_trailing, tidy_body,
}

abbrev pub first : Text → Option ℕ
first [] = none
first (c ∷ s) = some c

abbrev both : ℕ → ℕ → Option ℕ → Bool
both sep c none = false
both sep c (some d) = c == sep && d == sep

-- No two neighbours are both `sep`.
abbrev pub no_double : ℕ → Text → Bool
no_double sep [] = true
no_double sep (c ∷ s) = not (both sep c (first s)) && no_double sep s

first-collapse : (sep : ℕ) (s : Text) → first (collapse sep s) ≡ first s
unfolding collapse
first-collapse sep [] = refl
first-collapse sep (c ∷ []) = refl
first-collapse sep (c ∷ d ∷ s) = ground (arith, first-collapse sep (d ∷ s))

no_double-collapse : (sep : ℕ) (s : Text) → no_double sep (collapse sep s) ≡ true
unfolding collapse
no_double-collapse sep [] = refl
no_double-collapse sep (c ∷ []) = refl
no_double-collapse sep (c ∷ d ∷ s) =
    ground (arith, no_double-collapse sep (d ∷ s), first-collapse sep (d ∷ s))

no_double-collapse_other :
    (sep other : ℕ) (s : Text) → no_double sep s ≡ true → no_double sep (collapse other s) ≡ true
unfolding collapse
no_double-collapse_other sep other [] h = refl
no_double-collapse_other sep other (c ∷ []) h = refl
no_double-collapse_other sep other (c ∷ d ∷ s) h =
    let rest = &&-true _ (no_double sep (d ∷ s)) h in
    ground (
      arith,
      no_double-collapse_other sep other (d ∷ s) rest.1,
      first-collapse other (d ∷ s),
      rest.0,
    )

no_double-append : (sep : ℕ) (x u : Text) → no_double sep (x ++ u) ≡ true → no_double sep x ≡ true
no_double-append sep [] u h = refl
no_double-append sep (c ∷ []) u h = refl
no_double-append sep (c ∷ d ∷ x) u h =
    let rest = &&-true _ (no_double sep (d ∷ (x ++ u))) h in
    ground (arith, no_double-append sep (d ∷ x) u rest.1, rest.0)

drop_seps-append : (s : Text) → (u : Text) × (s ≡ u ++ drop_seps s)
unfolding drop_seps
drop_seps-append [] = ([], refl)
drop_seps-append (c ∷ s) =
    let (u, e) = drop_seps-append s in
    elim (Bool-cases (is_sep c)) [ inl y ↦ (c ∷ u, rw y (ap (◌∷◌ c) e)) | inr n ↦ ([], rw n) ]

strip_trailing-append : (s : Text) → (u : Text) × (s ≡ strip_trailing s ++ u)
unfolding strip_trailing
strip_trailing-append s =
    let (u, e) = drop_seps-append (reverse s) in
    (reverse u, sym (reverse-reverse s) ∙ ap reverse e ∙ reverse-append u (drop_seps (reverse s)))

no_double-strip_trailing :
    (sep : ℕ) (s : Text) → no_double sep s ≡ true → no_double sep (strip_trailing s) ≡ true
no_double-strip_trailing sep s h =
    let (u, e) = strip_trailing-append s in no_double-append sep (strip_trailing s) u (rw e at h)

abbrev pub is_some_sep : Option ℕ → Bool
is_some_sep none = false
is_some_sep (some c) = is_sep c

first-drop_seps : (s : Text) → is_some_sep (first (drop_seps s)) ≡ false
unfolding drop_seps
first-drop_seps [] = refl
first-drop_seps (c ∷ s) = ground (arith, first-drop_seps s)

abbrev pub last_is_sep : Text → Bool
last_is_sep s = is_some_sep (first (reverse s))

last_is_sep-strip_trailing : (s : Text) → last_is_sep (strip_trailing s) ≡ false
unfolding strip_trailing
last_is_sep-strip_trailing s =
    ap (λ t. is_some_sep (first t)) (reverse-reverse (drop_seps (reverse s)))
    ∙ first-drop_seps (reverse s)

drive_or_short :
    (body : Text)
    → not (is_drive body) && ltb 1 (length body) ≡ false
    → (is_drive body ≡ true) ⊎ (length body ≤ 1)
drive_or_short body n = ground arith

-- Behind its lead a normalized path has no doubled separator of either kind, and it ends with a
-- separator only if it is a drive root or a single code unit.
pub tidy_body_tidy :
    (raw : Text)
    → let b = tidy_body raw in
      (no_double slash b ≡ true)
      × (no_double backslash b ≡ true)
      × (last_is_sep b ≡ true → (is_drive b ≡ true) ⊎ (length b ≤ 1))
tidy_body_tidy raw =
    let body = collapse backslash (collapse slash raw) in
    let one =
      no_double-collapse_other slash backslash (collapse slash raw)
        (no_double-collapse slash raw) in
    let two = no_double-collapse backslash (collapse slash raw) in
    elim (Bool-cases (not (is_drive body) && ltb 1 (length body))) [
      | inl y ↦
          unfold tidy_body in
          rw y (
            no_double-strip_trailing slash body one,
            no_double-strip_trailing backslash body two,
            λ h. cc (last_is_sep-strip_trailing body, h),
          )
      | inr n ↦ unfold tidy_body in rw n (one, two, λ h. drive_or_short body n)
    ]
