-- ===== src/Insights/Capture.antt =====
-- What the pattern of a setting captures.
use deedlit_dev.Base.{
  ℕ, ◌≡◌, refl, ap, ◌∙◌, true, false, none, some, [], ◌∷◌, ◌++◌, map, arith, All, drop-append, Text,
  is_space, trim, lower_unit, starts_with,
}
use deedlit_dev.Insights.Parameters.{
  starts_with_label, is_value_unit, value_run, capture_here, capture_at, first_capture, capture,
}

-- The label starts nowhere in the text, also where a match would run on into what stands behind it.
abbrev pub Clear : Text → Text → Text → Type 0
Clear label [] behind = Unit {0}
Clear label (c ∷ s) behind =
    (starts_with_label label (c ∷ (s ++ behind)) ≡ false) × Clear label s behind

-- The end of the text, a comma or a line feed.
abbrev pub Stops : Text → Type 0
Stops [] = Unit {0}
Stops (c ∷ s) = is_value_unit c ≡ false

abbrev pub IsValue : Text → Type 0
IsValue [] = ⊥
IsValue (c ∷ s) = (is_space c ≡ false) × All (λ d. is_value_unit d ≡ true) (c ∷ s)

value_run-append :
    (value rest : Text)
    → All (λ d. is_value_unit d ≡ true) value
    → Stops rest
    → value_run (value ++ rest) ≡ value
unfolding value_run
value_run-append [] [] h st = refl
value_run-append [] (c ∷ rest) h st = rw st refl
value_run-append (c ∷ value) rest (k, h) st = rw k (ap (◌∷◌ c) (value_run-append value rest h st))

capture_here-value :
    (value rest : Text) → IsValue value → Stops rest → capture_here (value ++ rest) ≡ some value
unfolding capture_here
capture_here-value [] rest h st = absurd h
capture_here-value (c ∷ value) rest (n, (k, h)) st =
    unfold value_run in ground (arith, n, k, value_run-append value rest h st)

capture_here-space :
    (c : ℕ) (s v : Text)
    → is_space c ≡ true
    → capture_here s ≡ some v
    → capture_here (c ∷ s) ≡ some v
unfolding capture_here
capture_here-space c s v h e = rw (h, e) refl

starts_with-append : (p s : Text) → starts_with p (p ++ s) ≡ true
unfolding starts_with
starts_with-append [] s = refl
starts_with-append (c ∷ p) s = ground (arith, starts_with-append p s)

map-append : (p s : Text) → map lower_unit (p ++ s) ≡ map lower_unit p ++ map lower_unit s
map-append [] s = refl
map-append (c ∷ p) s = ap (◌∷◌ (lower_unit c)) (map-append p s)

capture_at-label :
    (label s v : Text) → capture_here s ≡ some v → capture_at label (label ++ s) ≡ some v
unfolding capture_at starts_with_label
capture_at-label label s v e =
    let t : starts_with (map lower_unit label) (map lower_unit (label ++ s)) ≡ true =
      ap (starts_with (map lower_unit label)) (map-append label s)
      ∙ starts_with-append (map lower_unit label) (map lower_unit s) in
    rw t (rw (drop-append label s) e)

first_capture-here :
    (label s v : Text) → capture_at label s ≡ some v → first_capture label s ≡ some v
unfolding first_capture
first_capture-here label [] v e = e
first_capture-here label (c ∷ s) v e = rw e refl

first_capture-Clear :
    (label before behind v : Text)
    → Clear label before behind
    → first_capture label behind ≡ some v
    → first_capture label (before ++ behind) ≡ some v
unfolding first_capture capture_at
first_capture-Clear label [] behind v h e = e
first_capture-Clear label (c ∷ before) behind v (n, h) e =
    rw n (first_capture-Clear label before behind v h e)

-- A setting is read back, whatever stands before and behind it: where its label starts nowhere
-- earlier in the text, the capture is the value between the label and the next comma or line end.
pub capture_lem :
    (label before value rest : Text)
    → Clear label before (label ++ (b' ' ∷ (value ++ rest)))
    → IsValue value
    → Stops rest
    → capture label (before ++ (label ++ (b' ' ∷ (value ++ rest)))) ≡ some (trim value)
capture_lem label before value rest clear v st =
    let found : first_capture label (before ++ (label ++ (b' ' ∷ (value ++ rest)))) ≡ some value =
      first_capture-Clear label before (label ++ (b' ' ∷ (value ++ rest))) value clear (
        first_capture-here label (label ++ (b' ' ∷ (value ++ rest))) value (
          capture_at-label label (b' ' ∷ (value ++ rest)) value (
            capture_here-space b' ' (value ++ rest) value (unfold is_space in refl)
              (capture_here-value value rest v st)))) in
    unfold capture in ap (λ r. elim r [ none ↦ none | some v ↦ some (trim v) ]) found
