-- ===== src/Insights/Parameters.antt =====
-- `parseAutomatic1111Parameters` of lib/metadata-parsing.ts. A regular expression is the function
-- that tries its ways to match in order.
use deedlit_dev.Base.{
  ℕ, Bool, not, ◌||◌, Option, none, some, List, [], ◌∷◌, map, ◌==◌, if◌then◌else◌, or_option,
  length, drop, any, Text, codes, is_space, trim, lower_unit, starts_with,
}
use deedlit_dev.Insights.{non_empty}
use deedlit_dev.Insights.Graph.{Insights, no_insights}

-- `s.indexOf(p)`: what stands before the first match, and behind it.
unfoldable pub cut_at : Text → Text → Option (Text × Text)
cut_at p [] = if starts_with p [] then some ([], drop (length p) []) else none
cut_at p (c ∷ s) = elim (cut_at p s) [
  | none ↦ if starts_with p (c ∷ s) then some ([], drop (length p) (c ∷ s)) else none
  | some (before, behind) ↦
      if starts_with p (c ∷ s)
      then some ([], drop (length p) (c ∷ s))
      else some (c ∷ before, behind)
]

-- Whether the text starts with the label, in any case of ASCII letters.
unfoldable pub starts_with_label : Text → Text → Bool
unfolding starts_with lower_unit
starts_with_label label s = starts_with (map lower_unit label) (map lower_unit s)

-- `[^,\n]`.
abbrev pub is_value_unit : ℕ → Bool
is_value_unit c = not (c == b',' || c == 10)

unfoldable pub value_run : Text → Text
value_run [] = []
value_run (c ∷ s) = if is_value_unit c then c ∷ value_run s else []

-- `\s*([^,\n]+)` at the start of a text: as much white space as leaves something to capture.
unfoldable pub capture_here : Text → Option Text
unfolding value_run is_space
capture_here [] = none
capture_here (c ∷ s) =
    or_option (if is_space c then capture_here s else none)
      (if is_value_unit c then some (value_run (c ∷ s)) else none)

unfoldable pub capture_at : Text → Text → Option Text
unfolding starts_with_label capture_here
capture_at label s =
    if starts_with_label label s then capture_here (drop (length label) s) else none

-- The first place where the label and the capture match.
unfoldable pub first_capture : Text → Text → Option Text
unfolding capture_at
first_capture label [] = capture_at label []
first_capture label (c ∷ s) = or_option (capture_at label (c ∷ s)) (first_capture label s)

unfoldable pub capture : Text → Text → Option Text
unfolding first_capture trim
capture label text = elim (first_capture label text) [ none ↦ none | some v ↦ some (trim v) ]

abbrev pub setting_labels : List Text
setting_labels =
    codes "\nSteps:"
    ∷ codes "\nSampler:"
    ∷ codes "\nCFG scale:"
    ∷ codes "\nSeed:"
    ∷ codes "\nSize:"
    ∷ codes "\nModel:"
    ∷ []

-- The text before the first line that starts with a setting.
unfoldable pub before_settings : Text → Text
unfolding starts_with_label
before_settings [] = []
before_settings (c ∷ s) =
    let rest = before_settings s in
    if any (λ label. starts_with_label label (c ∷ s)) setting_labels then [] else c ∷ rest

unfoldable pub first_line : Text → Text
first_line [] = []
first_line (c ∷ s) = if c == 10 then [] else c ∷ first_line s

-- The prompts.
unfoldable pub prompts_of : Text → Bool → Option Text × Option Text
unfolding cut_at before_settings first_line trim
prompts_of text include_first_line = elim (cut_at (codes "Negative prompt:") text) [
  | some (before, behind) ↦ (non_empty (trim before), non_empty (trim (before_settings behind)))
  | none ↦ ((if include_first_line then non_empty (trim (first_line text)) else none), none)
]

unfoldable pub parse_automatic1111_parameters : Text → Bool → Insights
unfolding prompts_of capture trim
parse_automatic1111_parameters parameters include_first_line = elim (trim parameters) [
  | [] ↦ no_insights
  | c ∷ rest ↦
      let text = c ∷ rest in
      let prompts = prompts_of text include_first_line in
      record no_insights {
        positive_prompt = prompts.0;
        negative_prompt = prompts.1;
        steps = capture (codes "Steps:") text;
        sampler = capture (codes "Sampler:") text;
        cfg_scale = capture (codes "CFG scale:") text;
        seed = capture (codes "Seed:") text;
        size = capture (codes "Size:") text;
        model = capture (codes "Model:") text;
      }
]
