-- ===== src/Tests/Export.antt =====
-- The export of a selection, and the images that are served.
use deedlit_dev.Base.{
  ℕ, ◌+◌, ◌≤◌, ◌≡◌, refl, ◌⊎◌, true, Option, none, some, List, [], ◌∷◌, map, if◌then◌else◌, length,
  take, Text, Bytes, codes, text_eq,
}
use mathlib.Core.List.{Perm}
use deedlit_dev.Base.Outcome.{Outcome, returned}
use deedlit_dev.Json.{str, Fields, end, field, own}
use deedlit_dev.Export.{csv_text, keys, cells_of, cell_text, string_of}
use deedlit_dev.Export.Reader.{read_csv}
use deedlit_dev.Export.RoundTrip.{read_csv-csv_text}
use deedlit_dev.Export.Pool.{
  Fetched, image, gateway_error, Pool, start, start_lanes, answer, Run, stay, step, answered,
  in_flight,
}
use deedlit_dev.Export.Lanes.{images_of, errors_of}
use deedlit_dev.Export.Run.{Run-exports, Run-bounded}
use deedlit_dev.ImageCache.{Redis}
use deedlit_dev.ImageCache.Serve.{Upstream, Sharp, Env}

abbrev row : Fields
row = field (codes "id") (str (codes "a,b")) (field (codes "note") (str (codes "say \"x\"")) end)

read_csv-csv_text_example :
    read_csv (csv_text (row ∷ [])) ≡ some (keys row ∷ map (cells_of (keys row)) (row ∷ []))
read_csv-csv_text_example = read_csv-csv_text row [] (unfold keys in (refl, (refl, tt))) (
    unfold keys cell_text string_of own text_eq in
    (((λ h. cc), (refl, (refl, tt))), (((λ h. cc), (refl, (refl, tt))), tt)))

abbrev found : Text → Fetched ℕ
found id = if text_eq id (codes "a") then image 1 else gateway_error 404 (codes "gone")

abbrev asked : List Text
asked = codes "a" ∷ codes "b" ∷ []

-- The second lane is answered first.
abbrev after_one : Pool ℕ
after_one = answer found (some (codes "a") ∷ []) (codes "b") [] (start found asked)

abbrev after_both : Pool ℕ
after_both = answer found [] (codes "a") (none ∷ []) after_one

one_answer : Run found 1 (start found asked) after_one
unfolding start start_lanes
one_answer = step (some (codes "a") ∷ []) (codes "b") [] refl stay

both_answers : Run found 2 (start found asked) after_both
unfolding start start_lanes answer
both_answers =
    step (some (codes "a") ∷ []) (codes "b") [] refl (step [] (codes "a") (none ∷ []) refl stay)

all_answered : in_flight after_both.lanes ≡ []
unfolding start start_lanes answer in_flight
all_answered = refl

Run-exports_example :
    Perm (answered both_answers) asked
    × (after_both.images ≡ images_of found (answered both_answers))
    × (after_both.errors ≡ errors_of found (answered both_answers))
    × (2 ≡ length asked)
    × (length after_both.images + length after_both.errors ≡ length asked)
Run-exports_example = Run-exports found asked 2 after_both both_answers all_answered

Run-bounded_example :
    (1 ≤ length asked)
    × ((in_flight after_one.lanes ≡ []) ⊎ ((q : Pool ℕ) × Run found 1 after_one q))
Run-bounded_example = Run-bounded found asked 1 after_one one_answer

-- A cache that holds the pair that was written last, under any keys.
abbrev last_pair : Redis (Option (Bytes × Text))
last_pair = record {
  get_both =
      λ k l w. returned (elim w [ none ↦ some (none, none) | some (b, c) ↦ some (some b, some c) ]);
  set_both = λ t k b l c w. some (b, c);
}

abbrev sharp : Sharp
sharp = record { metadata = λ b. returned (some 900, some 700); small = λ b. returned (take 1 b) }

abbrev picture : Outcome Upstream
picture = returned (record {
  ok = true;
  has_body = true;
  status = 200;
  content_type = some (codes "image/png");
  body = returned (7 ∷ 8 ∷ []);
})

abbrev env : Env (Option (Bytes × Text))
env = record {
  redis = some last_pair;
  base = codes "http://c";
  encode = λ t. t;
  fetch = λ url. picture;
  sharp = sharp;
}
