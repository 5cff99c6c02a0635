-- ===== src/Tests/Bulk.antt =====
-- A bulk delete and a bulk patch of three images.
use deedlit_dev.Base.{
  ℕ, ◌+◌, ◌≤◌, ◌<◌, ◌≡◌, refl, true, false, not, ◌&&◌, ◌||◌, none, some, List, [], ◌∷◌, ◌++◌, map,
  ◌==◌, if◌then◌else◌, length, drop, get_elem?, Text, codes, text_eq, has, trim,
}
use deedlit_dev.Base.Decimal.{show}
use deedlit_dev.Gateway
use deedlit_dev.Json.{obj, str, field, end, prop, own, as_string}
use deedlit_dev.Bulk.Move.{
  Files, done, threw, MoveResult, detail_throws, move_all, file_path_of, is_reported,
  move_all-reported,
}
use deedlit_dev.Bulk.Delete.{
  blame, answered, delete_images, split_reply, list_or_empty, failed_ids, delete_images_partitions,
}
use deedlit_dev.Bulk.Patch.{
  Patch, accepted, refused, State, lanes, start, settle, Reach, here, next, count, ids, reported,
}
use deedlit_dev.Bulk.Patch.Laws.{Reach-bounded, Reach-reported}

abbrev asked : List Text
asked = codes "a" ∷ codes "b" ∷ codes "c" ∷ []

delete_runs :
    delete_images show asked (answered (some (codes "a" ∷ [])) (some (codes "c" ∷ []))) ≡ record {
      deleted = codes "a" ∷ codes "c" ∷ [];
      failed = record { id = codes "b"; error = codes "not deleted" } ∷ [];
    }
unfolding delete_images split_reply list_or_empty has text_eq
delete_runs = refl

delete_images_partitions_example :
    let o = delete_images show asked (answered (some (codes "a" ∷ [])) none) in
    has (codes "b") (failed_ids o) ≡ (has (codes "b") asked && not (has (codes "b") o.deleted))
delete_images_partitions_example =
    delete_images_partitions show asked (answered (some (codes "a" ∷ [])) none) (codes "b")

abbrev patches : List Patch
patches = map (λ i. record { id = i; body = [] }) asked

abbrev patch : Text → Patch
patch i = record { id = i; body = [] }

abbrev begun : State
begun = start (some 2) patches

begun_busy : get_elem? begun.busy 1 ≡ some (patch (codes "b"))
unfolding start lanes
begun_busy = refl

abbrev second : State
second = settle show 1 (patch (codes "b")) accepted begun

second_busy : get_elem? second.busy 0 ≡ some (patch (codes "a"))
unfolding start lanes settle
second_busy = refl

abbrev third : State
third = settle show 0 (patch (codes "a")) (refused 500 none) second

third_busy : get_elem? third.busy 0 ≡ some (patch (codes "c"))
unfolding start lanes settle
third_busy = refl

abbrev ended : State
ended = settle show 0 (patch (codes "c")) accepted third

Reach-ended : Reach show begun 3 ended
Reach-ended =
    next 0 (patch (codes "c")) accepted
      (next 0 (patch (codes "a")) (refused 500 none)
        (next 1 (patch (codes "b")) accepted here begun_busy) second_busy)
      third_busy

ended_idle : ended.busy ≡ []
unfolding start lanes settle
ended_idle = refl

Reach-bounded_example :
    (length second.busy ≤ lanes (some 2) 3)
    × (1 + (length second.busy + length second.queue) ≡ 3)
    × (1 < 3 → (p : Patch) × (get_elem? second.busy 0 ≡ some p))
Reach-bounded_example =
    Reach-bounded show (some 2) patches 1 second
      (next 1 (patch (codes "b")) accepted here begun_busy)

Reach-reported_example :
    (3 ≡ length patches)
    × (count (codes "a") (reported ended.outcome) ≡ count (codes "a") (ids patches))
Reach-reported_example =
    Reach-reported show (some 2) patches 3 ended (codes "a") Reach-ended ended_idle

abbrev gateway : Gateway.Runtime
gateway = record {
  base = codes "http://g";
  fetch = λ call. some (record {
    ok = true;
    status = 200;
    json = some (obj (field (codes "filepath") (str call.path) end));
    body_text = none;
  });
  encode = λ t. t;
  stringify = λ j. [];
  not_json = codes "no JSON";
  not_serializable = codes "undefined";
}

-- A file system in which the first file alone can be moved; the state counts the files moved.
abbrev one_move : Files ℕ
one_move = record {
  rename = λ a b w. if w == 0 then (done, 1) else (threw (codes "EXDEV"), w);
  path_join = λ a b. a ++ (b'/' ∷ b);
  basename = λ p. drop 8 p;
  no_value = codes "undefined";
  type_error = λ image. codes "TypeError";
}

abbrev moved_two : MoveResult
moved_two =
    (move_all gateway one_move (codes "/t") (codes "a" ∷ codes "b" ∷ [])
      (record { moved = []; failed = [] }) 0).0

move_runs :
    moved_two ≡ record { moved = codes "a" ∷ []; failed = blame (codes "EXDEV") (codes "b") ∷ [] }
unfolding move_all Gateway.get_image file_path_of detail_throws prop own as_string text_eq trim
move_runs = refl

move_all-reported_example :
    (is_reported (codes "b") moved_two ≡ (false || has (codes "b") (codes "a" ∷ codes "b" ∷ [])))
    × (length moved_two.moved + length moved_two.failed ≡ 0 + 2)
unfolding has
move_all-reported_example =
    move_all-reported gateway one_move (codes "/t") (codes "a" ∷ codes "b" ∷ [])
      (record { moved = []; failed = [] }) 0 (codes "b")
