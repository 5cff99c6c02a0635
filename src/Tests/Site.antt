-- ===== src/Tests/Site.antt =====
-- The image index, its cache and the route on a small directory.
use deedlit_dev.Base.{
  ℕ, ◌≡◌, refl, ◌≢◌, true, false, none, some, List, [], ◌∷◌, ◌++◌, map, arith, ltb, length,
  get_elem?, filter, Text, codes, text_eq, has, lower_unit, starts_with, cut_last_dot, extname,
  IsDistinct,
}
use deedlit_dev.Base.Decimal.{show}
use deedlit_dev.Base.Outcome.{returned}
use deedlit_dev.Png.Reader.{read_embedded_metadata_from_png}
use deedlit_dev.Png.Strip.{strip_png_metadata, strip_loop}
use deedlit_dev.Png.Format.{read_uint32_be, uint32_be}
use deedlit_dev.Png.Stream.{raw_chunks}
use deedlit_dev.Png.Clean.{has_plain_types}
use deedlit_dev.Gallery.Sort.{sort}
use deedlit_dev.Gallery.Ids.{
  IndexedImage, DirEntry, Node, scan_after, is_indexed, get_created_at_ms, scan_image_dir,
  find_image, assign_ids, fresh_id, fresh_loop,
}
use deedlit_dev.Gallery.Ids.Fresh.{ids, scan_image_dir-IsDistinct}
use deedlit_dev.Gallery.Route.{
  Site, Served, failure, served, get_image, serve, respond, valid_id, is_id_unit, content_type_for,
}
use deedlit_dev.Gallery.Route.Laws.{get_image_clean}
use deedlit_dev.Gallery.Snapshot.{
  State, IndexedSnapshot, initial, get_snapshot, cached, awaits, scan_done, runs, asked, turn,
  Reach, Quiet, ensure_watcher, await_or_answer, answer_from, start_scan,
}
use deedlit_dev.Gallery.Snapshot.Laws.{get_snapshot-awaits}
use deedlit_dev.Tests.Png.{runtime, png_image}

-- A hash that always collides, and names compared by their length.
abbrev node : Node
node = record {
  base_id = λ name. codes "ab";
  name_after = λ a b. ltb (length b) (length a);
  iso_string = show;
}

abbrev file : Text → ℕ → DirEntry
file name time = record { name = name; is_file = true; birthtime_ms = none; mtime_ms = time }

abbrev entries : List DirEntry
entries =
    file (codes "a.png") 5
    ∷ file (codes "icon.svg") 6
    ∷ file (codes "b.PNG") 7
    ∷ file (codes "c.txt") 8
    ∷ []

abbrev image_of : Text → Text → ℕ → IndexedImage
image_of id filename time = record {
  id = id;
  filename = filename;
  created_at = show time;
  created_at_ms = time;
}

scan_runs :
    scan_image_dir node entries
    ≡ image_of (codes "ab") (codes "b.PNG") 7 ∷ image_of (codes "ab-1") (codes "a.png") 5 ∷ []
unfolding scan_image_dir is_indexed assign_ids fresh_id fresh_loop scan_after get_created_at_ms sort
    has text_eq extname cut_last_dot lower_unit show
scan_runs = refl

scan_image_dir-IsDistinct_example :
    IsDistinct (ids (scan_image_dir node entries))
    × (map (λ i. i.filename) (scan_image_dir node entries)
        ≡ map (λ d. d.name) (sort (scan_after node) (filter is_indexed entries)))
scan_image_dir-IsDistinct_example = scan_image_dir-IsDistinct node entries

second_found :
    get_elem? (scan_image_dir node entries) 1 ≡ some (image_of (codes "ab-1") (codes "a.png") 5)
second_found = rw scan_runs refl

abbrev site : Site
site = record {
  index = image_of (codes "x1") (codes "b.PNG") 7 ∷ [];
  resolve = λ f. codes "/images/" ++ f;
  image_dir = codes "/images";
  read_file = λ f. returned png_image;
}

abbrev stripped : Served
stripped = record {
  content_type = codes "image/png";
  content_disposition = codes "inline; filename=\"image-x1.png\"";
  body = strip_png_metadata png_image;
}

serves : get_image site (codes "GET") (some (codes "x1")) ≡ served stripped
unfolding get_image serve respond valid_id is_id_unit content_type_for find_image has text_eq
    extname cut_last_dot lower_unit starts_with
serves = refl

refuses :
    (get_image site (codes "PUT") (some (codes "x1")) ≡ failure 405 (codes "Method not allowed"))
    × (get_image site (codes "GET") (some (codes "../x")) ≡ failure 400 (codes "Invalid id"))
    × (get_image site (codes "GET") (some (codes "x2")) ≡ failure 404 (codes "Not found"))
unfolding get_image valid_id is_id_unit find_image text_eq
refuses = (refl, refl, refl)

body_plain : has_plain_types stripped.body ≡ true
unfolding raw_chunks read_uint32_be uint32_be text_eq strip_png_metadata strip_loop has
body_plain = refl

get_image_clean_example :
    read_embedded_metadata_from_png runtime (returned (strip_png_metadata png_image))
    ≡ record { metadata = none; error = none }
get_image_clean_example =
    get_image_clean runtime site (codes "GET") (some (codes "x1")) stripped serves refl body_plain

-- The first request starts scan 0; the watcher it started then sets the timer.
abbrev asked_once : State
asked_once = record {
  snapshot = none;
  refreshing = some 0;
  watcher = true;
  refresh_timer = false;
  scans = 0 ∷ [];
  next = 1;
}

abbrev taken : IndexedSnapshot
taken = record { images = site.index; refreshed_at = 50 }

abbrev filled : State
filled = record {
  snapshot = some taken;
  refreshing = none;
  watcher = true;
  refresh_timer = false;
  scans = [];
  next = 1;
}

first_asks : get_snapshot true 20 initial ≡ (asked_once, awaits 0)
unfolding get_snapshot ensure_watcher await_or_answer answer_from start_scan
first_asks = refl

scan_fills : scan_done 0 site.index 50 asked_once ≡ filled
unfolding scan_done
scan_fills = refl

filled_answers : (get_snapshot true 60 filled).1 ≡ cached taken
unfolding get_snapshot ensure_watcher await_or_answer answer_from
filled_answers = refl

Reach-asked : Reach initial (get_snapshot true 20 initial).0
Reach-asked = Reach.next Reach.here (turn (asked true 20))

second_awaits : (get_snapshot true 30 (get_snapshot true 20 initial).0).1 ≡ awaits 0
unfolding get_snapshot ensure_watcher await_or_answer answer_from start_scan
second_awaits = refl

get_snapshot-awaits_example :
    runs 0 (get_snapshot true 30 (get_snapshot true 20 initial).0).0.scans ≡ true
get_snapshot-awaits_example = get_snapshot-awaits true 30 0 Reach-asked second_awaits

Quiet-asked : Quiet initial (get_snapshot true 20 initial).0
Quiet-asked = Quiet.next Quiet.here (asked true 20)

zero_not_one : 0 ≢ asked_once.next
zero_not_one e = omega (arith, e)
