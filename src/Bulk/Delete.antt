-- ===== src/Bulk/Delete.antt =====
-- lib/library/bulk-delete.ts. What `fetch` gives is a parameter.
use deedlit_dev.Base.{
  ℕ, ◌≡◌, refl, ap, ◌∙◌, Bool, true, false, not, ◌&&◌, ◌||◌, Option, none, some, List, [], ◌∷◌,
  ◌++◌, map, arith, filter, Text, codes, text_eq, text_eq_iff, has,
}

pub record Failure : Type 0 where
  pub id : Text
  pub error : Text

pub record BulkDeleteOutcome : Type 0 where
  pub deleted : List Text
  pub failed : List Failure

-- A response that is not `ok`, with the `error` of its body; one that is, with the lists of its
-- body; or an error thrown on the way, with its message where it is an `Error`.
pub data Reply : Type 0 where
  refused : ℕ → Option Text → Reply
  answered : Option (List Text) → Option (List Text) → Reply
  broke : Option Text → Reply

-- `print` is how a number is printed.
unfoldable pub http_error : (ℕ → Text) → ℕ → Option Text → Text
http_error print status none = codes "HTTP " ++ print status
http_error print status (some e) = e

unfoldable pub thrown_error : Option Text → Text
thrown_error none = codes "Request failed"
thrown_error (some e) = e

unfoldable pub list_or_empty : Option (List Text) → List Text
list_or_empty none = []
list_or_empty (some xs) = xs

abbrev pub blame : Text → Text → Failure
blame error id = record { id = id; error = error }

unfoldable pub fail_all : List Text → Text → BulkDeleteOutcome
fail_all ids error = record { deleted = []; failed = map (blame error) ids }

unfoldable pub split_reply : (ℕ → Text) → List Text → Reply → BulkDeleteOutcome
unfolding fail_all
split_reply print ids (refused status e) = fail_all ids (http_error print status e)
split_reply print ids (broke e) = fail_all ids (thrown_error e)
split_reply print ids (answered deleted missing) =
    let gone = list_or_empty deleted ++ list_or_empty missing in
    record {
      deleted = gone;
      failed = map (blame (codes "not deleted")) (filter (λ id. not (has id gone)) ids);
    }

-- Without ids nothing is requested.
unfoldable pub delete_images : (ℕ → Text) → List Text → Reply → BulkDeleteOutcome
delete_images print [] reply = record { deleted = []; failed = [] }
delete_images print (id ∷ ids) reply = split_reply print (id ∷ ids) reply

abbrev pub failed_ids : BulkDeleteOutcome → List Text
failed_ids o = map (λ f. f.id) o.failed

has-blamed :
    (a error : Text) (ids : List Text) → has a (map (λ f. f.id) (map (blame error) ids)) ≡ has a ids
unfolding has
has-blamed a error [] = refl
has-blamed a error (id ∷ ids) = ap (λ b. text_eq a id || b) (has-blamed a error ids)

has-left :
    (a : Text) (gone ids : List Text)
    → has a (filter (λ id. not (has id gone)) ids) ≡ (has a ids && not (has a gone))
unfolding has
has-left a gone [] = refl
has-left a gone (id ∷ ids) = ground (arith, has-left a gone ids, text_eq_iff a id)

and_true : (b : Bool) → b ≡ (b && true)
and_true true = refl
and_true false = refl

split_reply_partitions :
    (print : ℕ → Text) (ids : List Text) (reply : Reply) (id : Text)
    → let o = split_reply print ids reply in
      has id (failed_ids o) ≡ (has id ids && not (has id o.deleted))
unfolding split_reply fail_all has
split_reply_partitions print ids (refused status e) id =
    has-blamed id (http_error print status e) ids ∙ and_true (has id ids)
split_reply_partitions print ids (broke e) id =
    has-blamed id (thrown_error e) ids ∙ and_true (has id ids)
split_reply_partitions print ids (answered deleted missing) id =
    let gone = list_or_empty deleted ++ list_or_empty missing in
    has-blamed id (codes "not deleted") (filter (λ i. not (has i gone)) ids) ∙ has-left id gone ids

-- Whatever the reply, an id is reported as failed exactly when it was asked for and is not reported
-- as deleted; so every id that was asked for is on exactly one of the lists.
pub delete_images_partitions :
    (print : ℕ → Text) (ids : List Text) (reply : Reply) (id : Text)
    → let o = delete_images print ids reply in
      has id (failed_ids o) ≡ (has id ids && not (has id o.deleted))
unfolding delete_images has
delete_images_partitions print [] reply id = refl
delete_images_partitions print (i ∷ is) reply id = split_reply_partitions print (i ∷ is) reply id
