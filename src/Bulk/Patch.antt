-- ===== src/Bulk/Patch.antt =====
-- lib/library/bulk-patch.ts: the workers that drain one queue. A worker that is not done awaits one
-- patch; what `fetch` gives for it is a parameter, and the event loop may settle any of them next.
pub mod Counts
pub mod Laws
use deedlit_dev.Base.{
  ℕ, zero, suc, ◌+◌, ◌-◌, ◌*◌, ◌/◌, ◌%◌, ◌≤◌, ◌<◌, ◌≡◌, refl, sym, ap, ◌∙◌, subst, ◌≢◌, ◌↔◌, ◌⊎◌,
  inl, inr, Bool, true, false, not, ◌&&◌, ◌||◌, Option, none, some, List, [], ◌∷◌, ◌++◌, map,
  reverse, append_assoc, append-nil, arith, ltb, leb, ◌==◌, if◌then◌else◌, Bool-cases, Option-cases,
  or_else, or_option, &&-true, ||-true, length, take, drop, get_elem?, slice, filter, any, all,
  find, concat, replicate, All, length-append, length-drop, length-take, take-append-drop, drop-nil,
  drop-drop, get_elem?-drop, take-append, drop-append, filter-append, length-filter-le, filter_idem,
  concat-append, length-map, take-drop-take, take-append-le, drop-append-le, Text, Bytes, codes,
  text_eq, text_eq_iff, text_eq_refl, has, is_space, trim_start, trim, lower_unit, to_lower,
  starts_with, ends_with, includes, split_at, join, In, has_iff, cut_last_dot, extname, IsDistinct,
  append_cancel,
}
use Prim.Native.Nat.{min, max}
use mathlib.Core.List.{map-append}
use deedlit_dev.Bulk.Delete.{Failure, http_error, thrown_error}

pub record Patch : Type 0 where
  pub id : Text
  pub body : Text

pub data Reply : Type 0 where
  accepted : Reply
  refused : ℕ → Option Text → Reply
  broke : Option Text → Reply

pub record BulkPatchOutcome : Type 0 where
  pub updated : List Text
  pub failed : List Failure

pub record State : Type 0 where
  pub queue : List Patch
  pub busy : List Patch
  pub outcome : BulkPatchOutcome

abbrev pub default_concurrency : ℕ
default_concurrency = 4

-- `Math.min(Math.max(1, opts.concurrency ?? 4), patches.length || 1)`.
unfoldable pub lanes : Option ℕ → ℕ → ℕ
lanes concurrency size =
    min (max 1 (elim concurrency [ none ↦ default_concurrency | some n ↦ n ]))
      (if size == 0 then 1 else size)

unfoldable pub record_reply : (ℕ → Text) → Text → Reply → BulkPatchOutcome → BulkPatchOutcome
unfolding http_error thrown_error
record_reply print id accepted o = record o { updated = o.updated ++ id ∷ [] }
record_reply print id (refused status e) o = record o {
  failed = o.failed ++ record { id = id; error = http_error print status e } ∷ [];
}
record_reply print id (broke e) o = record o {
  failed = o.failed ++ record { id = id; error = thrown_error e } ∷ [];
}

-- Each worker runs up to its first `await`.
unfoldable pub start : Option ℕ → List Patch → State
start concurrency patches =
    let n = lanes concurrency (length patches) in
    record {
      queue = drop n patches;
      busy = take n patches;
      outcome = record { updated = []; failed = [] };
    }

-- The `i`th busy worker hears of its patch `p`, and takes the next of the queue.
unfoldable pub settle : (ℕ → Text) → ℕ → Patch → Reply → State → State
settle print i p reply s = record {
  queue = drop 1 s.queue;
  busy = take i s.busy ++ (take 1 s.queue ++ drop (i + 1) s.busy);
  outcome = record_reply print p.id reply s.outcome;
}

-- After some number of replies.
pub data Reach (print : ℕ → Text) (s : State) : ℕ → State → Type 0 where
  here : Reach print s 0 s
  next :
      {n : ℕ} {t : State} (i : ℕ) (p : Patch) (reply : Reply)
      → Reach print s n t
      → get_elem? t.busy i ≡ some p
      → Reach print s (suc n) (settle print i p reply t)

abbrev pub count : Text → List Text → ℕ
count a xs = length (filter (text_eq a) xs)

abbrev pub ids : List Patch → List Text
ids = map (λ p. p.id)

abbrev pub reported : BulkPatchOutcome → List Text
reported o = o.updated ++ map (λ f. f.id) o.failed
