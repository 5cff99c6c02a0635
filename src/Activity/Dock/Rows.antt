-- ===== src/Activity/Dock/Rows.antt =====
-- The rows of the dock: how many, and their ids.
use deedlit_dev.Base.{
  ℕ, zero, suc, ◌≤◌, ◌≡◌, refl, ap, ◌∙◌, inl, inr, Bool, false, List, [], ◌∷◌, map, arith,
  Bool-cases, length, take, filter, All, length-take, length-filter-le, length-map, Text, codes,
  text_eq, text_eq_iff, has, IsDistinct, append_cancel,
}
use deedlit_dev.Base.Decimal.{show, show-injective}
use deedlit_dev.Activity.{Number, Activity, JobSnapshot, apply_jobs_to_activities, job_of}
use deedlit_dev.Activity.Laws.{apply_job_to_activity-Keeps}
use deedlit_dev.Activity.Polls.{polled, apply_jobs_to_activities-map}
use deedlit_dev.Activity.Dock.{max_rows, act_id, push, PatchFields, patch}

abbrev pub ids : List Activity → List Text
ids rows = map (λ a. a.id) rows

-- An id that the counter has given.
abbrev pub Issued : ℕ → Text → Type 0
Issued n id = (k : ℕ) × (k ≤ n) × (id ≡ act_id k)

act_id-injective : (m n : ℕ) → act_id m ≡ act_id n → m ≡ n
unfolding act_id
act_id-injective m n e = show-injective m n (append_cancel (codes "act-") (show m) (show n) e)

pub record IsRows (n : ℕ) (rows : List Activity) : Type 0 where
  pub few : length rows ≤ max_rows
  pub distinct : IsDistinct (ids rows)
  pub issued : All (Issued n) (ids rows)

Issued-suc : (n : ℕ) (xs : List Text) → All (Issued n) xs → All (Issued (suc n)) xs
Issued-suc n [] h = tt
Issued-suc n (x ∷ xs) ((k, le, e), h) = ((k, omega arith, e), Issued-suc n xs h)

-- The next id is not among the given ones.
pub act_id_fresh : (n : ℕ) (id : Text) → Issued n id → text_eq (act_id (suc n)) id ≡ false
act_id_fresh n id (k, le, e) = elim (Bool-cases (text_eq (act_id (suc n)) id)) [
  | inr f ↦ f
  | inl y ↦
      let same : suc n ≡ k =
        act_id-injective (suc n) k ((text_eq_iff (act_id (suc n)) id).0 y ∙ e) in
      absurd (omega arith)
]

pub has-fresh : (n : ℕ) (xs : List Text) → All (Issued n) xs → has (act_id (suc n)) xs ≡ false
unfolding has
has-fresh n [] h = refl
has-fresh n (x ∷ xs) (i, h) = rw (act_id_fresh n x i) (has-fresh n xs h)

module _ (P : Text → Type 0) where
  All-take : (n : ℕ) (rows : List Activity) → All P (ids rows) → All P (ids (take n rows))
  All-take zero rows h = tt
  All-take (suc n) [] h = tt
  All-take (suc n) (a ∷ rows) (p, h) = (p, All-take n rows h)

  All-filter :
      (q : Activity → Bool) (rows : List Activity) → All P (ids rows) → All P (ids (filter q rows))
  All-filter q [] h = tt
  All-filter q (a ∷ rows) (p, h) = elim (Bool-cases (q a)) [
    | inl e ↦ rw e (p, All-filter q rows h)
    | inr e ↦ rw e (All-filter q rows h)
  ]

pub has-take :
    (x : Text) (n : ℕ) (rows : List Activity)
    → has x (ids rows) ≡ false
    → has x (ids (take n rows)) ≡ false
unfolding has
has-take x zero rows h = refl
has-take x (suc n) [] h = refl
has-take x (suc n) (a ∷ rows) h = ground (arith, has-take x n rows)

pub has-filter :
    (x : Text) (q : Activity → Bool) (rows : List Activity)
    → has x (ids rows) ≡ false
    → has x (ids (filter q rows)) ≡ false
unfolding has
has-filter x q [] h = refl
has-filter x q (a ∷ rows) h = ground (arith, has-filter x q rows)

IsDistinct-take :
    (n : ℕ) (rows : List Activity) → IsDistinct (ids rows) → IsDistinct (ids (take n rows))
IsDistinct-take zero rows h = tt
IsDistinct-take (suc n) [] h = tt
IsDistinct-take (suc n) (a ∷ rows) (f, h) = (has-take a.id n rows f, IsDistinct-take n rows h)

IsDistinct-filter :
    (q : Activity → Bool) (rows : List Activity)
    → IsDistinct (ids rows)
    → IsDistinct (ids (filter q rows))
IsDistinct-filter q [] h = tt
IsDistinct-filter q (a ∷ rows) (f, h) = elim (Bool-cases (q a)) [
  | inl e ↦ rw e (has-filter a.id q rows f, IsDistinct-filter q rows h)
  | inr e ↦ rw e (IsDistinct-filter q rows h)
]

pub filter-IsRows :
    (n : ℕ) (q : Activity → Bool) (rows : List Activity) → IsRows n rows → IsRows n (filter q rows)
filter-IsRows n q rows v = record {
  few = omega (arith, v.few, length-filter-le q rows);
  distinct = IsDistinct-filter q rows v.distinct;
  issued = All-filter (Issued n) q rows v.issued;
}

pub push-IsRows :
    (n : ℕ) (a : Activity) (rows : List Activity)
    → a.id ≡ act_id (suc n)
    → IsRows n rows
    → IsRows (suc n) (push a rows)
push-IsRows n a rows e v =
    let first : Issued (suc n) a.id = (suc n, omega arith, e) in
    let fresh : has a.id (ids rows) ≡ false = rw e (has-fresh n (ids rows) v.issued) in
    unfold push in
    record {
      few = omega (arith, length-take max_rows (a ∷ rows));
      distinct = IsDistinct-take max_rows (a ∷ rows) (fresh, v.distinct);
      issued =
          All-take (Issued (suc n)) max_rows (a ∷ rows) (first, Issued-suc n (ids rows) v.issued);
    }

-- A change of rows that keeps the ids.
pub same_ids-IsRows :
    (n : ℕ) (rows next : List Activity) → ids next ≡ ids rows → IsRows n rows → IsRows n next
same_ids-IsRows n rows next e v = record {
  few = omega (
    arith,
    v.few,
    ap (λ xs. length xs) e,
    length-map (λ (a : Activity). a.id) rows,
    length-map (λ (a : Activity). a.id) next,
  );
  distinct = rw e v.distinct;
  issued = rw e v.issued;
}

pub ids-patch :
    (id : Text) (fields : PatchFields) (rows : List Activity)
    → ids (patch id fields rows) ≡ ids rows
unfolding patch
ids-patch id fields [] = refl
ids-patch id fields (a ∷ rows) = ground (arith, ids-patch id fields rows)

ids-polled :
    (jobs : List JobSnapshot) (now : Number) (rows : List Activity)
    → ids (map (polled jobs now) rows) ≡ ids rows
ids-polled jobs now [] = refl
ids-polled jobs now (a ∷ rows) =
    rw ((apply_job_to_activity-Keeps a (job_of a jobs) now).0.id)
      (ap (◌∷◌ a.id) (ids-polled jobs now rows))

pub ids-apply_jobs_to_activities :
    (rows : List Activity) (jobs : List JobSnapshot) (now : Number)
    → ids (apply_jobs_to_activities rows jobs now).0 ≡ ids rows
ids-apply_jobs_to_activities rows jobs now =
    rw (apply_jobs_to_activities-map rows jobs now) (ids-polled jobs now rows)
