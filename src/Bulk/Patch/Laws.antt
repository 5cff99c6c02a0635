-- ===== src/Bulk/Patch/Laws.antt =====
-- What a bulk patch reports, and how many patches it awaits at a time.
use deedlit_dev.Base.{
  ℕ, zero, suc, ◌+◌, ◌-◌, ◌≤◌, ◌<◌, ◌≡◌, refl, ap, Option, none, some, List, [], ◌∷◌, ◌++◌, arith,
  length, take, drop, get_elem?, length-append, length-drop, length-take, Text,
}
use deedlit_dev.Bulk.Patch.{
  Patch, Reply, State, lanes, start, settle, Reach, here, next, count, ids, reported,
}
use Prim.Native.Nat.{min}
use deedlit_dev.Bulk.Patch.Counts.{start-total, Reach-total}

get_elem?-lt : (xs : List Patch) (i : ℕ) (p : Patch) → get_elem? xs i ≡ some p → i < length xs
get_elem?-lt [] i p h = cc
get_elem?-lt (x ∷ xs) zero p h = omega arith
get_elem?-lt (x ∷ xs) (suc i) p h = omega (arith, get_elem?-lt xs i p h)

-- What the sizes of a state are after `done` replies to `size` patches on `n` lanes.
pub record Sizes (n size done : ℕ) (s : State) : Type 0 where
  pub full : length s.busy ≡ min n (length s.busy + length s.queue)
  pub left : done + (length s.busy + length s.queue) ≡ size

start-Sizes :
    (concurrency : Option ℕ) (patches : List Patch)
    → Sizes (lanes concurrency (length patches)) (length patches) 0 (start concurrency patches)
unfolding start
start-Sizes concurrency patches =
    let n = lanes concurrency (length patches) in
    record {
      full = omega (arith, length-take n patches, length-drop n patches);
      left = omega (arith, length-take n patches, length-drop n patches);
    }

settle-Sizes :
    (print : ℕ → Text) (n size done i : ℕ) (p : Patch) (reply : Reply) (s : State)
    → get_elem? s.busy i ≡ some p
    → 1 ≤ n
    → Sizes n size done s
    → Sizes n size (suc done) (settle print i p reply s)
unfolding settle
settle-Sizes print n size done i p reply s h one v =
    let below = get_elem?-lt s.busy i p h in
    let parts : length (take i s.busy ++ (take 1 s.queue ++ drop (i + 1) s.busy))
        ≡ i + (min 1 (length s.queue) + (length s.busy - (i + 1))) =
      omega (
        arith,
        length-append (take i s.busy) (take 1 s.queue ++ drop (i + 1) s.busy),
        length-append (take 1 s.queue) (drop (i + 1) s.busy),
        length-take i s.busy,
        length-take 1 s.queue,
        length-drop (i + 1) s.busy,
        below,
      ) in
    record {
      full = omega (arith, parts, length-drop 1 s.queue, v.full, below, one);
      left = omega (arith, parts, length-drop 1 s.queue, v.left, below);
    }

lanes_positive : (concurrency : Option ℕ) (size : ℕ) → 1 ≤ lanes concurrency size
unfolding lanes
lanes_positive none size = ground arith
lanes_positive (some n) size = ground arith

Reach-Sizes :
    (print : ℕ → Text) (concurrency : Option ℕ) (patches : List Patch) {n : ℕ} {t : State}
    → Reach print (start concurrency patches) n t
    → Sizes (lanes concurrency (length patches)) (length patches) n t
Reach-Sizes print concurrency patches here = start-Sizes concurrency patches
Reach-Sizes print concurrency patches (next {n} {t} i p reply r h) =
    settle-Sizes print (lanes concurrency (length patches)) (length patches) n i p reply t h
      (lanes_positive concurrency (length patches)) (Reach-Sizes print concurrency patches r)

first_busy : (busy : List Patch) → 0 < length busy → (p : Patch) × (get_elem? busy 0 ≡ some p)
first_busy [] h = absurd (omega (arith, h))
first_busy (p ∷ busy) h = (p, refl)

empty : (q : List Patch) → length q ≡ 0 → q ≡ []
empty [] h = refl
empty (p ∷ q) h = absurd (omega (arith, h))

-- In whatever order the replies come: at most the clamped concurrency of patches is awaited at any
-- time, each reply settles one more patch, and before as many replies as patches one is awaited.
pub Reach-bounded :
    (print : ℕ → Text) (concurrency : Option ℕ) (patches : List Patch) (n : ℕ) (t : State)
    → Reach print (start concurrency patches) n t
    → (length t.busy ≤ lanes concurrency (length patches))
      × (n + (length t.busy + length t.queue) ≡ length patches)
      × (n < length patches → (p : Patch) × (get_elem? t.busy 0 ≡ some p))
Reach-bounded print concurrency patches n t r =
    let v = Reach-Sizes print concurrency patches r in
    let one = lanes_positive concurrency (length patches) in
    (
      omega (arith, v.full),
      v.left,
      λ more. first_busy t.busy (omega (arith, v.full, v.left, one, more)),
    )

-- In whatever order the replies come: once no worker awaits a patch, as many replies came as there
-- are patches, and each id is reported, as updated or as failed, as often as it is on the list.
pub Reach-reported :
    (print : ℕ → Text) (concurrency : Option ℕ) (patches : List Patch) (n : ℕ) (t : State)
    (a : Text)
    → Reach print (start concurrency patches) n t
    → t.busy ≡ []
    → (n ≡ length patches) × (count a (reported t.outcome) ≡ count a (ids patches))
Reach-reported print concurrency patches n t a r idle =
    let v = Reach-Sizes print concurrency patches r in
    let one = lanes_positive concurrency (length patches) in
    let none_busy : length t.busy ≡ 0 = ap length idle in
    let none_left : length t.queue ≡ 0 = omega (arith, v.full, none_busy, one) in
    (
      omega (arith, v.left, none_busy, none_left),
      omega (
        arith,
        Reach-total print a (start concurrency patches) r,
        start-total a concurrency patches,
        ap (λ q. count a (ids q)) idle,
        ap (λ q. count a (ids q)) (empty t.queue none_left),
      ),
    )
