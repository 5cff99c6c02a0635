-- ===== src/CacheRoute/Sample.antt =====
-- The sample that GET shows: which keys an image has, and their times to live.
use deedlit_dev.Base.{
  ℕ, suc, ◌+◌, ◌*◌, ◌≤◌, ◌≡◌, refl, sym, ◌∙◌, Bool, true, false, none, some, List, [], ◌∷◌, ◌++◌,
  map, append_assoc, arith, if◌then◌else◌, length, take, get_elem?, length-append, length-take,
  Text, codes, text_eq, text_eq_iff, has,
}
use deedlit_dev.Base.Outcome.{returned, ◌>>=◌}
use deedlit_dev.CacheRoute.{
  Redis, Flags, no_flags, sha_of, set_flags, add_keys, mark_thumb, mark_orig, sha_entries, data_key,
  ttl_commands, SampleEntry, sample_of, sample_size, sample_entries,
}

-- The flags of an image, where none are set unless the map says so.
unfoldable pub flags_at : Text → List (Text × Flags) → Flags
flags_at sha [] = no_flags
flags_at sha ((k, flags) ∷ entries) = if text_eq k sha then flags else flags_at sha entries

flags_at-set_flags :
    (sha k : Text) (f : Flags → Flags) (entries : List (Text × Flags))
    → flags_at sha (set_flags k f entries)
      ≡ (if text_eq sha k then f (flags_at sha entries) else flags_at sha entries)
unfolding flags_at set_flags
flags_at-set_flags sha k f [] = ground (arith, text_eq_iff k sha, text_eq_iff sha k)
flags_at-set_flags sha k f ((j, flags) ∷ entries) = ground (
  arith,
  text_eq_iff k sha,
  text_eq_iff sha k,
  text_eq_iff j sha,
  text_eq_iff j k,
  flags_at-set_flags sha k f entries,
)

flags_at-add_keys :
    (sha suffix : Text) (f : Flags → Flags) (keys : List Text) (entries : List (Text × Flags))
    → ((x : Flags) → f (f x) ≡ f x)
    → flags_at sha (add_keys suffix f keys entries) ≡ (
        if has sha (map (sha_of suffix) keys)
        then f (flags_at sha entries)
        else flags_at sha entries)
unfolding add_keys has
flags_at-add_keys sha suffix f [] entries idem = refl
flags_at-add_keys sha suffix f (k ∷ keys) entries idem = ground (
  arith,
  flags_at-add_keys sha suffix f keys (set_flags (sha_of suffix k) f entries) idem,
  flags_at-set_flags sha (sha_of suffix k) f entries,
  idem (flags_at sha entries),
)

-- An image is marked as having a thumbnail, or an original, exactly where a key that was scanned
-- for that kind is its key.
pub flags_at-sha_entries :
    (sha : Text) (thumb_keys orig_keys : List Text)
    → let flags = flags_at sha (sha_entries thumb_keys orig_keys) in
      (flags.has_thumb ≡ has sha (map (sha_of (codes ":thumb:data")) thumb_keys))
      × (flags.has_orig ≡ has sha (map (sha_of (codes ":orig:data")) orig_keys))
unfolding sha_entries flags_at
flags_at-sha_entries sha thumb_keys orig_keys = ground (
  arith,
  flags_at-add_keys sha (codes ":orig:data") mark_orig orig_keys
      (add_keys (codes ":thumb:data") mark_thumb thumb_keys []) (λ (x : Flags). refl),
  flags_at-add_keys sha (codes ":thumb:data") mark_thumb thumb_keys [] (λ (x : Flags). refl),
)

get_elem?-append : (xs ys : List Text) (y : Text) → get_elem? (xs ++ (y ∷ ys)) (length xs) ≡ some y
get_elem?-append [] ys y = refl
get_elem?-append (x ∷ xs) ys y = get_elem?-append xs ys y

-- An entry with the times that Redis gives for its keys.
abbrev pub shown : (Text → Text) → Text × Flags → SampleEntry
shown ttl (sha, flags) = record {
  sha256 = sha;
  has_thumb = flags.has_thumb;
  has_orig = flags.has_orig;
  thumb_ttl = if flags.has_thumb then some (ttl (data_key sha (codes ":thumb:data"))) else none;
  orig_ttl = if flags.has_orig then some (ttl (data_key sha (codes ":orig:data"))) else none;
}

-- One entry, where the results at its two places are known.
sample_step :
    (sha thumb orig : Text) (t o : Bool) (results : List Text) (i : ℕ)
    (entries : List (Text × Flags)) (rest : List SampleEntry)
    → get_elem? results (i * 2) ≡ some thumb
    → get_elem? results (i * 2 + 1) ≡ some orig
    → sample_of (some results) (i + 1) entries ≡ returned rest
    → sample_of (some results) i ((sha, record { has_thumb = t; has_orig = o }) ∷ entries)
      ≡ returned (
          record {
            sha256 = sha;
            has_thumb = t;
            has_orig = o;
            thumb_ttl = if t then some thumb else none;
            orig_ttl = if o then some orig else none;
          }
          ∷ rest)
unfolding sample_of
sample_step sha thumb orig true true results i entries rest a b c = ground (arith, a, b, c)
sample_step sha thumb orig true false results i entries rest a b c = ground (arith, a, c)
sample_step sha thumb orig false true results i entries rest a b c = ground (arith, b, c)
sample_step sha thumb orig false false results i entries rest a b c = ground (arith, c)

get_elem?-second :
    (xs ys : List Text) (x y : Text) → get_elem? (xs ++ (x ∷ y ∷ ys)) (length xs + 1) ≡ some y
get_elem?-second [] ys x y = refl
get_elem?-second (z ∷ xs) ys x y =
    let e : suc (length xs) + 1 ≡ suc (length xs + 1) = omega arith in
    rw e (get_elem?-second xs ys x y)

abbrev command : Bool → Text → Text → Text
command flag sha suffix = if flag then data_key sha suffix else codes "__missing__"

shown_ttl :
    (ttl : Text → Text) (flag : Bool) (sha suffix : Text)
    → (if flag then some (ttl (command flag sha suffix)) else none)
      ≡ (if flag then some (ttl (data_key sha suffix)) else none)
shown_ttl ttl true sha suffix = refl
shown_ttl ttl false sha suffix = refl

sample_of_lem :
    (ttl : Text → Text) (entries : List (Text × Flags)) (i : ℕ) (before results : List Text)
    → length before ≡ i * 2
    → results ≡ before ++ map ttl (ttl_commands entries)
    → sample_of (some results) i entries ≡ returned (map (shown ttl) entries)
unfolding ttl_commands
sample_of_lem ttl [] i before results h e = unfold sample_of in refl
sample_of_lem ttl ((sha, flags) ∷ entries) i before results h e =
    let thumb = ttl (command flags.has_thumb sha (codes ":thumb:data")) in
    let orig = ttl (command flags.has_orig sha (codes ":orig:data")) in
    let behind = map ttl (ttl_commands entries) in
    let a : get_elem? results (i * 2) ≡ some thumb =
      rw (e, sym h) (get_elem?-append before (orig ∷ behind) thumb) in
    let b : get_elem? results (i * 2 + 1) ≡ some orig =
      rw (e, sym h) (get_elem?-second before behind thumb orig) in
    let long : length (before ++ (thumb ∷ orig ∷ [])) ≡ (i + 1) * 2 =
      omega (arith, h, length-append before (thumb ∷ orig ∷ [])) in
    let c =
      sample_of_lem ttl entries (i + 1) (before ++ (thumb ∷ orig ∷ [])) results long
        (e ∙ sym (append_assoc before (thumb ∷ orig ∷ []) behind)) in
    sample_step sha thumb orig flags.has_thumb flags.has_orig results i entries
      (map (shown ttl) entries) a b c
    ∙ (λ k. returned (
        record {
          sha256 = sha;
          has_thumb = flags.has_thumb;
          has_orig = flags.has_orig;
          thumb_ttl = shown_ttl ttl flags.has_thumb sha (codes ":thumb:data") k;
          orig_ttl = shown_ttl ttl flags.has_orig sha (codes ":orig:data") k;
        }
        ∷ map (shown ttl) entries))

-- Where Redis answers each `ttl` of the pipeline, each entry shown has the times of its own keys, and
-- nothing in place of a key that it does not have; at most thirty are shown.
pub sample_entries-shown :
    (redis : Redis) (ttl : Text → Text) (thumb_keys orig_keys : List Text)
    → ((commands : List Text) → redis.ttls commands ≡ returned (some (map ttl commands)))
    → (sample_entries redis thumb_keys orig_keys
        ≡ returned (map (shown ttl) (take sample_size (sha_entries thumb_keys orig_keys))))
      × (length (take sample_size (sha_entries thumb_keys orig_keys)) ≤ sample_size)
unfolding sample_entries
sample_entries-shown redis ttl thumb_keys orig_keys h = (
  go (take sample_size (sha_entries thumb_keys orig_keys)),
  omega (arith, length-take sample_size (sha_entries thumb_keys orig_keys)),
)
  where
    go :
        (entries : List (Text × Flags))
        → (elim entries [
          | [] ↦ returned []
          | e ∷ es ↦ redis.ttls (ttl_commands (e ∷ es)) >>= λ results. sample_of results 0 (e ∷ es)
        ])
          ≡ returned (map (shown ttl) entries)
    go [] = refl
    go (e ∷ es) =
        rw (h (ttl_commands (e ∷ es)))
          (sample_of_lem ttl (e ∷ es) 0 [] (map ttl (ttl_commands (e ∷ es))) (omega arith) refl)
