-- ===== src/CacheRoute/Routes.antt =====
-- GET and DELETE of app/api/library/cache/route.ts. `fuel` bounds the rounds of a scan, and `rate`
-- stands for the rounded percentage of two counts.
use deedlit_dev.Base.{
  ℕ, zero, suc, ◌+◌, Bool, true, false, Option, none, some, List, [], ◌∷◌, ltb, if◌then◌else◌,
  length, slice, Text, codes, trim,
}
use deedlit_dev.Base.Outcome.{Outcome, returned, thrown, ◌>>=◌, catch}
use deedlit_dev.CacheRoute.{
  Redis, scan_keys, parse_memory_info, parse_stats_info, mask_url, SampleEntry, sample_entries,
}

pub record Stats : Type 0 where
  pub thumb_count : ℕ
  pub orig_count : ℕ
  pub total_data_keys : ℕ
  pub used_memory_human : Option Text
  pub used_memory_bytes : Option ℕ
  pub max_memory_human : Option Text
  pub keyspace_hits : Option ℕ
  pub keyspace_misses : Option ℕ
  pub hit_rate : Option Text

abbrev pub no_stats : Stats
no_stats = record {
  thumb_count = 0;
  orig_count = 0;
  total_data_keys = 0;
  used_memory_human = none;
  used_memory_bytes = none;
  max_memory_human = none;
  keyspace_hits = none;
  keyspace_misses = none;
  hit_rate = none;
}

pub record CacheStatsResponse : Type 0 where
  pub configured : Bool
  pub connected : Bool
  pub redis_url : Option Text
  pub stats : Stats
  pub sample : List SampleEntry

-- A body, or an error with its status. `out_of_fuel` is a scan that has not come to its end.
pub data Answer : Type 0 where
  stats_body : CacheStatsResponse → Answer
  json_error : Text → ℕ → Answer
  out_of_fuel : Answer

abbrev pub hit_rate_of : (ℕ → ℕ → Text) → Option ℕ → Option ℕ → Option Text
hit_rate_of rate none misses = none
hit_rate_of rate (some hits) none = none
hit_rate_of rate (some hits) (some misses) =
    if ltb 0 (hits + misses) then some (rate hits misses) else none

abbrev pub connected_body :
    (ℕ → ℕ → Text)
    → Text
    → List Text
    → List Text
    → Text
    → Text
    → List SampleEntry
    → CacheStatsResponse
connected_body rate url thumb_keys orig_keys memory statistics sample =
    let hits = parse_stats_info statistics (codes "keyspace_hits") in
    let misses = parse_stats_info statistics (codes "keyspace_misses") in
    record {
      configured = true;
      connected = true;
      redis_url = some (mask_url url);
      stats = record {
        thumb_count = length thumb_keys;
        orig_count = length orig_keys;
        total_data_keys = length thumb_keys + length orig_keys;
        used_memory_human = parse_memory_info memory (codes "used_memory_human");
        used_memory_bytes = parse_stats_info memory (codes "used_memory");
        max_memory_human = parse_memory_info memory (codes "maxmemory_human");
        keyspace_hits = hits;
        keyspace_misses = misses;
        hit_rate = hit_rate_of rate hits misses;
      };
      sample = sample;
    }

abbrev pub both : Option (List Text) → Option (List Text) → Option (List Text × List Text)
both (some a) (some b) = some (a, b)
both _ _ = none

-- The reads of a connected Redis. Of two scans that fail, the first one's error is the answer.
unfoldable pub read_stats : Redis → (ℕ → ℕ → Text) → ℕ → Text → Outcome Answer
read_stats redis rate fuel url = scan_keys redis (codes "img:*:thumb:data") fuel >>= λ thumb.
    scan_keys redis (codes "img:*:orig:data") fuel >>= λ orig. elim (both thumb orig) [
      | none ↦ returned out_of_fuel
      | some (thumb_keys, orig_keys) ↦
          let memory = catch (redis.info (codes "memory")) (λ e. []) in
          let statistics = catch (redis.info (codes "stats")) (λ e. []) in
          sample_entries redis thumb_keys orig_keys >>= λ sample.
          returned
            (stats_body (connected_body rate url thumb_keys orig_keys memory statistics sample))
    ]

abbrev pub unconnected_body : Bool → Option Text → CacheStatsResponse
unconnected_body configured url = record {
  configured = configured;
  connected = false;
  redis_url = url;
  stats = no_stats;
  sample = [];
}

abbrev pub handled : Outcome Answer → Answer
handled (returned a) = a
handled (thrown e) = json_error e 500

abbrev pub set_url : Option Text → Text
set_url none = []
set_url (some url) = trim url

-- GET: the setting REDIS_URL, and the client where there is one.
unfoldable pub get_stats : Option Text → Option Redis → (ℕ → ℕ → Text) → ℕ → Answer
unfolding read_stats trim
get_stats setting client rate fuel = elim (set_url setting) [
  | [] ↦ stats_body (unconnected_body false none)
  | c ∷ url ↦ elim client [
    | none ↦ json_error (codes "Redis client unavailable.") 503
    | some redis ↦
        if redis.ping
        then handled (read_stats redis rate fuel (c ∷ url))
        else stats_body (unconnected_body true (some (mask_url (c ∷ url))))
  ]
]

abbrev pub batch_size : ℕ
batch_size = 500

-- The slices of the loop from `i` on, on fuel.
unfoldable pub batches_from : ℕ → ℕ → List Text → List (List Text)
batches_from zero i keys = []
batches_from (suc fuel) i keys =
    let rest = batches_from fuel (i + batch_size) keys in
    if ltb i (length keys) then slice i (i + batch_size) keys ∷ rest else []

unfoldable pub key_batches : List Text → List (List Text)
unfolding batches_from
key_batches keys = batches_from (length keys) 0 keys

-- `redis.del` of each batch in turn; an error stops the loop.
unfoldable pub delete_batches :
    {W : Type 0}
    → (List Text → W → Outcome (Unit {0}) × W)
    → List (List Text)
    → W
    → Outcome (Unit {0}) × W
delete_batches del [] w = (returned tt, w)
delete_batches del (b ∷ bs) w =
    let (outcome, v) = del b w in
    elim outcome [ thrown e ↦ (thrown e, v) | returned u ↦ delete_batches del bs v ]

pub data Deletion : Type 0 where
  deleted : ℕ → Deletion
  failed : Text → ℕ → Deletion
  unfinished : Deletion

abbrev pub deletion_of : {W : Type 0} → ℕ → Outcome (Unit {0}) × W → Deletion × W
deletion_of n (thrown e, w) = (failed e 500, w)
deletion_of n (returned u, w) = (deleted n, w)

-- DELETE.
unfoldable pub delete_all :
    {W : Type 0} → Option Redis → (List Text → W → Outcome (Unit {0}) × W) → ℕ → W → Deletion × W
unfolding key_batches delete_batches
delete_all none del fuel w = (failed (codes "Redis not configured.") 503, w)
delete_all (some redis) del fuel w = elim (scan_keys redis (codes "img:*") fuel) [
  | thrown e ↦ (failed e 500, w)
  | returned keys ↦ elim keys [
    | none ↦ (unfinished, w)
    | some ks ↦ deletion_of (length ks) (delete_batches del (key_batches ks) w)
  ]
]
