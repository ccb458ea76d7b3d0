-- ===== src/Bench/Latency.antt =====
-- `LatencySampler`, a reservoir of latencies, and `percentile`.
pub mod Ranks
pub mod Reservoir
use tierbuf.Prelude.{
  ℕ, ◌+◌, ◌-◌, ◌*◌, ◌/◌, ◌%◌, ◌^◌, min, Bool, true, false, not, ◌&&◌, Option, none, some, List, [],
  ◌∷◌, ◌++◌, length, get_elem?, set, ltb, leb, ◌==◌, if◌then◌else◌, Run, done, panicked, ◌>>=◌,
  ◌>>◌, assert,
}
use tierbuf.Bench.Workload.{new_random, next_u64}

-- `sort_unstable` of numbers.
unfoldable pub insert_sorted : ℕ → List ℕ → List ℕ
insert_sorted a [] = a ∷ []
insert_sorted a (x ∷ xs) = let rest = insert_sorted a xs in if leb a x then a ∷ x ∷ xs else x ∷ rest

unfoldable pub sort : List ℕ → List ℕ
sort [] = []
sort (x ∷ xs) = insert_sorted x (sort xs)

unfoldable pub percentile : (samples : List ℕ) → (requested : ℕ) → Run (Option ℕ)
percentile samples requested = do
  assert (leb 1 requested && leb requested 100)
  done (
      if length samples == 0
      then none
      else if ltb (length samples * requested) (2 ^ 64)
      then get_elem? (sort samples) ((length samples * requested + 99) / 100 - 1)
      else none)

pub record LatencySampler : Type 0 where
  pub seen : ℕ
  pub values : List ℕ
  pub random : ℕ
  pub capacity : ℕ

unfoldable pub new_sampler : (seed capacity : ℕ) → LatencySampler
new_sampler seed capacity = record {
  seen = 0;
  values = [];
  random = new_random seed;
  capacity = capacity;
}

-- `record`. An index that is not below the capacity replaces nothing.
unfoldable pub record_latency : (latency_ns : ℕ) → LatencySampler → LatencySampler
record_latency latency_ns s =
    let seen = min (s.seen + 1) (2 ^ 64 - 1) in
    if ltb (length s.values) s.capacity
    then record s { seen = seen; values = s.values ++ latency_ns ∷ [] }
    else if s.capacity == 0
    then record s { seen = seen }
    else (let random = next_u64 s.random in
        let candidate = random % seen in
        record s {
          seen = seen;
          random = random;
          values = if ltb candidate s.capacity then set s.values candidate latency_ns else s.values;
        })
