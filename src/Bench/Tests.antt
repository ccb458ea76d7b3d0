-- ===== src/Bench/Tests.antt =====
-- The calculations of the benchmark at concrete inputs.
use tierbuf.Prelude.{
  ℕ, ◌+◌, ◌*◌, ◌≤◌, ◌<◌, ◌≡◌, refl, min, some, List, [], ◌∷◌, length, All, ltb, leb, arith, done,
}
use tierbuf.Pool.Fix.{FixSource, dram, lower_tier}
use tierbuf.Bench.{ok}
use tierbuf.Bench.Stats.{
  TierCounters, TierStats, Adds, Grows, name_eq, same_shape, delta, tier_delta, tier_deltas,
  tier_stats_delta, demand_hit_delta,
}
use tierbuf.Bench.Stats.Deltas.{Tells, tier_hits, tier_stats_delta-Adds, demand_hit_delta-agrees}
use tierbuf.Bench.Latency.{sort, insert_sorted, percentile, new_sampler}
use tierbuf.Bench.Latency.Ranks.{count_if, percentile-ranks}
use tierbuf.Bench.Latency.Reservoir.{record_all, record_all-samples}

abbrev tier_of : ℕ → TierCounters
tier_of n = record {
  name = 110 ∷ [];
  demand = n;
  read_pages = 2 * n;
  written_pages = n;
  read_bytes = 4096 * n;
  written_bytes = n;
}

abbrev stats_of : ℕ → TierStats
stats_of n = record {
  dram = n + 3;
  faulted = n;
  evicted = n;
  second = 0;
  submitted = 1;
  prefetched = 1;
  skipped = 0;
  denied = n;
  tiers = tier_of n ∷ tier_of (n + 1) ∷ [];
}

tier_stats_delta-Adds_example :
    Tells
      (λ d. Adds (stats_of 4) d (stats_of 9))
      (Grows (stats_of 4) (stats_of 9))
      (tier_stats_delta (stats_of 4) (stats_of 9))
tier_stats_delta-Adds_example = tier_stats_delta-Adds (stats_of 4) (stats_of 9)

abbrev since : TierStats
since = record {
  dram = 5;
  faulted = 5;
  evicted = 5;
  second = 0;
  submitted = 0;
  prefetched = 0;
  skipped = 0;
  denied = 5;
  tiers = tier_of 5 ∷ tier_of 5 ∷ [];
}

told : tier_stats_delta (stats_of 4) (stats_of 9) ≡ ok since
unfolding tier_stats_delta tier_deltas tier_delta delta same_shape name_eq
told = refl

demand_hit_delta-agrees_example :
    demand_hit_delta (stats_of 4) (stats_of 9) ≡ ok (since.dram, tier_hits since.tiers)
demand_hit_delta-agrees_example =
    demand_hit_delta-agrees (stats_of 4) since (stats_of 9) told (omega arith)

-- The test `percentile_uses_nearest_rank_and_handles_empty_input` of the source has such samples.
abbrev samples : List ℕ
samples = 40 ∷ 10 ∷ 30 ∷ 20 ∷ []

percentile-ranks_example :
    (v : ℕ) × (percentile samples 50 ≡ done (some v))
    × (length samples * 50 ≤ 100 * count_if (λ y. leb y v) samples)
    × (100 * count_if (λ y. ltb y v) samples < length samples * 50)
percentile-ranks_example =
    percentile-ranks samples 50 (omega arith) (omega arith) (omega arith) (omega arith)

half : percentile samples 50 ≡ done (some 20)
unfolding percentile sort insert_sorted
half = refl

record_all-samples_example :
    (length (record_all samples (new_sampler 7 2)).values ≡ min (length samples) 2)
    × All (λ x. x ≤ 40) (record_all samples (new_sampler 7 2)).values
record_all-samples_example = record_all-samples (λ x. x ≤ 40) 7 2 samples (omega arith)

abbrev found : List (FixSource × ℕ)
found = (dram, 100) ∷ (lower_tier, 90000) ∷ (dram, 80) ∷ []
