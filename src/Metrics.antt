-- ===== src/Metrics.antt =====
-- `StatsRecorder` of crates/tierbuf/src/metrics.rs: counters that saturate, and the gate that lets
-- updates run together but keeps snapshots apart from them.
pub mod Gate
pub mod Steps
pub mod Coherence
mod Tests
use tierbuf.Prelude.{
  ℕ, suc, zero, ◌+◌, ◌-◌, ◌^◌, min, Bool, true, false, ◌&&◌, List, [], ◌∷◌, ◌++◌, ltb, ◌==◌,
  if◌then◌else◌, Run, done, panicked, ◌>>=◌, ◌>>◌, assert,
}

-- The fields of the recorder, and those of its tier at an index.
pub data Counter : Type 0 where
  dram_hits faults evictions second_chances : Counter
  prefetch_submitted prefetch_hits prefetch_skipped budget_denied : Counter
  demand_hits reads writes bytes_read bytes_written : (tier_index : ℕ) → Counter

unfoldable pub counter_eq : Counter → Counter → Bool
counter_eq dram_hits dram_hits = true
counter_eq faults faults = true
counter_eq evictions evictions = true
counter_eq second_chances second_chances = true
counter_eq prefetch_submitted prefetch_submitted = true
counter_eq prefetch_hits prefetch_hits = true
counter_eq prefetch_skipped prefetch_skipped = true
counter_eq budget_denied budget_denied = true
counter_eq (demand_hits i) (demand_hits j) = i == j
counter_eq (reads i) (reads j) = i == j
counter_eq (writes i) (writes j) = i == j
counter_eq (bytes_read i) (bytes_read j) = i == j
counter_eq (bytes_written i) (bytes_written j) = i == j
counter_eq _ _ = false

abbrev pub max_count : ℕ
max_count = 2 ^ 64 - 1

-- `saturating_add`, on all counters.
unfoldable pub add_to : Counter → (amount : ℕ) → (Counter → ℕ) → Counter → ℕ
add_to c amount s d = if counter_eq c d then min (s d + amount) max_count else s d

-- What one call of a `record` function adds, in its order.
abbrev pub Event : Type 0
Event = List (Counter × ℕ)

unfoldable pub record_dram_hit : Event
record_dram_hit = (dram_hits, 1) ∷ []

unfoldable pub record_fault : Event
record_fault = (faults, 1) ∷ []

unfoldable pub record_eviction : Event
record_eviction = (evictions, 1) ∷ []

unfoldable pub record_second_chance : Event
record_second_chance = (second_chances, 1) ∷ []

unfoldable pub record_prefetch_submitted : ℕ → Event
record_prefetch_submitted count = (prefetch_submitted, count) ∷ []

unfoldable pub record_prefetch_hit : Event
record_prefetch_hit = (prefetch_hits, 1) ∷ []

unfoldable pub record_prefetch_skipped : ℕ → Event
record_prefetch_skipped count = (prefetch_skipped, count) ∷ []

unfoldable pub record_budget_denied : Event
record_budget_denied = (budget_denied, 1) ∷ []

module _ (tiers : ℕ) where
  -- `tier`, which panics on an index out of bounds.
  unfoldable pub tier_at : ℕ → Run (Unit {0})
  tier_at tier_index = assert (ltb tier_index tiers)

  unfoldable pub record_tier_demand_hit : ℕ → Run Event
  record_tier_demand_hit i = do tier_at i; done ((demand_hits i, 1) ∷ [])

  unfoldable pub record_tier_read : (tier_index bytes : ℕ) → Run Event
  record_tier_read i bytes = do tier_at i; done ((reads i, 1) ∷ (bytes_read i, bytes) ∷ [])

  unfoldable pub record_tier_write : (tier_index bytes : ℕ) → Run Event
  record_tier_write i bytes = do tier_at i; done ((writes i, 1) ∷ (bytes_written i, bytes) ∷ [])

-- The loads of a snapshot, in their order, for the tiers from `first` on.
unfoldable pub tier_fields : (rounds first : ℕ) → List Counter
tier_fields zero i = []
tier_fields (suc n) i =
    demand_hits i ∷ reads i ∷ writes i ∷ bytes_read i ∷ bytes_written i ∷ tier_fields n (i + 1)

unfoldable pub snapshot_fields : (tiers : ℕ) → List Counter
snapshot_fields tiers =
    dram_hits
    ∷ faults
    ∷ evictions
    ∷ second_chances
    ∷ prefetch_submitted
    ∷ prefetch_hits
    ∷ prefetch_skipped
    ∷ budget_denied
    ∷ tier_fields tiers 0

abbrev pub zeroed : Counter → ℕ
zeroed _ = 0
