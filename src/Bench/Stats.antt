-- ===== src/Bench/Stats.antt =====
-- `tier_stats_delta` and `demand_hit_delta`: what was counted between two snapshots.
pub mod Deltas
use tierbuf.Prelude.{
  ℕ, ◌+◌, ◌-◌, ◌^◌, ◌≤◌, ◌≡◌, refl, Bool, true, false, not, ◌&&◌, List, [], ◌∷◌, length, ltb, leb,
  ◌==◌, if◌then◌else◌, arith, Bool-cases, inl, inr, if-cases,
}
use tierbuf.Metrics.{
  Counter, dram_hits, faults, evictions, second_chances, prefetch_submitted, prefetch_hits,
  prefetch_skipped, budget_denied, demand_hits, reads, writes, bytes_read, bytes_written,
}
use tierbuf.Bench.{Failure, shape_changed, regressed, overflowed, Checked, ok, err, ◌>>=◌}

-- Names are their bytes.
pub record TierCounters : Type 0 where
  pub name : List ℕ
  pub demand : ℕ
  pub read_pages : ℕ
  pub written_pages : ℕ
  pub read_bytes : ℕ
  pub written_bytes : ℕ

pub record TierStats : Type 0 where
  pub dram : ℕ
  pub faulted : ℕ
  pub evicted : ℕ
  pub second : ℕ
  pub submitted : ℕ
  pub prefetched : ℕ
  pub skipped : ℕ
  pub denied : ℕ
  pub tiers : List TierCounters

unfoldable pub name_eq : List ℕ → List ℕ → Bool
name_eq [] [] = true
name_eq (a ∷ as') (b ∷ bs) = a == b && name_eq as' bs
name_eq _ _ = false

-- The lengths are equal, and so are the names, pairwise.
unfoldable pub same_shape : List TierCounters → List TierCounters → Bool
same_shape [] [] = true
same_shape (b ∷ bs) (a ∷ as') = name_eq b.name a.name && same_shape bs as'
same_shape _ _ = false

unfoldable pub delta : Counter → (before after : ℕ) → Checked ℕ
delta c before after = if leb before after then ok (after - before) else err (regressed c)

-- `i` is the index of the tier.
unfoldable pub tier_delta : (i : ℕ) → (before after : TierCounters) → Checked TierCounters
tier_delta i b a = do
  demand ← delta (demand_hits i) b.demand a.demand
  read_pages ← delta (reads i) b.read_pages a.read_pages
  written_pages ← delta (writes i) b.written_pages a.written_pages
  read_bytes ← delta (bytes_read i) b.read_bytes a.read_bytes
  written_bytes ← delta (bytes_written i) b.written_bytes a.written_bytes
  ok (record {
    name = a.name;
    demand = demand;
    read_pages = read_pages;
    written_pages = written_pages;
    read_bytes = read_bytes;
    written_bytes = written_bytes;
  })

unfoldable pub tier_deltas :
    (i : ℕ) → (before after : List TierCounters) → Checked (List TierCounters)
tier_deltas i (b ∷ bs) (a ∷ as') = do
  d ← tier_delta i b a
  ds ← tier_deltas (i + 1) bs as'
  ok (d ∷ ds)
tier_deltas i _ _ = ok []

unfoldable pub tier_stats_delta : (before after : TierStats) → Checked TierStats
tier_stats_delta b a = if not (same_shape b.tiers a.tiers) then err shape_changed else (do
  tiers ← tier_deltas 0 b.tiers a.tiers
  dram ← delta dram_hits b.dram a.dram
  faulted ← delta faults b.faulted a.faulted
  evicted ← delta evictions b.evicted a.evicted
  second ← delta second_chances b.second a.second
  submitted ← delta prefetch_submitted b.submitted a.submitted
  prefetched ← delta prefetch_hits b.prefetched a.prefetched
  skipped ← delta prefetch_skipped b.skipped a.skipped
  denied ← delta budget_denied b.denied a.denied
  ok (record {
    dram = dram;
    faulted = faulted;
    evicted = evicted;
    second = second;
    submitted = submitted;
    prefetched = prefetched;
    skipped = skipped;
    denied = denied;
    tiers = tiers;
  }))

-- `try_fold` over the tiers, from `total` at tier `i`.
unfoldable pub lower_hits : (i total : ℕ) → (before after : List TierCounters) → Checked ℕ
lower_hits i total (b ∷ bs) (a ∷ as') = do
  d ← delta (demand_hits i) b.demand a.demand
  if ltb (total + d) (2 ^ 64) then lower_hits (i + 1) (total + d) bs as' else err overflowed
lower_hits i total _ _ = ok total

unfoldable pub demand_hit_delta : (before after : TierStats) → Checked (ℕ × ℕ)
demand_hit_delta b a = if not (same_shape b.tiers a.tiers) then err shape_changed else (do
  dram ← delta dram_hits b.dram a.dram
  lower ← lower_hits 0 0 b.tiers a.tiers
  ok (dram, lower))

-- The tiers of both are the same, and each counter is the sum of the others'.
abbrev pub TierAdds : TierCounters → TierCounters → TierCounters → Type 0
TierAdds b d a =
    (b.name ≡ a.name)
    × (d.name ≡ a.name)
    × (b.demand + d.demand ≡ a.demand)
    × (b.read_pages + d.read_pages ≡ a.read_pages)
    × (b.written_pages + d.written_pages ≡ a.written_pages)
    × (b.read_bytes + d.read_bytes ≡ a.read_bytes)
    × (b.written_bytes + d.written_bytes ≡ a.written_bytes)

abbrev pub TiersAdd : List TierCounters → List TierCounters → List TierCounters → Type 0
TiersAdd [] [] [] = Unit
TiersAdd (b ∷ bs) (d ∷ ds) (a ∷ as') = TierAdds b d a × TiersAdd bs ds as'
TiersAdd _ _ _ = ⊥

pub record Adds (b d a : TierStats) : Type 0 where
  pub dram : b.dram + d.dram ≡ a.dram
  pub faulted : b.faulted + d.faulted ≡ a.faulted
  pub evicted : b.evicted + d.evicted ≡ a.evicted
  pub second : b.second + d.second ≡ a.second
  pub submitted : b.submitted + d.submitted ≡ a.submitted
  pub prefetched : b.prefetched + d.prefetched ≡ a.prefetched
  pub skipped : b.skipped + d.skipped ≡ a.skipped
  pub denied : b.denied + d.denied ≡ a.denied
  pub tiers : TiersAdd b.tiers d.tiers a.tiers

-- No counter has regressed.
abbrev pub TierGrows : TierCounters → TierCounters → Type 0
TierGrows b a =
    (b.demand ≤ a.demand)
    × (b.read_pages ≤ a.read_pages)
    × (b.written_pages ≤ a.written_pages)
    × (b.read_bytes ≤ a.read_bytes)
    × (b.written_bytes ≤ a.written_bytes)

abbrev pub TiersGrow : List TierCounters → List TierCounters → Type 0
TiersGrow [] [] = Unit
TiersGrow (b ∷ bs) (a ∷ as') = (b.name ≡ a.name) × TierGrows b a × TiersGrow bs as'
TiersGrow _ _ = ⊥

abbrev pub Grows : TierStats → TierStats → Type 0
Grows b a =
    TiersGrow b.tiers a.tiers
    × (b.dram ≤ a.dram)
    × (b.faulted ≤ a.faulted)
    × (b.evicted ≤ a.evicted)
    × (b.second ≤ a.second)
    × (b.submitted ≤ a.submitted)
    × (b.prefetched ≤ a.prefetched)
    × (b.skipped ≤ a.skipped)
    × (b.denied ≤ a.denied)
