-- ===== src/Bench/Worker/Counts.antt =====
-- A worker counts each operation once, and its scans visit the pages in a circle.
use tierbuf.Prelude.{ℕ, ◌+◌, ◌%◌, ◌≤◌, ◌<◌, ◌≡◌, Bool, List, [], ◌∷◌}
use tierbuf.Policy.Economic.{AccessHint, normal, scan, prefetch}
use tierbuf.Pool.Fix.{FixSource}
use tierbuf.Bench.Workload.{AccessSelection}
use tierbuf.Bench.Worker.{WorkerState, operation}

-- Each operation is a point access or a scan, and no hit of either stands alone.
pub record IsCounted (w : WorkerState) : Type 0 where
  pub kinds : w.operations ≡ w.point_operations + w.scan_operations
  pub point_hits : w.point_dram_hits ≤ w.point_operations
  pub scan_hits : w.scan_dram_hits ≤ w.scan_operations

-- An access while the scan is at page `c`, and what follows it.
abbrev pub Visit : (len c : ℕ) → AccessHint → (index : ℕ) → (rest : ℕ → Type 0) → Type 0
Visit len c normal index rest = (index < len) × rest c
Visit len c scan index rest = (index ≡ c) × rest ((c + 1) % len)
Visit len c prefetch index rest = ⊥

-- From the page `c` the scans visit one page after the other, and `c'` is the page after the last of
-- them; the other accesses are of pages below `len`.
abbrev pub Visits : (len c : ℕ) → List AccessSelection → (c' : ℕ) → Type 0
Visits len c [] c' = c ≡ c'
Visits len c (a ∷ as') c' = Visit len c a.hint a.index (λ d. Visits len d as' c')

module _ (len : ℕ) (sample : ℕ → ℕ) (percent : ℕ) (measurement : Bool)
    (below : (random : ℕ) → sample random < len) where
  -- What an operation does to the counts and to the scan.
  pub Steps : FixSource × ℕ → WorkerState → Type 1
  Steps found w =
      let after = operation len sample percent measurement found w in
      IsCounted after.0
      × (after.0.operations ≡ w.operations + 1)
      × ((rest : ℕ → Type 0)
          → rest after.0.workload.scan_cursor
          → Visit len w.workload.scan_cursor after.1.hint after.1.index rest)
