-- ===== src/Bench/Worker.antt =====
-- The counting loop of `run_worker`, for what each operation finds: where the page was and how long it
-- took. The clock ends the loop; a fix that fails ends the worker with its error.
pub mod Counts
use Prim.Native.Nat.{bit_xor}
use tierbuf.Prelude.{
  ℕ, ◌+◌, ◌*◌, ◌/◌, ◌%◌, ◌-◌, ◌^◌, min, Bool, true, false, ◌&&◌, ◌||◌, List, [], ◌∷◌, ltb, ◌==◌,
  if◌then◌else◌,
}
use tierbuf.Policy.Economic.{AccessHint, normal, scan, prefetch}
use tierbuf.Pool.Fix.{FixSource, dram, lower_tier}
use tierbuf.Pool.Prefetch.{saturating_inc}
use tierbuf.Bench.Workload.{WorkloadState, AccessSelection, new_random, worker_seed, next_access}
use tierbuf.Bench.Latency.{LatencySampler, new_sampler, record_latency}

abbrev pub sample_every_operations : ℕ
sample_every_operations = 64

pub record WorkerState : Type 0 where
  pub workload : WorkloadState
  pub overall : LatencySampler
  pub point : LatencySampler
  pub scanned : LatencySampler
  pub operations : ℕ
  pub point_operations : ℕ
  pub scan_operations : ℕ
  pub point_dram_hits : ℕ
  pub scan_dram_hits : ℕ

abbrev pub is_dram : FixSource → Bool
is_dram dram = true
is_dram lower_tier = false

-- `checked_mul(swips.len())`, divided, or the remainder. There are workers and pages, or the source
-- divides by zero.
unfoldable pub scan_start : (worker_id worker_count len : ℕ) → ℕ
scan_start worker_id worker_count len =
    if ltb (worker_id * len) (2 ^ 64) then worker_id * len / worker_count else worker_id % len

abbrev pub sample_seed_salt : ℕ
sample_seed_salt = 0x3c6ef372fe94f82b

abbrev pub rotate_left : (count word : ℕ) → ℕ
rotate_left count word = word * 2 ^ count % 2 ^ 64 + word / 2 ^ (64 - count)

abbrev pub max_latency_samples : ℕ
max_latency_samples = 50000

-- `salt` is that of the phase.
unfoldable pub new_worker : (worker_id worker_count len salt : ℕ) → WorkerState
new_worker worker_id worker_count len salt =
    let seed = worker_seed worker_id salt in
    let sampler = λ (s : ℕ). new_sampler (bit_xor seed s) max_latency_samples in
    record {
      workload = record {
        random = new_random seed;
        scan_cursor = scan_start worker_id worker_count len;
      };
      overall = sampler sample_seed_salt;
      point = sampler (rotate_left 17 sample_seed_salt);
      scanned = sampler (rotate_left 31 sample_seed_salt);
      operations = 0;
      point_operations = 0;
      scan_operations = 0;
      point_dram_hits = 0;
      scan_dram_hits = 0;
    }

abbrev pub taken : Bool → (latency_ns : ℕ) → LatencySampler → LatencySampler
taken sampled latency_ns s = if sampled then record_latency latency_ns s else s

-- By the hint of the access; the workload gives no prefetch access.
unfoldable pub counted :
    (measurement : Bool) → AccessHint → FixSource → (latency_ns : ℕ) → WorkerState → WorkerState
counted measurement normal source latency_ns w = record w {
  point =
      taken (measurement && w.point_operations % sample_every_operations == 0) latency_ns w.point;
  point_operations = saturating_inc w.point_operations;
  point_dram_hits = if is_dram source then saturating_inc w.point_dram_hits else w.point_dram_hits;
}
counted measurement scan source latency_ns w = record w {
  scanned =
      taken (measurement && w.scan_operations % sample_every_operations == 0) latency_ns w.scanned;
  scan_operations = saturating_inc w.scan_operations;
  scan_dram_hits = if is_dram source then saturating_inc w.scan_dram_hits else w.scan_dram_hits;
}
counted measurement prefetch source latency_ns w = w

-- One round of the loop, and the page that it visits.
unfoldable pub operation :
    (len : ℕ)
    → (sample : ℕ → ℕ) → (percent : ℕ) → (measurement : Bool) → FixSource × ℕ
    → WorkerState
    → WorkerState × AccessSelection
operation len sample percent measurement (source, latency_ns) w =
    let (workload, access) = next_access len sample percent w.workload in
    let timed =
      taken (measurement && w.operations % sample_every_operations == 0) latency_ns w.overall in
    let w' =
      counted measurement access.hint source latency_ns
        (record w { workload = workload; overall = timed }) in
    (record w' { operations = saturating_inc w.operations }, access)

unfoldable pub run_worker :
    (len : ℕ)
    → (sample : ℕ → ℕ) → (percent : ℕ) → (measurement : Bool) → List (FixSource × ℕ)
    → WorkerState
    → WorkerState × List AccessSelection
run_worker len sample percent measurement [] w = (w, [])
run_worker len sample percent measurement (found ∷ rest) w =
    let (w', access) = operation len sample percent measurement found w in
    let (w'', accesses) = run_worker len sample percent measurement rest w' in
    (w'', access ∷ accesses)
