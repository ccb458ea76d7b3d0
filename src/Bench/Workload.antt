-- ===== src/Bench/Workload.antt =====
-- `XorShift64`, `worker_seed`, `WorkloadState` and `page_marker`: which pages a worker visits. The
-- floats of `ZipfSampler` are left out: its `sample` is an index below its length, by the clamp at its
-- end, and the sampler is a parameter.
use Prim.Native.Nat.{bit_xor}
use tierbuf.Prelude.{ℕ, ◌+◌, ◌*◌, ◌/◌, ◌%◌, ◌^◌, ltb, ◌==◌, if◌then◌else◌}
use tierbuf.Policy.Economic.{AccessHint, normal, scan}

unfoldable pub new_random : (seed : ℕ) → ℕ
new_random seed = if seed == 0 then 1 else seed

-- The new state, which is also the number given out.
unfoldable pub next_u64 : (state : ℕ) → ℕ
next_u64 state =
    let first = bit_xor state (state * 2 ^ 13 % 2 ^ 64) in
    let second = bit_xor first (first / 2 ^ 7) in bit_xor second (second * 2 ^ 17 % 2 ^ 64)

unfoldable pub worker_seed : (worker_id salt : ℕ) → ℕ
worker_seed worker_id salt =
    bit_xor (bit_xor 0x6a09e667f3bcc909 ((worker_id + 1) % 2 ^ 64 * 0x9e3779b97f4a7c15 % 2 ^ 64))
      salt

-- In the range of a byte, so that the conversion does not fail.
unfoldable pub page_marker : (index : ℕ) → ℕ
page_marker index = (index * 131 % 2 ^ 64 + 17) % 2 ^ 64 % 251 + 1

pub record WorkloadState : Type 0 where
  pub random : ℕ
  pub scan_cursor : ℕ

pub record AccessSelection : Type 0 where
  pub index : ℕ
  pub hint : AccessHint

-- Of a sampler of `len` items; an empty one makes the remainder panic, so that `len` is positive.
unfoldable pub next_access :
    (len : ℕ)
    → (sample : ℕ → ℕ) → (point_access_percent : ℕ) → WorkloadState
    → WorkloadState × AccessSelection
next_access len sample percent w =
    let drawn = next_u64 w.random in
    if ltb (drawn % 100) percent
    then (
      record w { random = next_u64 drawn },
      record { index = sample (next_u64 drawn); hint = normal },
    )
    else (
      record { random = drawn; scan_cursor = (w.scan_cursor + 1) % len },
      record { index = w.scan_cursor; hint = scan },
    )
