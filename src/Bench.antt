-- ===== src/Bench.antt =====
-- The calculations of the benchmark, crates/tierbuf-bench/src/main.rs: what it counts, what it
-- measures, and which pages its workers visit. An error is told by its kind.
pub mod Stats
pub mod Latency
pub mod Workload
pub mod Worker
mod Tests
use tierbuf.Prelude.{ℕ, Bool, true, false}
use tierbuf.Metrics.{Counter}

pub data Failure : Type 0 where
  shape_changed overflowed : Failure
  regressed : Counter → Failure

pub data Checked {ℓ} (A : Type ℓ) : Type ℓ where
  ok : A → Checked A
  err : Failure → Checked A

infixl 5 ◌>>=◌ ◌>>◌
abbrev pub ◌>>=◌ {ℓ κ} : {A : Type ℓ} {B : Type κ} → Checked A → (A → Checked B) → Checked B
ok a >>= f = f a
err e >>= f = err e

abbrev pub ◌>>◌ {ℓ} : {B : Type ℓ} → Checked (Unit {0}) → Checked B → Checked B
m >> k = m >>= λ _. k
