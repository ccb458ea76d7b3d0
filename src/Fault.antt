-- ===== src/Fault.antt =====
-- `FaultCoordinator` of crates/tierbuf/src/pool.rs: of the threads that fault on one page at a time,
-- one leads and the others replay its outcome. A step is what a thread does with the state between
-- two waits of its condition variable; it may wake at any time.
pub mod Replay
pub mod Crowd
pub mod Arrivals
pub mod Steps
pub mod Turns
mod Tests
use tierbuf.Prelude.{
  ℕ, suc, zero, ◌+◌, ◌-◌, ◌%◌, ◌^◌, Bool, true, false, not, Option, none, some, List, ltb, leb,
  ◌==◌, if◌then◌else◌, update, Run, done, panicked, ◌>>=◌, ◌>>◌, assert,
}
use tierbuf.Tier.Disk.{IoKind}

-- `io::Error`: what `kind` and `to_string` report of it, and what else it holds.
pub record IoError : Type 0 where
  pub kind : IoKind
  pub message : List ℕ
  pub source : Option ℕ

pub data BufError : Type 0 where
  io : IoError → BufError
  pool_exhausted : BufError
  tier_exhausted : (tier : List ℕ) → BufError
  invalid_page : (pid : ℕ) → BufError
  duplicate_handle : (pid : ℕ) → BufError
  invalid_config : (message : List ℕ) → BufError
  contended : BufError
  retry : BufError
  shutting_down : BufError

pub data ReplayableFaultError : Type 0 where
  replay_io : (kind : IoKind) → (message : List ℕ) → ReplayableFaultError
  replay_pool_exhausted : ReplayableFaultError
  replay_tier_exhausted : (tier : List ℕ) → ReplayableFaultError
  replay_invalid_page : (pid : ℕ) → ReplayableFaultError
  replay_duplicate_handle : (pid : ℕ) → ReplayableFaultError
  replay_invalid_config : (message : List ℕ) → ReplayableFaultError
  replay_contended : ReplayableFaultError
  replay_retry : ReplayableFaultError
  replay_shutting_down : ReplayableFaultError

pub data FaultOutcome : Type 0 where
  success : (tier_index : Option ℕ) → FaultOutcome
  failure : ReplayableFaultError → FaultOutcome

-- `Result<Option<usize>>`
pub data FaultResult : Type 0 where
  fault_ok : (tier_index : Option ℕ) → FaultResult
  fault_err : BufError → FaultResult

unfoldable pub to_replayable : BufError → ReplayableFaultError
to_replayable (io e) = replay_io e.kind e.message
to_replayable pool_exhausted = replay_pool_exhausted
to_replayable (tier_exhausted tier) = replay_tier_exhausted tier
to_replayable (invalid_page pid) = replay_invalid_page pid
to_replayable (duplicate_handle pid) = replay_duplicate_handle pid
to_replayable (invalid_config message) = replay_invalid_config message
to_replayable contended = replay_contended
to_replayable retry = replay_retry
to_replayable shutting_down = replay_shutting_down

unfoldable pub of_replayable : ReplayableFaultError → BufError
of_replayable (replay_io kind message) =
    io (record { kind = kind; message = message; source = none })
of_replayable replay_pool_exhausted = pool_exhausted
of_replayable (replay_tier_exhausted tier) = tier_exhausted tier
of_replayable (replay_invalid_page pid) = invalid_page pid
of_replayable (replay_duplicate_handle pid) = duplicate_handle pid
of_replayable (replay_invalid_config message) = invalid_config message
of_replayable replay_contended = contended
of_replayable replay_retry = retry
of_replayable replay_shutting_down = shutting_down

unfoldable pub from_result : FaultResult → FaultOutcome
from_result (fault_ok tier_index) = success tier_index
from_result (fault_err e) = failure (to_replayable e)

unfoldable pub into_result : FaultOutcome → FaultResult
into_result (success tier_index) = fault_ok tier_index
into_result (failure e) = fault_err (of_replayable e)

pub record ActiveFault : Type 0 where
  pub generation : ℕ
  pub waiters : ℕ

pub record CompletedFault : Type 0 where
  pub generation : ℕ
  pub outcome : FaultOutcome
  pub remaining_waiters : ℕ

pub record FaultState : Type 0 where
  pub next_generation : ℕ
  pub active : Option ActiveFault
  pub completed : Option CompletedFault

-- What a step of `enter` leaves its thread with.
pub data Entered : Type 0 where
  leader : (generation : ℕ) → Entered
  waiter : (generation : ℕ) → Entered
  later : Entered  -- waits for the completed fault to be replayed by all, then enters again

-- A round of the outer loop of `enter`, to its wait or its end.
unfoldable pub enter : FaultState → Run (FaultState × Entered)
enter s = elim s.active [
  | some a ↦ (do
    assert (ltb (a.waiters + 1) (2 ^ 64))
    done (record s { active = some (record a { waiters = a.waiters + 1 }) }, waiter a.generation))
  | none ↦ elim s.completed [
    | some _ ↦ done (s, later)
    | none ↦ done (
      record s {
        next_generation = (s.next_generation + 1) % 2 ^ 64;
        active = some (record { generation = s.next_generation; waiters = 0 });
      },
      leader s.next_generation,
    )
  ]
]

-- A round of the inner loop of `enter`, after its wait: `none` waits again.
unfoldable pub wake : (generation : ℕ) → FaultState → Run (FaultState × Option FaultResult)
unfolding into_result
wake generation s = elim s.completed [
  | none ↦ done (s, none)
  | some c ↦ if not (c.generation == generation) then done (s, none) else (do
    assert (ltb 0 c.remaining_waiters)
    let remaining = c.remaining_waiters - 1
    done (
      record s {
        completed =
            if remaining == 0 then none else some (record c { remaining_waiters = remaining });
      },
      some (into_result c.outcome),
    ))
]

unfoldable pub complete : (generation : ℕ) → FaultOutcome → FaultState → Run FaultState
complete generation outcome s = elim s.active [
  | none ↦ done s
  | some a ↦ (do
    assert (a.generation == generation)
    done (record s {
      active = none;
      completed =
          if not (a.waiters == 0)
          then some
              (record { generation = generation; outcome = outcome; remaining_waiters = a.waiters })
          else s.completed;
    }))
]

-- `FaultLeader::finish`; `none` is a leader that is dropped before it finished.
unfoldable pub finish : (generation : ℕ) → Option FaultResult → FaultState → Run FaultState
unfolding complete from_result
finish generation (some result) s = complete generation (from_result result) s
finish generation none s = complete generation (failure replay_contended) s
