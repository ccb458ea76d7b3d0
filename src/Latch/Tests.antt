-- ===== src/Latch/Tests.antt =====
-- Schedules of a latch, and the theorems of `Latch` at concrete inputs.
use tierbuf.Prelude.{
  ℕ, ◌+◌, ◌%◌, ◌^◌, ◌<◌, ◌≡◌, ◌↔◌, refl, true, false, List, [], ◌∷◌, arith, ℕ_discrete,
}
use tierbuf.Latch.{
  new, optimistic, validate, try_lock_shared_once, lock_exclusive_once, release_shared,
  release_exclusive,
}
use tierbuf.Latch.System.{
  exclusive, owns_exclusive, owns_shared, Act, begin_shared, begin_exclusive, attempt, release,
  move, turn, run, start,
}
use tierbuf.Latch.Safety.{mutual_exclusion, validate_iff}

-- Thread 1 reads and leaves; thread 0 locks exclusively while thread 1 tries again.
abbrev contended : List (ℕ × Act)
contended =
    (1, begin_shared)
    ∷ (1, attempt false)
    ∷ (0, begin_exclusive)
    ∷ (0, attempt false)
    ∷ (1, release)
    ∷ (0, begin_exclusive)
    ∷ (1, begin_shared)
    ∷ (0, attempt false)
    ∷ (1, attempt false)
    ∷ []

-- A whole exclusive section of thread 0.
abbrev section : List (ℕ × Act)
section = (0, begin_exclusive) ∷ (0, attempt false) ∷ (0, release) ∷ (0, release) ∷ []

contended_result :
    ((run contended start).word ≡ 0xffff) × ((run contended start).hold 0 ≡ exclusive)
unfolding run turn move start new try_lock_shared_once lock_exclusive_once release_shared ℕ_discrete
contended_result = (refl, refl)

mutual_exclusion_example :
    (owns_exclusive ((run contended start).hold 1) ≡ 0)
    × (owns_shared ((run contended start).hold 1) ≡ 0)
unfolding run turn move start new try_lock_shared_once lock_exclusive_once release_shared ℕ_discrete
mutual_exclusion_example =
    mutual_exclusion 2 contended (omega arith) 0 1 (omega arith) (omega arith) (omega arith) refl

validate_iff_example :
    let s = run section start in
    let t = run section s in
    ((validate 1 t.word ≡ true)
      ↔ ((t.acquired ≡ t.released) × (t.released % 2 ^ 48 ≡ s.released % 2 ^ 48)))
    × (t.released < s.released + 2 ^ 48 → (validate 1 t.word ≡ true) ↔ (t.acquired ≡ s.acquired))
unfolding run turn move start new lock_exclusive_once release_exclusive optimistic ℕ_discrete
validate_iff_example = validate_iff 1 section section (omega arith) (omega arith) 1 refl
