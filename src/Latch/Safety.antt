-- ===== src/Latch/Safety.antt =====
-- What holds of a latch in every interleaving of its threads.
use tierbuf.Prelude.{
  ℕ, ◌+◌, ◌-◌, ◌%◌, ◌^◌, ◌≤◌, ◌<◌, ◌≡◌, ◌≢◌, ◌↔◌, ◌⊎◌, true, false, some, List, [], ◌∷◌, arith,
  sum_to-ge, sum_to-ge_pair,
}
use tierbuf.Latch.{
  exclusive_state, max_shared, state, optimistic, validate, try_lock_shared_once,
  lock_exclusive_once, try_upgrade,
}
use tierbuf.Latch.System.{
  Hold, shared, idle, exclusive, release_read, Act, begin_shared, begin_exclusive, begin_upgrade,
  attempt, move, owns_exclusive, owns_shared, System, turn, run, start,
}
use tierbuf.Latch.Invariant.{Counts, exclusives, shareds, Inv, IsSchedule, start-Inv, run-Inv}

-- Every state that `n` threads can reach from a new latch.
module _ (n : ℕ) (ts : List (ℕ × Act)) (fair : IsSchedule n ts) where
  abbrev reached : System
  reached = run ts start

  inv : Inv n reached
  inv = run-Inv n ts start fair (start-Inv n)

  -- While one thread owns the exclusive guard, no other thread owns a guard of either kind.
  pub mutual_exclusion :
      (i j : ℕ)
      → i < n
      → j < n
      → i ≢ j
      → owns_exclusive (reached.hold i) ≡ 1
      → (owns_exclusive (reached.hold j) ≡ 0) × (owns_shared (reached.hold j) ≡ 0)
  mutual_exclusion i j lti ltj d o =
      let pair = sum_to-ge_pair owns_exclusive n reached.hold i j d lti ltj in
      let part = sum_to-ge owns_shared n reached.hold j ltj in
      (omega (arith, inv.counts), omega (arith, inv.counts))

  -- The lock state is the number of shared guards, which stays below the exclusive mark, or the
  -- mark, and then exactly one exclusive guard is out.
  state_counts :
      ((exclusives n reached ≡ 0)
        × (state reached.word ≡ shareds n reached)
        × (shareds n reached ≤ max_shared))
      ⊎ ((exclusives n reached ≡ 1)
          × (shareds n reached ≡ 0)
          × (state reached.word ≡ exclusive_state))
  state_counts = inv.counts

  -- No assertion of a release fires: a shared guard is dropped at a state from 1 to `max_shared`, an
  -- exclusive one at the exclusive mark.
  release_asserts :
      (i : ℕ)
      → i < n
      → (owns_shared (reached.hold i) ≡ 1
          → (1 ≤ state reached.word) × (state reached.word ≤ max_shared))
        × ((c : ℕ) → reached.hold i ≡ release_read c → state c ≡ exclusive_state)
  release_asserts i lt =
      let own_shared = sum_to-ge owns_shared n reached.hold i lt in
      let own_exclusive = sum_to-ge owns_exclusive n reached.hold i lt in
      (
        (λ o. (omega (arith, inv.counts), omega (arith, inv.counts))),
        (λ c e. ground (arith, inv.counts, inv.fresh i lt, own_exclusive)),
      )

turn_grows :
    (t : ℕ × Act) (s : System)
    → (s.acquired ≤ (turn t s).acquired) × (s.released ≤ (turn t s).released)
unfolding turn
turn_grows t s = (omega arith, omega arith)

run_grows :
    (ts : List (ℕ × Act)) (s : System)
    → (s.acquired ≤ (run ts s).acquired) × (s.released ≤ (run ts s).released)
unfolding run
run_grows [] s = (omega arith, omega arith)
run_grows (t ∷ ts) s =
    let one = turn_grows t s in let rest = run_grows ts (turn t s) in (omega arith, omega arith)

module _ (n : ℕ) (ts us : List (ℕ × Act)) (fair : IsSchedule n ts) (later : IsSchedule n us)
    (v : ℕ) where
  abbrev snapped : System
  snapped = run ts start

  abbrev checked : System
  checked = run us snapped

  before : Inv n snapped
  before = run-Inv n ts start fair (start-Inv n)

  after : Inv n checked
  after = run-Inv n us snapped later before

  snapshot_free : optimistic snapped.word ≡ some v → snapped.acquired ≡ snapped.released
  unfolding optimistic
  snapshot_free o = ground (arith, before.counts, before.held)

  snapshot_version : optimistic snapped.word ≡ some v → snapped.released % 2 ^ 48 ≡ v
  unfolding optimistic
  snapshot_version o = ground (arith, before.versioned)

  abbrev Unchanged : Type 0
  Unchanged =
      (checked.acquired ≡ checked.released)
      × (checked.released % 2 ^ 48 ≡ snapped.released % 2 ^ 48)

  validate-Unchanged : optimistic snapped.word ≡ some v → validate v checked.word ≡ true → Unchanged
  unfolding validate
  validate-Unchanged o h =
      ground (arith, after.counts, after.held, after.versioned, snapshot_version o)

  Unchanged-validate : optimistic snapped.word ≡ some v → Unchanged → validate v checked.word ≡ true
  unfolding validate
  Unchanged-validate o h =
      ground (arith, after.counts, after.held, after.versioned, snapshot_version o)

  -- A snapshot that was taken validates exactly if no exclusive guard is out and the exclusive
  -- sections completed since are a multiple of 2^48. So with fewer of them than 2^48 it validates
  -- exactly if no exclusive guard was acquired since the snapshot.
  pub validate_iff :
      optimistic snapped.word ≡ some v
      → ((validate v checked.word ≡ true) ↔ (
          (checked.acquired ≡ checked.released)
          × (checked.released % 2 ^ 48 ≡ snapped.released % 2 ^ 48)))
        × (checked.released < snapped.released + 2 ^ 48
            → (validate v checked.word ≡ true) ↔ (checked.acquired ≡ snapped.acquired))
  validate_iff o =
      let grows = run_grows us snapped in
      (
        (validate-Unchanged o, Unchanged-validate o),
        (λ few. (
          (λ ok. let same = validate-Unchanged o ok in omega (arith, snapshot_free o)),
          (λ e. Unchanged-validate o (
            omega (arith, snapshot_free o, after.held),
            omega (arith, snapshot_free o, after.held),
          )),
        )),
      )

-- A thread makes its load and its exchange with no other access between them.
abbrev pub round : Act → ℕ → Hold → ℕ × Hold
round begin w h = let (w', h') = move begin w h in move (attempt false) w' h'

-- What rounds do to a word while `e` exclusive and `s` shared guards are out.
pub record Grants (w e s : ℕ) : Type 0 where
  pub shared_granted : e ≡ 0 → s < max_shared → round begin_shared w idle ≡ (w + 1, shared)
  pub shared_refused : (e ≡ 1) ⊎ (s ≡ max_shared) → round begin_shared w idle ≡ (w, idle)
  pub exclusive_granted :
      e ≡ 0 → s ≡ 0 → round begin_exclusive w idle ≡ (w + exclusive_state, exclusive)
  pub exclusive_refused : 0 < e + s → round begin_exclusive w idle ≡ (w, idle)
  pub upgrade_granted :
      e ≡ 0 → s ≡ 1 → round begin_upgrade w shared ≡ (w + (exclusive_state - 1), exclusive)
  pub upgrade_refused : 1 < s → round begin_upgrade w shared ≡ (w, shared)

Counts-Grants : (w e s : ℕ) → Counts w e s → Grants w e s
unfolding move try_lock_shared_once lock_exclusive_once try_upgrade state
Counts-Grants w e s c = record {
  shared_granted = λ free few. ground arith;
  shared_refused = λ full. ground arith;
  exclusive_granted = λ free none_shared. ground arith;
  exclusive_refused = λ busy. ground arith;
  upgrade_granted = λ free sole. ground arith;
  upgrade_refused = λ others. ground arith;
}

-- Uncontended rounds, in every reachable state: a shared lock is granted exactly if no exclusive
-- guard and fewer than `max_shared` shared ones are out, an exclusive lock exactly if no guard is
-- out, and the upgrade of a shared guard exactly if that guard is the only one; a refused round
-- leaves the word and the caller's guard as they were.
round-Grants :
    (n : ℕ) (ts : List (ℕ × Act))
    → IsSchedule n ts
    → Grants (run ts start).word (exclusives n (run ts start)) (shareds n (run ts start))
round-Grants n ts fair =
    let s = run ts start in
    Counts-Grants s.word (exclusives n s) (shareds n s)
      (run-Inv n ts start fair (start-Inv n)).counts
