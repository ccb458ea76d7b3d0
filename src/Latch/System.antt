-- ===== src/Latch/System.antt =====
-- Threads that use one latch, interleaved in any order at the grain of its atomic accesses.
use tierbuf.Prelude.{ℕ, ◌+◌, Bool, List, [], ◌∷◌, update, ltb, if◌then◌else◌}
use tierbuf.Latch.{
  new, try_lock_shared_once, lock_exclusive_once, try_upgrade, release_shared, release_exclusive,
}

-- Where a thread stands: the guard that it owns, and the word that it has loaded.
pub data Hold : Type 0 where
  idle : Hold
  shared_read : (current : ℕ) → Hold  -- in `lock_shared`
  exclusive_read : (current : ℕ) → Hold  -- in `lock_exclusive`
  shared : Hold  -- owns a `SharedRaw`
  upgrade_read : (current : ℕ) → Hold  -- in `try_upgrade`, owns a `SharedRaw`
  exclusive : Hold  -- owns an `ExclusiveRaw`
  release_read : (current : ℕ) → Hold  -- in `release_exclusive`

-- The next access of a thread: the load that opens a call, the exchange that follows a load (a weak
-- one may fail spuriously), or the drop of its guard.
pub data Act : Type 0 where
  begin_shared begin_exclusive begin_upgrade : Act
  attempt : (spurious : Bool) → Act
  release : Act

-- A round that fails goes back to the head of its loop; a failed upgrade returns the shared guard.
abbrev pub won : Hold → Hold → ℕ × Bool → ℕ × Hold
won yes_hold no_hold (word, done) = (word, if done then yes_hold else no_hold)

-- One access of a thread. An act that does not fit the thread's place does nothing.
unfoldable pub move : Act → ℕ → Hold → ℕ × Hold
move begin_shared w idle = (w, shared_read w)
move begin_exclusive w idle = (w, exclusive_read w)
move begin_upgrade w shared = (w, upgrade_read w)
move (attempt spurious) w (shared_read c) = won shared idle (try_lock_shared_once spurious c w)
move (attempt spurious) w (exclusive_read c) = won exclusive idle (lock_exclusive_once spurious c w)
move (attempt spurious) w (upgrade_read c) = won exclusive shared (try_upgrade c w)
move release w shared = (release_shared w, idle)
move release w exclusive = (w, release_read w)
move release w (release_read c) = (release_exclusive c, idle)
move _ w h = (w, h)

abbrev pub owns_exclusive : Hold → ℕ
owns_exclusive exclusive = 1
owns_exclusive (release_read _) = 1
owns_exclusive _ = 0

abbrev pub owns_shared : Hold → ℕ
owns_shared shared = 1
owns_shared (upgrade_read _) = 1
owns_shared _ = 0

-- The word and the threads, with two counts that the program does not keep: exclusive holds
-- acquired, and exclusive holds released.
pub record System : Type 0 where
  pub word : ℕ
  pub hold : ℕ → Hold
  pub acquired : ℕ
  pub released : ℕ

abbrev pub gained : ℕ → ℕ → ℕ
gained before after = if ltb before after then 1 else 0

-- Thread `i` makes its next access.
unfoldable pub turn : ℕ × Act → System → System
turn (i, act) s =
    let (word', hold') = move act s.word (s.hold i) in
    record {
      word = word';
      hold = update s.hold i hold';
      acquired = s.acquired + gained (owns_exclusive (s.hold i)) (owns_exclusive hold');
      released = s.released + gained (owns_exclusive hold') (owns_exclusive (s.hold i));
    }

unfoldable pub run : List (ℕ × Act) → System → System
run [] s = s
run (t ∷ ts) s = run ts (turn t s)

unfoldable pub start : System
start = record { word = new; hold = λ _. idle; acquired = 0; released = 0 }
