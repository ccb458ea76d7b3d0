-- ===== src/Latch.antt =====
-- crates/tierbuf/src/latch.rs: the hybrid latch. Its word holds a 48-bit version above a 16-bit
-- lock state, so the masks and shifts of the source are `% 2 ^ 16`, `/ 2 ^ 16` and `* 2 ^ 16`.
pub mod System
pub mod Invariant
pub mod Safety
mod Tests
use tierbuf.Prelude.{
  ℕ, ◌+◌, ◌-◌, ◌*◌, ◌/◌, ◌%◌, ◌^◌, ◌≤◌, Bool, true, false, not, ◌&&◌, Option, none, some, ltb, leb,
  ◌==◌, if◌then◌else◌,
}

abbrev pub version_mask : ℕ
version_mask = 2 ^ 48 - 1

-- `u16::MAX`
abbrev pub exclusive_state : ℕ
exclusive_state = 2 ^ 16 - 1

abbrev pub max_shared : ℕ
max_shared = exclusive_state - 1

abbrev pub spin_limit : ℕ
spin_limit = 64

unfoldable pub state : ℕ → ℕ
state word = word % 2 ^ 16

unfoldable pub version : ℕ → ℕ
version word = word / 2 ^ 16

unfoldable pub with_state : ℕ → ℕ → ℕ
with_state word new_state = word / 2 ^ 16 * 2 ^ 16 + new_state

unfoldable pub pack : ℕ → ℕ → ℕ
pack version state = version % 2 ^ 48 * 2 ^ 16 + state

unfoldable pub new : ℕ
new = 0

-- `none` is `Err(Contended)`.
unfoldable pub optimistic : ℕ → Option ℕ
unfolding state version
optimistic word = if state word == exclusive_state then none else some (version word)

unfoldable pub validate : ℕ → ℕ → Bool
unfolding state version
validate snapshot word =
    if ltb version_mask snapshot
    then false
    else (not (state word == exclusive_state) && (version word == snapshot))

-- A compare-and-exchange of the word; a weak one may fail although the word is as expected, which
-- `spurious` chooses. The result says whether it was done.
abbrev pub exchange : (spurious : Bool) → (current desired word : ℕ) → ℕ × Bool
exchange true current desired word = (word, false)
exchange false current desired word = if word == current then (desired, true) else (word, false)

-- `try_lock_shared_once`, after it loaded `current`.
unfoldable pub try_lock_shared_once : (spurious : Bool) → (current word : ℕ) → ℕ × Bool
unfolding state
try_lock_shared_once spurious current word =
    if leb max_shared (state current)
    then (word, false)
    else exchange spurious current (current + 1) word

-- One round of `lock_exclusive`, after it loaded `current`.
unfoldable pub lock_exclusive_once : (spurious : Bool) → (current word : ℕ) → ℕ × Bool
unfolding state with_state
lock_exclusive_once spurious current word =
    if state current == 0
    then exchange spurious current (with_state current exclusive_state) word
    else (word, false)

-- `try_upgrade`, after it loaded `current`.
unfoldable pub try_upgrade : (current word : ℕ) → ℕ × Bool
unfolding state with_state
try_upgrade current word =
    if state current == 1
    then exchange false current (with_state current exclusive_state) word
    else (word, false)

-- `fetch_sub(1)` wraps.
unfoldable pub release_shared : ℕ → ℕ
release_shared word = (word + 2 ^ 64 - 1) % 2 ^ 64

-- The word that `release_exclusive` stores, after it loaded `current`.
unfoldable pub release_exclusive : ℕ → ℕ
unfolding version pack
release_exclusive current = pack ((version current + 1) % 2 ^ 64 % 2 ^ 48) 0

-- `Backoff::snooze`: the new count of attempts, and whether the thread yields.
unfoldable pub snooze : ℕ → ℕ × Bool
snooze attempts = if ltb attempts spin_limit then (attempts + 1, false) else (attempts, true)
