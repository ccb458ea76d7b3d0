-- ===== src/Frame.antt =====
-- crates/tierbuf/src/frame.rs: the metadata of one resident frame. Its control word holds an
-- eviction mark in bit 31 and the pin count below it, so the masks are `/ 2 ^ 31` and `% 2 ^ 31`.
pub mod Pins
pub mod Queue
pub mod Table
mod Tests
use tierbuf.Prelude.{
  ℕ, ◌+◌, ◌-◌, ◌/◌, ◌%◌, ◌^◌, ◌<◌, Bool, true, false, not, ◌||◌, ◌&&◌, Option, none, some, ltb,
  ◌==◌, if◌then◌else◌, Run, done, panicked, ◌>>=◌, ◌>>◌, assert,
}
use tierbuf.Swip.{invalid_pid, is_valid, new_page_id}
use tierbuf.Latch.{lock_exclusive_once, release_exclusive}

abbrev pub evicting : ℕ
evicting = 2 ^ 31

abbrev pub pin_count_mask : ℕ
pin_count_mask = evicting - 1

-- How a round of `try_pin` ends; a failed exchange hands on the word that it saw.
pub data PinRound : Type 0 where
  refused : PinRound
  pinned : PinRound
  retry : (observed : ℕ) → PinRound

-- One round of the loop of `try_pin`, on the word that was observed last.
unfoldable pub try_pin_once : (spurious : Bool) → (current word : ℕ) → ℕ × PinRound
try_pin_once spurious current word =
    if not (current / 2 ^ 31 % 2 == 0) || current == pin_count_mask
    then (word, refused)
    else if not spurious && (word == current)
    then (current + 1, pinned)
    else (word, retry word)

abbrev pub is_pinned : PinRound → Bool
is_pinned pinned = true
is_pinned _ = false

-- A call of `try_pin` that nothing disturbs.
unfoldable pub try_pin : ℕ → ℕ × Bool
try_pin word = let (word', round) = try_pin_once false word word in (word', is_pinned round)

-- One round of the loop of `unpin`: `none` ends the loop, else it goes on with what was observed.
unfoldable pub unpin_once : (spurious : Bool) → (current word : ℕ) → Run (ℕ × Option ℕ)
unpin_once spurious current word = do
  assert (current / 2 ^ 31 % 2 == 0)
  assert (ltb 0 current)
  done (if not spurious && (word == current) then (current - 1, none) else (word, some word))

-- A call of `unpin` that nothing disturbs.
unfoldable pub unpin : ℕ → Run ℕ
unpin word = do (word', again) ← unpin_once false word word; done word'

unfoldable pub pin_count : ℕ → ℕ
pin_count word = word % 2 ^ 31

unfoldable pub is_evicting : ℕ → Bool
is_evicting word = word == evicting

unfoldable pub try_claim_eviction : ℕ → ℕ × Bool
try_claim_eviction word = if word == 0 then (evicting, true) else (word, false)

unfoldable pub release_eviction : ℕ → Run ℕ
release_eviction word = if word == evicting then done 0 else panicked

unfoldable pub publish_reserved_pin : ℕ → Run ℕ
publish_reserved_pin word = if word == evicting then done 1 else panicked

-- `owner_swip` names the shared cell of the stored handle; the latch is its word.
pub record Frame : Type 0 where
  pub latch : ℕ
  pub pid : ℕ
  pub owner_swip : Option ℕ
  pub dirty : Bool
  pub heat_epoch : ℕ
  pub generation : ℕ
  pub pin_control : ℕ

unfoldable pub new_frame : Frame
new_frame = record {
  latch = 0;
  pid = invalid_pid;
  owner_swip = none;
  dirty = false;
  heat_epoch = 0;
  generation = 0;
  pin_control = 0;
}

expect_pid : Option ℕ → Run ℕ
expect_pid none = panicked
expect_pid (some pid) = done pid

-- `Frame::pid`
unfoldable pub frame_pid : Frame → Run ℕ
unfolding expect_pid
frame_pid f = if f.pid == invalid_pid then done invalid_pid else expect_pid (new_page_id f.pid)

-- What an exclusive section leaves of the latch word, from the free word at which it was acquired.
unfoldable pub exclusive_section : ℕ → ℕ
exclusive_section word = release_exclusive (lock_exclusive_once false word word).0

-- The frame and the new generation. The latch is waited for; what is modelled is the section.
unfoldable pub install : ℕ → ℕ → Frame → Run (Frame × ℕ)
install pid owner f = do
  assert (is_valid pid)
  assert (f.pin_control == evicting)
  let generation = (f.generation + 1) % 2 ^ 32
  done (
    record f {
      latch = exclusive_section f.latch;
      owner_swip = some owner;
      dirty = false;
      heat_epoch = 0;
      generation = generation;
      pid = pid;
    },
    generation,
  )

unfoldable pub clear_after_eviction : Frame → Run Frame
clear_after_eviction f = do
  assert (is_evicting f.pin_control)
  done (record f {
    latch = exclusive_section f.latch;
    pid = invalid_pid;
    owner_swip = none;
    dirty = false;
    heat_epoch = 0;
  })

-- `clear_unpublished_frame` of pool.rs, on a frame whose first pin was removed.
unfoldable pub clear_unpublished : Frame → Run Frame
clear_unpublished f = do
  let (claimed, won) = try_claim_eviction f.pin_control
  assert won
  cleared ← clear_after_eviction (record f { pin_control = claimed })
  released ← release_eviction cleared.pin_control
  done (record cleared { pin_control = released })
