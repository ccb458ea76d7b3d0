-- ===== src/Tier/Mock.antt =====
-- `MockTier` of crates/tierbuf/src/tier/mock.rs: pages in a map, a stack of freed offsets, and one
-- read to fail. The mutex makes each call one step; the sleeps that stand for latency, the name and
-- the price are not modelled.
pub mod Slots
pub mod Device
pub mod Answers
pub mod Reads
pub mod Runs
mod Tests
use tierbuf.Prelude.{
  ℕ, ◌+◌, ◌-◌, ◌*◌, ◌/◌, ◌%◌, ◌^◌, min, Bool, true, false, not, ◌&&◌, ◌||◌, Option, none, some,
  List, [], ◌∷◌, length, ltb, leb, ◌==◌, if◌then◌else◌, Run, done, ◌>>=◌, ◌>>◌, assert, HashMap,
  get, insert, remove,
}
use tierbuf.Tier.Disk.{invalid_input, not_found, storage_full, other, IoResult, ok, err, Buffer}
use tierbuf.Tier.File.{page_size, is_valid_capacity}

-- The head of `free_slots` is the end of the `Vec`.
pub record MockState : Type 0 where
  pub pages : HashMap Buffer
  pub free_slots : List ℕ
  pub next_slot : ℕ
  pub read_attempts : ℕ
  pub fail_read_at : Option ℕ

pub record MockTier : Type 0 where
  pub capacity_bytes : ℕ
  pub slot_count : ℕ
  pub state : MockState

abbrev pub empty_state : MockState
empty_state = record {
  pages = [];
  free_slots = [];
  next_slot = 0;
  read_attempts = 0;
  fail_read_at = none;
}

unfoldable pub new_mock : (capacity : ℕ) → IoResult MockTier
new_mock capacity =
    if capacity == 0 || not (capacity % page_size == 0)
    then err invalid_input
    else ok (record {
      capacity_bytes = capacity;
      slot_count = capacity / page_size;
      state = empty_state;
    })

abbrev pub with_state : MockTier → MockState → MockTier
with_state t s = record t { state = s }

-- `nth == Some(0)`
unfoldable pub is_attempt : (nth : Option ℕ) → ℕ → Bool
is_attempt none n = false
is_attempt (some m) n = m == n

unfoldable pub fail_nth_read : (nth : Option ℕ) → MockTier → MockTier × IoResult (Unit {0})
fail_nth_read nth t =
    if is_attempt nth 0
    then (t, err invalid_input)
    else (with_state t (record t.state { read_attempts = 0; fail_read_at = nth }), ok tt)

unfoldable pub validate_location : MockTier → ℕ → Bool
validate_location t location = location % page_size == 0 && ltb location t.capacity_bytes

unfoldable pub saturating_inc : ℕ → ℕ
saturating_inc n = min (n + 1) (2 ^ 64 - 1)

-- `buffer.copy_from_slice(page)`, or the error of a missing page.
unfoldable pub copied : Buffer → Option Buffer → Buffer × IoResult (Unit {0})
copied buffer none = (buffer, err not_found)
copied buffer (some page) = (record buffer { byte = page.byte }, ok tt)

unfoldable pub read_attempt :
    (location : ℕ) → Buffer → MockState → MockState × (Buffer × IoResult (Unit {0}))
read_attempt location buffer s =
    let attempts = saturating_inc s.read_attempts in
    if is_attempt s.fail_read_at attempts
    then (record s { read_attempts = attempts; fail_read_at = none }, (buffer, err other))
    else (record s { read_attempts = attempts }, copied buffer (get location s.pages))

unfoldable pub read : (location : ℕ) → Buffer → MockTier → MockTier × (Buffer × IoResult (Unit {0}))
read location buffer t =
    if not (buffer.size == page_size)
    then (t, (buffer, err invalid_input))
    else if not (validate_location t location)
    then (t, (buffer, err invalid_input))
    else (let (s, r) = read_attempt location buffer t.state in (with_state t s, r))

-- The offset that a write takes.
unfoldable pub take_offset : (slot_count : ℕ) → MockState → MockState × IoResult ℕ
take_offset slot_count s = elim s.free_slots [
  | reused ∷ rest ↦ (record s { free_slots = rest }, ok reused)
  | [] ↦
      if ltb s.next_slot slot_count
      then (if leb (2 ^ 64) (s.next_slot * page_size)
          then (s, err other)
          else (record s { next_slot = s.next_slot + 1 }, ok (s.next_slot * page_size)))
      else (s, err storage_full)
]

abbrev pub is_vacant : Option Buffer → Bool
is_vacant none = true
is_vacant (some _) = false

unfoldable pub store : Buffer → MockTier → MockState × IoResult ℕ → Run (MockTier × IoResult ℕ)
store buffer t (s, err kind) = done (with_state t s, err kind)
store buffer t (s, ok location) =
    assert (is_vacant (get location s.pages))
    >> done (with_state t (record s { pages = insert location buffer s.pages }), ok location)

unfoldable pub write : Buffer → MockTier → Run (MockTier × IoResult ℕ)
write buffer t =
    if not (buffer.size == page_size)
    then done (t, err invalid_input)
    else store buffer t (take_offset t.slot_count t.state)

unfoldable pub release : (location : ℕ) → MockState → Option Buffer → MockState
release location s none = s
release location s (some _) = record s {
  pages = remove location s.pages;
  free_slots = location ∷ s.free_slots;
}

unfoldable pub free : (location : ℕ) → MockTier → MockTier
free location t =
    if not (validate_location t location)
    then t
    else with_state t (release location t.state (get location t.state.pages))

unfoldable pub used_bytes : MockTier → ℕ
used_bytes t = length t.state.pages * page_size
