-- ===== src/Tier/File.antt =====
-- `FileTier` of crates/tierbuf/src/tier/file.rs: fixed slots in one file. The mutex makes each call
-- one step. Opening and sizing the backing file, and the policy metadata, are not modelled.
pub mod Slots
pub mod Pages
pub mod Writes
pub mod Calls
pub mod Reads
mod Tests
use tierbuf.Prelude.{
  ℕ, suc, zero, ◌+◌, ◌-◌, ◌*◌, ◌/◌, ◌%◌, ◌^◌, Bool, true, false, not, ◌&&◌, ◌||◌, Option, none,
  some, List, [], ◌∷◌, ltb, leb, ◌==◌, if◌then◌else◌, update,
}
use tierbuf.Tier.Disk.{
  IoKind, invalid_input, not_found, storage_full, other, IoResult, ok, err, Syscall, Buffer,
  write_all_at, read_exact_at,
}

abbrev pub page_size : ℕ
page_size = 65536

-- `allocated` has `slot_count` elements; the head of `free_slots` is the end of the `Vec`.
pub record SlotState : Type 0 where
  pub slot_count : ℕ
  pub allocated : ℕ → Bool
  pub free_slots : List ℕ
  pub next_slot : ℕ
  pub used_slots : ℕ

pub record FileTier : Type 0 where
  pub file : ℕ → ℕ
  pub capacity_bytes : ℕ
  pub direct_io_active : Bool
  pub state : SlotState

-- The test of the capacity in `validate_config`.
unfoldable pub is_valid_capacity : ℕ → Bool
is_valid_capacity capacity = not (capacity == 0 || not (capacity % page_size == 0))

-- What `open` makes of a backing file of the configured capacity.
unfoldable pub open_tier : (file : ℕ → ℕ) → (capacity : ℕ) → (direct : Bool) → IoResult FileTier
open_tier file capacity direct =
    if is_valid_capacity capacity
    then ok (record {
      file = file;
      capacity_bytes = capacity;
      direct_io_active = direct;
      state = record {
        slot_count = capacity / page_size;
        allocated = λ _. false;
        free_slots = [];
        next_slot = 0;
        used_slots = 0;
      };
    })
    else err invalid_input

unfoldable pub slot_for_location : FileTier → ℕ → IoResult ℕ
slot_for_location t offset =
    if not (offset % page_size == 0) || leb t.capacity_bytes offset
    then err invalid_input
    else ok (offset / page_size)

-- With direct I/O the transfer goes through an aligned copy of the page.
abbrev zeroed_page : Buffer
zeroed_page = record { size = page_size; byte = λ _. 0 }

copied_back : Buffer → Option (Buffer × IoResult (Unit {0})) → Option (Buffer × IoResult (Unit {0}))
copied_back buffer none = none
copied_back buffer (some (aligned, ok _)) = some (record buffer { byte = aligned.byte }, ok tt)
copied_back buffer (some (aligned, err kind)) = some (buffer, err kind)

unfoldable pub read_page :
    List Syscall → FileTier → (offset : ℕ) → Buffer → Option (Buffer × IoResult (Unit {0}))
unfolding copied_back
read_page calls t offset buffer =
    if t.direct_io_active
    then copied_back buffer (read_exact_at calls t.file offset 0 zeroed_page)
    else read_exact_at calls t.file offset 0 buffer

unfoldable pub write_page :
    List Syscall → FileTier → (offset : ℕ) → Buffer → Option ((ℕ → ℕ) × IoResult (Unit {0}))
write_page calls t offset buffer =
    if t.direct_io_active
    then write_all_at calls (record zeroed_page { byte = buffer.byte }) offset 0 t.file
    else write_all_at calls buffer offset 0 t.file

read_slot :
    List Syscall → FileTier → ℕ → Buffer → IoResult ℕ → Option (Buffer × IoResult (Unit {0}))
read_slot calls t location buffer (err kind) = some (buffer, err kind)
read_slot calls t location buffer (ok slot) =
    if not (t.state.allocated slot)
    then some (buffer, err not_found)
    else read_page calls t location buffer

-- `none` is a call that has not returned when the system calls are used up.
unfoldable pub read :
    List Syscall → FileTier → (location : ℕ) → Buffer → Option (Buffer × IoResult (Unit {0}))
unfolding read_slot
read calls t location buffer =
    if not (buffer.size == page_size)
    then some (buffer, err invalid_input)
    else read_slot calls t location buffer (slot_for_location t location)

-- The slot that a write takes, and the slots that stay free if it takes a freed one.
unfoldable pub choose_slot : SlotState → Option (ℕ × Option (List ℕ))
choose_slot s = elim s.free_slots [
  | [] ↦ if ltb s.next_slot s.slot_count then some (s.next_slot, none) else none
  | slot ∷ rest ↦ some (slot, some rest)
]

unfoldable pub take_slot : ℕ → Option (List ℕ) → SlotState → SlotState
take_slot slot none s = record s {
  next_slot = s.next_slot + 1;
  allocated = update s.allocated slot true;
  used_slots = s.used_slots + 1;
}
take_slot slot (some rest) s = record s {
  free_slots = rest;
  allocated = update s.allocated slot true;
  used_slots = s.used_slots + 1;
}

written :
    FileTier
    → (slot : ℕ) → Option (List ℕ)
    → Option ((ℕ → ℕ) × IoResult (Unit {0}))
    → Option (FileTier × IoResult ℕ)
written t slot rest none = none
written t slot rest (some (file, err kind)) = some (record t { file = file }, err kind)
written t slot rest (some (file, ok _)) =
    some (record t { file = file; state = take_slot slot rest t.state }, ok (slot * page_size))

write_slot :
    List Syscall → FileTier → Buffer → Option (ℕ × Option (List ℕ)) → Option (FileTier × IoResult ℕ)
unfolding written
write_slot calls t buffer none = some (t, err storage_full)
write_slot calls t buffer (some (slot, rest)) =
    if leb (2 ^ 64) (slot * page_size)
    then some (t, err other)
    else written t slot rest (write_page calls t (slot * page_size) buffer)

unfoldable pub write : List Syscall → FileTier → Buffer → Option (FileTier × IoResult ℕ)
unfolding write_slot
write calls t buffer =
    if not (buffer.size == page_size)
    then some (t, err invalid_input)
    else write_slot calls t buffer (choose_slot t.state)

free_slot : FileTier → IoResult ℕ → FileTier
free_slot t (err _) = t
free_slot t (ok slot) =
    if t.state.allocated slot
    then record t {
      state = record t.state {
        allocated = update t.state.allocated slot false;
        free_slots = slot ∷ t.state.free_slots;
        used_slots = t.state.used_slots - 1;
      };
    }
    else t

unfoldable pub free : (location : ℕ) → FileTier → FileTier
unfolding free_slot
free location t = free_slot t (slot_for_location t location)

unfoldable pub used_bytes : FileTier → ℕ
used_bytes t = t.state.used_slots * page_size
