-- ===== src/Swip.antt =====
-- crates/tierbuf/src/swip.rs: page identifiers, resident addresses, and the tagged 64-bit word of
-- a page handle. A shift left by two is `* 4`, the mask of the two tag bits is `% 4`.
pub mod Words
pub mod Codes
pub mod Machine
pub mod Refinement
pub mod Edges
mod Tests
use tierbuf.Prelude.{
  ℕ, ◌+◌, ◌-◌, ◌*◌, ◌/◌, ◌%◌, ◌^◌, Bool, true, false, not, ◌&&◌, Option, none, some, leb, ◌==◌,
  if◌then◌else◌, Run, done, panicked, ◌>>=◌, ◌>>◌, assert,
}

abbrev pub tag_evicted : ℕ
tag_evicted = 1

abbrev pub tag_cooling : ℕ
tag_cooling = 2

-- `u64::MAX >> 2`
abbrev pub page_id_mask : ℕ
page_id_mask = (2 ^ 64 - 1) / 4

abbrev pub invalid_pid : ℕ
invalid_pid = page_id_mask

abbrev pub max_pid : ℕ
max_pid = page_id_mask - 1

unfoldable pub new_page_id : ℕ → Option ℕ
new_page_id value = if leb value max_pid then some value else none

unfoldable pub is_valid : ℕ → Bool
is_valid pid = leb pid max_pid

-- `ResidentAddr::from_non_null`, from the exposed address of the pointer.
unfoldable pub from_non_null : ℕ → Run ℕ
from_non_null address = do assert (not (address == 0)); assert (address % 4 == 0); done address

-- `ResidentAddr::from_encoded`
unfoldable pub from_encoded : ℕ → Run ℕ
from_encoded encoded = do assert (not (encoded == 0)); assert (encoded % 4 == 0); done encoded

pub data SwipState : Type 0 where
  hot : ℕ → SwipState
  cooling : ℕ → SwipState
  evicted : ℕ → SwipState

unfoldable pub encode_evicted : ℕ → Run ℕ
unfolding is_valid
encode_evicted pid = do assert (is_valid pid); done (pid * 4 % 2 ^ 64 + tag_evicted)

unfoldable pub encode_hot : ℕ → ℕ
encode_hot resident = resident

-- `resident | 0b10`
unfoldable pub encode_cooling : ℕ → ℕ
encode_cooling resident = if resident / 2 % 2 == 0 then resident + tag_cooling else resident

decode_resident : (ℕ → SwipState) → ℕ → Run SwipState
unfolding from_encoded
decode_resident state encoded = from_encoded encoded >>= λ resident. done (state resident)

decode_evicted : ℕ → Run SwipState
unfolding is_valid
decode_evicted pid = do assert (is_valid pid); done (evicted pid)

unfoldable pub decode : ℕ → Run SwipState
unfolding decode_resident decode_evicted
decode encoded =
    if encoded % 4 == 0
    then decode_resident hot encoded
    else if encoded % 4 == tag_cooling
    then decode_resident cooling (encoded / 4 * 4)
    else if encoded % 4 == tag_evicted
    then decode_evicted (encoded / 4)
    else panicked

-- `SwipInner`, the heap cell that all clones of a handle share.
pub record SwipInner : Type 0 where
  pub pid : ℕ
  pub owner_id : ℕ
  pub word : ℕ

-- `Result<(), SwipState>`
pub data Swapped : Type 0 where
  swapped : Swapped
  observed : SwipState → Swapped

unfoldable pub from_pid : ℕ → Run SwipInner
from_pid pid = do
  assert (is_valid pid)
  word ← encode_evicted pid
  done (record { pid = pid; owner_id = 0; word = word })

unfoldable pub load : SwipInner → Run SwipState
load s = decode s.word

unfoldable pub try_bind_owner : ℕ → SwipInner → Run (SwipInner × Bool)
try_bind_owner owner s = do
  assert (not (owner == 0))
  done (if s.owner_id == 0 then (record s { owner_id = owner }, true) else (s, false))

unfoldable pub belongs_to : ℕ → SwipInner → Bool
belongs_to owner s = not (owner == 0) && (s.owner_id == owner)

-- One atomic compare-and-exchange; the value that a failed one saw is decoded.
unfoldable pub compare_exchange : ℕ → ℕ → SwipInner → Run (SwipInner × Swapped)
compare_exchange expected replacement s =
    if s.word == expected
    then done (record s { word = replacement }, swapped)
    else (decode s.word >>= λ state. done (s, observed state))

unfoldable pub try_swizzle : ℕ → ℕ → SwipInner → Run (SwipInner × Swapped)
try_swizzle pid resident s = do
  word ← encode_evicted pid
  compare_exchange word (encode_hot resident) s

unfoldable pub try_mark_cooling : ℕ → SwipInner → Run (SwipInner × Swapped)
try_mark_cooling resident s = compare_exchange (encode_hot resident) (encode_cooling resident) s

unfoldable pub try_resurrect : ℕ → SwipInner → Run (SwipInner × Swapped)
try_resurrect resident s = compare_exchange (encode_cooling resident) (encode_hot resident) s

unfoldable pub try_unswizzle : ℕ → ℕ → SwipInner → Run (SwipInner × Swapped)
try_unswizzle resident pid s = do
  word ← encode_evicted pid
  compare_exchange (encode_cooling resident) word s
