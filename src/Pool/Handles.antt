-- ===== src/Pool/Handles.antt =====
-- crates/tierbuf/src/pool.rs: how the manager tells which handle, frame and ticket belong together,
-- and its page identifiers.
pub mod Exact
use tierbuf.Prelude.{
  ℕ, ◌+◌, Bool, true, false, not, ◌&&◌, ◌||◌, Option, none, some, List, [], ltb, leb, ◌==◌,
  if◌then◌else◌, Run, done, panicked, ◌>>=◌, ◌>>◌,
}
use tierbuf.Swip.{
  SwipState, hot, cooling, evicted, SwipInner, max_pid, new_page_id, load, belongs_to,
}
use tierbuf.Frame.{Frame, frame_pid}
use tierbuf.Frame.Table.{Layout, resident_addr}
use tierbuf.Cooling.{CoolingTicket}
use tierbuf.Fault.{invalid_page, duplicate_handle, invalid_config}
use tierbuf.Tier.Budget.{Round, declined, stored, retry, try_update_once}
use tierbuf.Pool.Backend.{Result, ok, err}

-- What the checks read. Clones of a handle share one cell, so that cells stand for handles; `pages`
-- names the cell of each page's canonical handle.
pub record View : Type 0 where
  pub id : ℕ
  pub layout : Layout
  pub frame_count : ℕ
  pub frames : ℕ → Frame
  pub cells : ℕ → SwipInner
  pub pages : ℕ → Option ℕ

abbrev pub contains_key : Option ℕ → Bool
contains_key none = false
contains_key (some _) = true

unfoldable pub validate_handle : View → (cell : ℕ) → Result ℕ
validate_handle v cell =
    let swip = v.cells cell in
    if belongs_to v.id swip
    then ok swip.pid
    else if contains_key (v.pages swip.pid)
    then err (duplicate_handle swip.pid)
    else err (invalid_page swip.pid)

-- `Option<&T>::is_some_and(|owner| owner.shares_state_with(..))`
abbrev pub is_cell : ℕ → Option ℕ → Bool
is_cell cell none = false
is_cell cell (some other) = other == cell

abbrev is_resident : ℕ → SwipState → Bool
is_resident resident (hot observed) = observed == resident
is_resident resident (cooling observed) = observed == resident
is_resident resident (evicted _) = false

unfoldable pub resident_is_exact : View → (cell pid resident : ℕ) → Frame → Run Bool
resident_is_exact v cell pid resident f = do
  state ← load (v.cells cell)
  named ← frame_pid f
  done (is_resident resident state && (named == pid && is_cell cell f.owner_swip))

abbrev pub is_cooling_at : ℕ → SwipState → Bool
is_cooling_at resident (cooling observed) = observed == resident
is_cooling_at resident _ = false

unfoldable pub owner_of : View → CoolingTicket → Option ℕ → Run (Option ℕ)
owner_of v ticket none = done none
owner_of v ticket (some owner) = do
  state ← load (v.cells owner)
  done (
      if not ((v.cells owner).pid == ticket.pid) || not (is_cooling_at ticket.resident state)
      then none
      else if is_cell owner (v.pages ticket.pid)
      then some owner
      else none)

-- The checks of the frame's page and generation, and what follows them.
unfoldable pub occupant_of : View → CoolingTicket → (named : ℕ) → Run (Option ℕ)
occupant_of v ticket named =
    if not (named == ticket.pid)
      || not ((v.frames ticket.frame_index).generation == ticket.generation)
    then done none
    else owner_of v ticket (v.frames ticket.frame_index).owner_swip

-- The check of the address, and what follows it.
unfoldable pub frame_at : View → CoolingTicket → (address : ℕ) → Run (Option ℕ)
frame_at v ticket address =
    if not (address == ticket.resident)
    then done none
    else (frame_pid (v.frames ticket.frame_index) >>= occupant_of v ticket)

unfoldable pub exact_cooling_owner : View → CoolingTicket → Run (Option ℕ)
exact_cooling_owner v ticket =
    if leb v.frame_count ticket.frame_index
    then done none
    else (resident_addr v.layout v.frame_count ticket.frame_index >>= frame_at v ticket)

-- `(current <= PageId::MAX).then_some(current + 1)`
unfoldable pub next_page : ℕ → Option ℕ
next_page current = if leb current max_pid then some (current + 1) else none

abbrev page_of : ℕ → Option ℕ → Result ℕ
page_of raw none = err (invalid_page raw)
page_of raw (some pid) = ok pid

abbrev named_page : Round → Result ℕ
named_page (stored raw) = page_of raw (new_page_id raw)
named_page _ = err (invalid_config [])

-- A call of `allocate_pid` that nothing disturbs, on the value of `next_pid`.
unfoldable pub allocate_pid : ℕ → ℕ × Result ℕ
allocate_pid next =
    let (next', round) = try_update_once next_page false next next in (next', named_page round)
