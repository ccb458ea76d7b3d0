-- ===== src/Pool/Eviction.antt =====
-- `evict_ticket` of crates/tierbuf/src/pool.rs from its second check on, when it holds the frame's
-- reservation and latch, to the point where the frame can return to the free queue.
pub mod WriteBack
pub mod Settlement
pub mod Exchange
pub mod Contents
use tierbuf.Prelude.{
  ℕ, suc, zero, ◌+◌, ◌-◌, ◌*◌, Bool, true, false, not, ◌&&◌, ◌||◌, Option, none, some, List, ltb,
  ◌==◌, if◌then◌else◌, update, Run, done, panicked, ◌>>=◌, ◌>>◌, assert,
}
use tierbuf.Swip.{SwipInner, Swapped, swapped, observed, try_resurrect, try_unswizzle}
use tierbuf.Frame.{Frame, clear_after_eviction, release_eviction}
use tierbuf.Tier.Budget.{WriteBudget, try_consume}
use tierbuf.Tier.File.{page_size}
use tierbuf.Fault.{BufError, tier_exhausted}
use tierbuf.Pool.Backend.{TierBackend, Result, ok, err, Location, location_eq}

pub data EvictionOutcome : Type 0 where
  freed busy stale : EvictionOutcome

pub record Storage (T : TierBackend) : Type 0 where
  pub tiers : ℕ → T.State
  pub budgets : ℕ → Option WriteBudget
  pub directory : ℕ → Option Location

-- The budget after one page was asked of it, and whether the write may go on.
unfoldable pub charge : Option WriteBudget → Option WriteBudget × Bool
charge none = (none, true)
charge (some b) = let (b', granted) = try_consume page_size b in (some b', granted)

abbrev pub is_none : {A : Type 0} → Option A → Bool
is_none none = true
is_none (some _) = false

-- The storage, the new location, and the last error.
abbrev pub Written : TierBackend → Type 0
Written T = Storage T × Option Location × Option BufError

-- What the eviction leaves: the storage, the frame and the cell of the handle.
abbrev pub Evicted : TierBackend → Type 0
Evicted T = Storage T × Frame × SwipInner × Result EvictionOutcome

module _ (T : TierBackend) (tier_count : ℕ) (name : ℕ → List ℕ) where
  unfoldable pub tried :
      (index : ℕ)
      → (next : Option BufError → Storage T → Written T) → (last_error : Option BufError)
      → Storage T
      → T.State × Result ℕ
      → Written T
  tried index next last_error s (t, ok offset) = (
    record s { tiers = update s.tiers index t },
    some (record { tier_index = index; offset = offset }),
    last_error,
  )
  tried index next last_error s (t, err e) =
      next (some e) (record s { tiers = update s.tiers index t })

  unfoldable pub charged :
      (index : ℕ)
      → (next : Option BufError → Storage T → Written T) → T.Page
      → (last_error : Option BufError) → Storage T
      → Option WriteBudget × Bool
      → Written T
  charged index next page last_error s (budget, false) =
      next (some (tier_exhausted (name index)))
        (record s { budgets = update s.budgets index budget })
  charged index next page last_error s (budget, true) =
      tried index next last_error (record s { budgets = update s.budgets index budget })
        (T.write page (s.tiers index))

  -- `for tier_index in start..self.tiers.len()`, with the number of rounds that are left.
  unfoldable pub write_back :
      (rounds index : ℕ) → T.Page → (last_error : Option BufError) → Storage T → Written T
  write_back zero index page last_error s = (s, none, last_error)
  write_back (suc n) index page last_error s =
      charged index (write_back n (index + 1) page) page last_error s (charge (s.budgets index))

  unfoldable pub free_at : Location → Storage T → Storage T
  free_at l s = record s {
    tiers = update s.tiers l.tier_index (T.free l.offset (s.tiers l.tier_index));
  }

  -- `directory.insert(pid, location)` and `directory.restore(pid, previous)`.
  unfoldable pub restore : (pid : ℕ) → Option Location → Storage T → Storage T
  restore pid location s = record s { directory = update s.directory pid location }

  -- The start of the loop, from the policy's answer.
  unfoldable pub first_tier : (demotion_target : Option ℕ) → ℕ
  first_tier none = 0
  first_tier (some index) = if ltb index tier_count then index else 0

  -- `if let Some(previous) = replaced { .. }`
  unfoldable pub undo : (pid : ℕ) → (old new : Option Location) → Storage T → Storage T
  undo pid old none s = s
  undo pid none (some l) s = free_at l (restore pid none s)
  undo pid (some previous) (some l) s =
      if location_eq previous l
      then restore pid (some previous) s
      else free_at l (restore pid (some previous) s)

  -- The old page is freed once a new one replaced it.
  unfoldable pub retire : (old new : Option Location) → Storage T → Storage T
  retire none new s = s
  retire (some previous) none s = s
  retire (some previous) (some l) s =
      if not (location_eq previous l) && ltb previous.tier_index tier_count
      then free_at previous s
      else s

  unfoldable pub published : (pid : ℕ) → (new : Option Location) → Storage T → Storage T
  published pid none s = s
  published pid (some l) s = restore pid (some l) s

  -- `seen` is the cell of the handle when the exchange is tried; other threads may have changed it.
  unfoldable pub publish :
      (pid resident : ℕ)
      → (old new : Option Location) → (seen : SwipInner) → Frame
      → Storage T
      → Run (Evicted T)
  publish pid resident old new seen f s = do
    let inserted = published pid new s
    (cell, result) ← try_unswizzle resident pid seen
    elim result [
      | swapped ↦ (do
        cleared ← clear_after_eviction (record f { dirty = false })
        released ← release_eviction cleared.pin_control
        done (retire old new inserted, record cleared { pin_control = released }, cell, ok freed))
      | observed _ ↦ (do
        (cell', ignored) ← try_resurrect resident cell
        released ← release_eviction f.pin_control
        done (undo pid old new inserted, record f { pin_control = released }, cell', ok stale))
    ]

  abbrev pub last_or : Option BufError → BufError
  last_or none = tier_exhausted (name (tier_count - 1))
  last_or (some e) = e

  unfoldable pub evict_written :
      (pid resident : ℕ)
      → (needs_write : Bool) → (seen : SwipInner) → Frame
      → (old : Option Location) → Written T
      → Run (Evicted T)
  evict_written pid resident false seen f old (s, new, last_error) = do
    assert (not (is_none old))
    publish pid resident old none seen f s
  evict_written pid resident true seen f old (s, some l, last_error) =
      publish pid resident old (some l) seen f s
  evict_written pid resident true seen f old (s, none, last_error) = do
    (cell, ignored) ← try_resurrect resident seen
    released ← release_eviction f.pin_control
    done (s, record f { pin_control = released }, cell, err (last_or last_error))

  -- The frame holds `page`.
  unfoldable pub evict_exact :
      (pid resident : ℕ)
      → (demotion_target : Option ℕ) → (seen : SwipInner) → Frame
      → T.Page
      → Storage T
      → Run (Evicted T)
  evict_exact pid resident demotion_target seen f page s =
      let old = s.directory pid in
      let start = first_tier demotion_target in
      if f.dirty || is_none old
      then evict_written pid resident true seen f old
          (write_back (tier_count - start) start page none s)
      else evict_written pid resident false seen f old (s, none, none)
