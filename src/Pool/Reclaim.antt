-- ===== src/Pool/Reclaim.antt =====
-- `evict_ticket` of crates/tierbuf/src/pool.rs as a whole: the claim of the frame, the second check
-- under its latch, the eviction, and the frame's way back to the free queue. `waits` is what other
-- threads do until the latch is granted, and `writes` what they do to the handle until the exchange.
pub mod Promise
pub mod Ends
pub mod Outcomes
mod Tests
use tierbuf.Prelude.{
  ℕ, Bool, true, false, ◌&&◌, Option, none, some, ◌==◌, if◌then◌else◌, update, Run, done, panicked,
  ◌>>=◌, ◌>>◌, assert, HashMap, List, [],
}
use tierbuf.Swip.{SwipInner, Swapped, swapped, try_resurrect}
use tierbuf.Frame.{Frame, exclusive_section, frame_pid, try_claim_eviction, release_eviction}
use tierbuf.Frame.Queue.{ArrayQueue}
use tierbuf.Frame.Table.{FrameTable, frame, set_frame}
use tierbuf.Cooling.{CoolingTicket}
use tierbuf.Pool.Backend.{TierBackend, Result, ok, err}
use tierbuf.Pool.Eviction.{EvictionOutcome, freed, busy, stale, Storage, Evicted, evict_exact}
use tierbuf.Pool.Handles.{View, is_cell, exact_cooling_owner}
use tierbuf.Pool.Checkout.{set_control, push_back}
use tierbuf.Pool.Fix.{PrefetchMarker, World, consume_prefetched}
use tierbuf.Pool.Allocate.{Manager, view_of}

-- The manager with its storage and the markers of prefetched pages.
pub record Store (q : ArrayQueue) (T : TierBackend) : Type 1 where
  pub manager : Manager q T.Page
  pub storage : Storage T
  pub prefetched : HashMap PrefetchMarker

unfoldable pub is_occupant : CoolingTicket → (owner named : ℕ) → Frame → Bool
is_occupant ticket owner named f =
    named == ticket.pid && (f.generation == ticket.generation && is_cell owner f.owner_swip)

module _ (q : ArrayQueue) (T : TierBackend) where
  abbrev pub table_of : Store q T → FrameTable q T.Page
  table_of s = s.manager.table

  abbrev pub with_table : FrameTable q T.Page → Store q T → Store q T
  with_table t s = record s { manager = record s.manager { table = t } }

  abbrev pub with_handle : (owner : ℕ) → SwipInner → Store q T → Store q T
  with_handle owner cell s = record s {
    manager = record s.manager { cells = update s.manager.cells owner cell };
  }

  -- The exclusive section of the frame's latch in which the call runs, as it leaves the word.
  abbrev pub in_section : (index : ℕ) → Store q T → Store q T
  in_section index s =
      let f = (table_of s).frames index in
      with_table (set_frame q index (record f { latch = exclusive_section f.latch }) (table_of s)) s

  abbrev pub store_view : Store q T → View
  store_view s = view_of q s.manager

  -- The store with its frame as the eviction has left it.
  abbrev pub settled : (index owner : ℕ) → Storage T → Frame → SwipInner → Store q T → Store q T
  settled index owner storage f cell s =
      record (with_handle owner cell (with_table (set_frame q index f (table_of s)) s)) {
        storage = storage;
      }

  -- `consume_prefetched`, and `push_free` with its `expect`.
  unfoldable pub give_back : CoolingTicket → Store q T → Run (Store q T)
  give_back ticket s = do
    t ← push_back q ticket.frame_index (table_of s)
    let w : World = record {
      view = store_view s;
      cooling = [];
      prefetched = s.prefetched;
      stats = [];
    }
    let (w', hit) = consume_prefetched ticket.pid ticket.resident ticket.generation w
    done (record (with_table t s) { prefetched = w'.prefetched })

  unfoldable pub after_eviction :
      CoolingTicket → (owner : ℕ) → Store q T → Evicted T → Run (Store q T × Result EvictionOutcome)
  after_eviction ticket owner s (storage, f, cell, result) =
      let s' = settled ticket.frame_index owner storage f cell s in
      elim result [
        | ok freed ↦ (give_back ticket s' >>= λ s''. done (s'', ok freed))
        | ok busy ↦ done (s', ok busy)
        | ok stale ↦ done (s', ok stale)
        | err e ↦ done (s', err e)
      ]

  -- A reservation that is dropped.
  unfoldable pub unclaim : (index : ℕ) → Frame → Store q T → Run (Store q T)
  unclaim index f s = do
    word ← release_eviction f.pin_control
    done (with_table (set_frame q index (record f { pin_control = word }) (table_of s)) s)

  -- The second check has failed.
  unfoldable pub give_up :
      CoolingTicket → (owner : ℕ) → Store q T → Run (Store q T × Result EvictionOutcome)
  give_up ticket owner s = do
    f ← frame q ticket.frame_index (table_of s)
    named ← frame_pid f
    (cell, ignored) ←
        (if is_occupant ticket owner named f
          then try_resurrect ticket.resident (s.manager.cells owner)
          else done (s.manager.cells owner, swapped))
    s' ← unclaim ticket.frame_index f (with_handle owner cell s)
    done (s', ok stale)

  module _ (tier_count : ℕ) (name : ℕ → List ℕ) (demotion_target : Frame → Option ℕ)
      (waits : Store q T → Store q T) (writes : SwipInner → SwipInner) where
    unfoldable pub evict_held :
        CoolingTicket → (owner : ℕ) → Store q T → Run (Store q T × Result EvictionOutcome)
    evict_held ticket owner s = do
      f ← frame q ticket.frame_index (table_of s)
      evicted ←
          evict_exact T tier_count name ticket.pid ticket.resident (demotion_target f)
            (writes (s.manager.cells owner)) f ((table_of s).page ticket.frame_index) s.storage
      after_eviction ticket owner s evicted

    -- With the frame's latch.
    unfoldable pub under_latch :
        CoolingTicket → (owner : ℕ) → Store q T → Run (Store q T × Result EvictionOutcome)
    under_latch ticket owner s = do
      again ← exact_cooling_owner (store_view s) ticket
      if is_cell owner again then evict_held ticket owner s else give_up ticket owner s

    unfoldable pub claim :
        CoolingTicket → Store q T → Option ℕ → Run (Store q T × Result EvictionOutcome)
    claim ticket s none = done (s, ok stale)
    claim ticket s (some owner) = do
      f ← frame q ticket.frame_index (table_of s)
      let (word, won) = try_claim_eviction f.pin_control
      if won
          then under_latch ticket owner (
              in_section ticket.frame_index
                (waits (with_table (set_control q ticket.frame_index word (table_of s)) s)))
          else done (s, ok busy)

    unfoldable pub evict_ticket :
        CoolingTicket → Store q T → Run (Store q T × Result EvictionOutcome)
    evict_ticket ticket s = exact_cooling_owner (store_view s) ticket >>= claim ticket s
