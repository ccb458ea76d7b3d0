-- ===== src/Pool/DemandFault.antt =====
-- `perform_demand_fault` of crates/tierbuf/src/pool.rs: the leader of a fault reads the page back.
pub mod Promise
pub mod Contents
use tierbuf.Prelude.{
  ℕ, Bool, true, false, Option, none, some, List, [], ltb, ◌==◌, if◌then◌else◌, update, Run, done,
  panicked, ◌>>=◌, ◌>>◌,
}
use tierbuf.Swip.{
  SwipState, hot, cooling, evicted, SwipInner, Swapped, swapped, observed, load, try_swizzle,
}
use tierbuf.Frame.{
  Frame, exclusive_section, install, publish_reserved_pin, release_eviction, unpin,
  clear_unpublished,
}
use tierbuf.Fault.{BufError, invalid_page, invalid_config, contended}
use tierbuf.Pool.Backend.{TierBackend, Result, ok, err, Location}
use tierbuf.Pool.Eviction.{Storage}

-- What a fault leaves. `frame` is the frame that was checked out, and `page` what it holds if the
-- handle was made to name it; without a page the frame goes back to the free queue.
pub record Faulted (T : TierBackend) : Type 0 where
  pub storage : Storage T
  pub frame : Option Frame
  pub page : Option T.Page
  pub cell : SwipInner
  pub result : Result (Option ℕ)

module _ (T : TierBackend) (tier_count : ℕ) (pid owner resident : ℕ) where
  unfoldable pub early : Storage T → SwipInner → Result (Option ℕ) → Faulted T
  early s cell result = record {
    storage = s;
    frame = none;
    page = none;
    cell = cell;
    result = result;
  }

  -- From the page's arrival in the frame. `cell` is the cell of the handle at the exchange.
  unfoldable pub arrived :
      (tier_index : ℕ) → (cell : SwipInner) → Frame → Storage T → Result T.Page → Run (Faulted T)
  arrived tier_index cell f s (err e) = do
    released ← release_eviction f.pin_control
    done (record {
      storage = s;
      frame = some (record f { pin_control = released });
      page = none;
      cell = cell;
      result = err e;
    })
  arrived tier_index cell f s (ok page) = do
    (g, generation) ← install pid owner f
    pinned ← publish_reserved_pin g.pin_control
    (cell', result) ← try_swizzle pid resident cell
    unpinned ← unpin pinned
    elim result [
      | swapped ↦ done (record {
        storage = s;
        frame = some (record g { pin_control = unpinned });
        page = some page;
        cell = cell';
        result = ok (some tier_index);
      })
      | observed _ ↦ (do
        cleared ← clear_unpublished (record g { pin_control = unpinned })
        done (record {
          storage = s;
          frame = some cleared;
          page = none;
          cell = cell';
          result = err contended;
        }))
    ]

  -- With the frame that `acquire_frame` gave, or its error. The page is read under the frame's latch.
  unfoldable pub read_in :
      Location → (cell : SwipInner) → Result Frame → Storage T → Run (Faulted T)
  read_in l cell (err e) s = done (early s cell (err e))
  read_in l cell (ok f) s =
      let (t, page) = T.read l.offset (s.tiers l.tier_index) in
      arrived l.tier_index cell (record f { latch = exclusive_section f.latch })
        (record s { tiers = update s.tiers l.tier_index t }) page

  unfoldable pub look_up :
      Option Location → (cell : SwipInner) → Result Frame → Storage T → Run (Faulted T)
  look_up none cell acquired s = done (early s cell (err (invalid_page pid)))
  look_up (some l) cell acquired s =
      if ltb l.tier_index tier_count
      then read_in l cell acquired s
      else done (early s cell (err (invalid_config [])))

  -- `seen` is the cell of the handle when it is loaded, `cell` at the exchange.
  unfoldable pub demand_fault :
      (seen cell : SwipInner) → (acquired : Result Frame) → Storage T → Run (Faulted T)
  demand_fault seen cell acquired s = do
    state ← load seen
    elim state [
      | hot _ ↦ done (early s seen (ok none))
      | cooling _ ↦ done (early s seen (ok none))
      | evicted named ↦
          if named == pid
          then look_up (s.directory pid) cell acquired s
          else done (early s seen (err (invalid_page named)))
    ]
