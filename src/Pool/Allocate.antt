-- ===== src/Pool/Allocate.antt =====
-- `allocate` of crates/tierbuf/src/pool.rs, from the frame that `acquire_frame` gives it. No other
-- thread knows the new handle, and none can evict a frame that is reserved or pinned, so that what is
-- done to the frame and the handle is one step.
pub mod Fresh
pub mod Granted
pub mod Refused
mod Tests
use tierbuf.Prelude.{
  ℕ, ◌+◌, Bool, true, false, not, Option, none, some, if◌then◌else◌, update, Run, done, panicked,
  ◌>>=◌, ◌>>◌, assert,
}
use tierbuf.Swip.{SwipInner, Swapped, swapped, observed, from_pid, try_bind_owner, try_swizzle}
use tierbuf.Latch.{lock_exclusive_once}
use tierbuf.Frame.{Frame, install, unpin, exclusive_section, clear_unpublished}
use tierbuf.Frame.Queue.{ArrayQueue}
use tierbuf.Frame.Table.{FrameTable, Layout, frame, set_frame, resident_addr}
use tierbuf.Fault.{BufError, shutting_down, contended}
use tierbuf.Pool.Backend.{Result, ok, err}
use tierbuf.Pool.Handles.{View, contains_key, resident_is_exact, allocate_pid}
use tierbuf.Pool.Checkout.{FreeFrame, commit, publish_pin, drop_free}

-- The fields of `BufferManager` that `allocate` uses. `next_cell` is where the heap places the next
-- handle.
pub record Manager (q : ArrayQueue) (Page : Type 0) : Type 0 where
  pub id : ℕ
  pub layout : Layout
  pub table : FrameTable q Page
  pub cells : ℕ → SwipInner
  pub next_cell : ℕ
  pub pages : ℕ → Option ℕ
  pub next_pid : ℕ

-- `ExclusiveGuard`; the latch guard is in the word of the frame's latch.
pub record Guard : Type 0 where
  pub index : ℕ
  pub pid : ℕ
  pub swip : ℕ

module _ (q : ArrayQueue) {Page : Type 0} where
  abbrev pub view_of : Manager q Page → View
  view_of m = record {
    id = m.id;
    layout = m.layout;
    frame_count = m.table.frame_count;
    frames = m.table.frames;
    cells = m.cells;
    pages = m.pages;
  }

  -- `FrameTable::write_with`, which steps the version of the frame's latch.
  unfoldable pub write_with : (index : ℕ) → Page → FrameTable q Page → Run (FrameTable q Page)
  write_with index bytes t = do
    f ← frame q index t
    done (record (set_frame q index (record f { latch = exclusive_section f.latch }) t) {
      page = update t.page index bytes;
    })

  -- `Swip::from_pid` and `try_bind_owner`.
  unfoldable pub new_handle : (pid : ℕ) → Manager q Page → Run (Manager q Page)
  new_handle pid m = do
    swip ← from_pid pid
    (bound, won) ← try_bind_owner m.id swip
    assert won
    done (record m { cells = update m.cells m.next_cell bound; next_cell = m.next_cell + 1 })

  -- The page, zeroed, is installed dirty, with the first pin.
  unfoldable pub occupy :
      (zeroed : Page)
      → (pid cell : ℕ) → FreeFrame
      → FrameTable q Page
      → Run (FrameTable q Page × FreeFrame)
  occupy zeroed pid cell c t = do
    written ← write_with c.index zeroed t
    f ← frame q c.index written
    (g, generation) ← install pid cell f
    publish_pin q c (set_frame q c.index (record g { dirty = true }) written)

  -- After a failed exchange.
  unfoldable pub unpublish : FreeFrame → FrameTable q Page → Run (FrameTable q Page)
  unpublish c t = do
    f ← frame q c.index t
    word ← unpin f.pin_control
    cleared ← clear_unpublished (record f { pin_control = word })
    drop_free q c (set_frame q c.index cleared t)

  -- The new frame's latch is waited for; it is free when it is granted.
  unfoldable pub register :
      (pid cell resident : ℕ) → FreeFrame → Manager q Page → Run (Manager q Page × Result Guard)
  register pid cell resident c m = do
    f ← frame q c.index m.table
    let g = record f { latch = (lock_exclusive_once false f.latch f.latch).0 }
    exact ← resident_is_exact (view_of m) cell pid resident g
    assert exact
    assert (not (contains_key (m.pages pid)))
    committed ← commit c
    done (
      record m { table = set_frame q c.index g m.table; pages = update m.pages pid (some cell) },
      ok (record { index = c.index; pid = pid; swip = cell }),
    )

  unfoldable pub after_swizzle :
      (pid cell resident : ℕ)
      → FreeFrame
      → Manager q Page
      → Swapped
      → Run (Manager q Page × Result Guard)
  after_swizzle pid cell resident c m swapped = register pid cell resident c m
  after_swizzle pid cell resident c m (observed _) = do
    t ← unpublish c m.table
    done (record m { table = t }, err contended)

  unfoldable pub publish_page :
      (zeroed : Page) → (pid : ℕ) → FreeFrame → Manager q Page → Run (Manager q Page × Result Guard)
  publish_page zeroed pid c m = do
    let cell = m.next_cell
    handled ← new_handle pid m
    (t, c') ← occupy zeroed pid cell c handled.table
    resident ← resident_addr m.layout t.frame_count c.index
    (swip, result) ← try_swizzle pid resident (handled.cells cell)
    after_swizzle pid cell resident c'
        (record handled { table = t; cells = update handled.cells cell swip }) result

  unfoldable pub named :
      (zeroed : Page) → FreeFrame → Manager q Page → Result ℕ → Run (Manager q Page × Result Guard)
  named zeroed c m (ok pid) = publish_page zeroed pid c m
  named zeroed c m (err e) = do t ← drop_free q c m.table; done (record m { table = t }, err e)

  unfoldable pub acquired_in :
      (zeroed : Page) → Result FreeFrame → Manager q Page → Run (Manager q Page × Result Guard)
  acquired_in zeroed (err e) m = done (m, err e)
  acquired_in zeroed (ok c) m =
      let (next, result) = allocate_pid m.next_pid in
      named zeroed c (record m { next_pid = next }) result

  -- With the answers of both calls of `ensure_running`, and what `acquire_frame` returned.
  unfoldable pub allocate :
      (zeroed : Page)
      → (stopping stopping_later : Bool) → Result FreeFrame
      → Manager q Page
      → Run (Manager q Page × Result Guard)
  allocate zeroed stopping stopping_later acquired m =
      if stopping
      then done (m, err shutting_down)
      else if stopping_later
      then done (m, err shutting_down)
      else acquired_in zeroed acquired m
