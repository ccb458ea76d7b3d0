-- ===== src/Pool/Allocate/Granted.antt =====
-- An allocation that has a frame and an identifier grants a new page.
use tierbuf.Prelude.{ℕ, ◌+◌, ◌*◌, ◌%◌, ◌^◌, ◌≤◌, ◌<◌, ◌≡◌, ◌≢◌, true, false, none, some, update}
use tierbuf.Swip.{SwipInner, hot, max_pid}
use tierbuf.Swip.Refinement.{Shows}
use tierbuf.Latch.{exclusive_state, lock_exclusive_once}
use tierbuf.Frame.{Frame, evicting}
use tierbuf.Frame.Queue.{ArrayQueue}
use tierbuf.Frame.Table.{FrameTable, set_frame}
use tierbuf.Frame.Table.Addresses.{IsLaidOut}
use tierbuf.Pool.Backend.{ok}
use tierbuf.Pool.Handles.{validate_handle}
use tierbuf.Pool.Fix.Kept.{Owned}
use tierbuf.Pool.Allocate.{Manager, Guard, view_of}
use tierbuf.Pool.Allocate.Fresh.{cell_of, occupied}

module _ (q : ArrayQueue) {Page : Type 0} where
  -- Frame `i` was taken off the free queue, its latch is free, identifiers last, and the next one is
  -- not in use.
  pub record IsReady (m : Manager q Page) (i : ℕ) : Type 0 where
    pub own : 0 < m.id
    pub laid : IsLaidOut m.layout m.table.frame_count
    pub inside : i < m.table.frame_count
    pub reserved : (m.table.frames i).pin_control ≡ evicting
    pub unlatched : (m.table.frames i).latch % 2 ^ 16 ≡ 0
    pub numbered : m.next_pid ≤ max_pid
    pub unused : m.pages m.next_pid ≡ none

  abbrev pub address_of : Manager q Page → ℕ → ℕ
  address_of m i = m.layout.base + i * m.layout.element_size

  -- The guard is of the next page, at frame `i`; the page is zeroed, dirty, pinned once, exclusively
  -- latched and exactly at its frame, its handle belongs to the manager, and nothing else has changed.
  pub record Granted (zeroed : Page) (m m' : Manager q Page) (i : ℕ) (g : Guard) : Type 0 where
    pub guard : g ≡ record { index = i; pid = m.next_pid; swip = m.next_cell }
    pub exact : Owned (view_of q m') m.next_pid m.next_cell i (address_of m i)
    pub shows : Shows m.next_pid (m'.cells m.next_cell) (hot (address_of m i))
    pub valid : validate_handle (view_of q m') m.next_cell ≡ ok m.next_pid
    pub registered : m'.pages m.next_pid ≡ some m.next_cell
    pub zero : m'.table.page i ≡ zeroed
    pub dirty : (m'.table.frames i).dirty ≡ true
    pub pinned : (m'.table.frames i).pin_control ≡ 1
    pub latched : (m'.table.frames i).latch % 2 ^ 16 ≡ exclusive_state
    pub next : m'.next_pid ≡ m.next_pid + 1
    pub free : m'.table.free ≡ m.table.free
    pub frames :
        (j : ℕ)
        → i ≢ j
        → (m'.table.frames j ≡ m.table.frames j) × (m'.table.page j ≡ m.table.page j)
    pub cells : (c : ℕ) → m.next_cell ≢ c → m'.cells c ≡ m.cells c
    pub pages : (p : ℕ) → m.next_pid ≢ p → m'.pages p ≡ m.pages p

  -- The manager after an allocation that left the table `t`, but for the latch, and the handle `c`.
  abbrev granted : Manager q Page → ℕ → FrameTable q Page → SwipInner → Manager q Page
  granted m i t c =
      let f = occupied m.next_pid m.next_cell (m.table.frames i) in
      record m {
        table =
            set_frame q i (record f { latch = (lock_exclusive_once false f.latch f.latch).0 }) t;
        cells = update (update m.cells m.next_cell (cell_of m.id m.next_pid)) m.next_cell c;
        next_cell = m.next_cell + 1;
        pages = update m.pages m.next_pid (some m.next_cell);
        next_pid = m.next_pid + 1;
      }
