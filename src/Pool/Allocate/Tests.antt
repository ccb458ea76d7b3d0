-- ===== src/Pool/Allocate/Tests.antt =====
-- Allocations from a table of one frame.
use tierbuf.Prelude.{ℕ, ◌≡◌, refl, true, false, none, done}
use tierbuf.Swip.{invalid_pid}
use tierbuf.Frame.{Frame, evicting}
use tierbuf.Frame.Queue.{list_queue}
use tierbuf.Frame.Table.{FrameTable}
use tierbuf.Fault.{shutting_down}
use tierbuf.Pool.Backend.{ok, err}
use tierbuf.Pool.Checkout.{checked_out_at}
use tierbuf.Pool.Allocate.{Manager, allocate}
use tierbuf.Pool.Allocate.Granted.{Granted}

abbrev reserved_frame : Frame
reserved_frame = record {
  latch = 0;
  pid = invalid_pid;
  owner_swip = none;
  dirty = false;
  heat_epoch = 0;
  generation = 3;
  pin_control = evicting;
}

-- A table of one frame, which is checked out.
abbrev empty_table : FrameTable list_queue ℕ
empty_table = record {
  frame_count = 1;
  frames = λ i. reserved_frame;
  page = λ i. 0;
  free = list_queue.new 1;
  free_membership = λ i. false;
}

abbrev manager_of : (next_pid : ℕ) → Manager list_queue ℕ
manager_of next_pid = record {
  id = 1;
  layout = record { base = 4096; element_size = 64 };
  table = empty_table;
  cells = λ c. record { pid = 0; owner_id = 0; word = 1 };
  next_cell = 5;
  pages = λ p. none;
  next_pid = next_pid;
}

stopping_first :
    allocate list_queue 0 true true (ok (checked_out_at 0)) (manager_of 7)
    ≡ done (manager_of 7, err shutting_down)
unfolding allocate
stopping_first = refl
