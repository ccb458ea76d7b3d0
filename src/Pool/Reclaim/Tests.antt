-- ===== src/Pool/Reclaim/Tests.antt =====
-- The eviction of the one frame of a table, which holds page 0 dirty with its handle cooling.
use tierbuf.Prelude.{ℕ, ◌^◌, inl, true, false, some, [], Run, update, at_index}
use tierbuf.Frame.{Frame}
use tierbuf.Frame.Queue.{list_queue}
use tierbuf.Frame.Table.{FrameTable}
use tierbuf.Cooling.{CoolingTicket}
use tierbuf.Pool.Memory.{memory_tier, storage}
use tierbuf.Pool.Reclaim.{Store}
use tierbuf.Pool.Reclaim.Outcomes.{claimed}

abbrev cooled_frame : Frame
cooled_frame = record {
  latch = 0;
  pid = 0;
  owner_swip = some 0;
  dirty = true;
  heat_epoch = 0;
  generation = 1;
  pin_control = 0;
}

abbrev table : FrameTable list_queue ℕ
table = record {
  frame_count = 1;
  frames = λ i. cooled_frame;
  page = λ i. 8;
  free = list_queue.new 1;
  free_membership = λ i. false;
}

abbrev store : Store list_queue memory_tier
store = record {
  manager = record {
    id = 1;
    layout = record { base = 4096; element_size = 64 };
    table = table;
    cells = λ c. record { pid = 0; owner_id = 1; word = 4098 };
    next_cell = 1;
    pages = λ p. some 0;
    next_pid = 1;
  };
  storage = storage;
  prefetched = [];
}

abbrev ticket : CoolingTicket
ticket = record { frame_index = 0; pid = 0; generation = 1; resident = 4096 }

abbrev held : Store list_queue memory_tier
held = claimed list_queue memory_tier (λ s. s) ticket store
