-- ===== src/Pool/Fix/Tests.antt =====
-- A fix that faults once and then finds its page in frame 0.
use tierbuf.Prelude.{ℕ, false, none, some, List, [], ◌∷◌}
use tierbuf.Swip.{cooling, SwipInner}
use tierbuf.Frame.{Frame}
use tierbuf.Pool.Backend.{ok}
use tierbuf.Pool.Fix.{World, Seen}

abbrev frame_of : (pin : ℕ) → Frame
frame_of pin = record {
  latch = 0;
  pid = 0;
  owner_swip = some 0;
  dirty = false;
  heat_epoch = 0;
  generation = 1;
  pin_control = pin;
}

abbrev handle_of : (word : ℕ) → SwipInner
handle_of word = record { pid = 0; owner_id = 1; word = word }

abbrev world_of : (word pin : ℕ) → World
world_of word pin = record {
  view = record {
    id = 1;
    layout = record { base = 4096; element_size = 64 };
    frame_count = 2;
    frames = λ i. frame_of pin;
    cells = λ c. handle_of word;
    pages = λ p. some 0;
  };
  cooling = [];
  prefetched = [];
  stats = [];
}

-- The page is not there, and the fault reads it from tier 0; then it is, at frame 0.
abbrev rounds : List Seen
rounds =
    (record {
      stopping = false;
      handle = handle_of 1;
      control = 0;
      world = world_of 1 0;
      fault = ok (some 0);
    })
    ∷ (record {
      stopping = false;
      handle = handle_of 4096;
      control = 0;
      world = world_of 4096 1;
      fault = ok none;
    })
    ∷ []

-- The first of them.
abbrev faults_once : Seen
faults_once = record {
  stopping = false;
  handle = handle_of 1;
  control = 0;
  world = world_of 1 0;
  fault = ok (some 0);
}
