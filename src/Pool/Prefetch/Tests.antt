-- ===== src/Pool/Prefetch/Tests.antt =====
-- Three requests: one that is submitted, one for the same page, one without a frame.
use tierbuf.Prelude.{ℕ, true, false, none, some, List, [], ◌∷◌}
use tierbuf.Pool.Prefetch.{Channel, Request}

abbrev quiet : Channel
quiet = record { in_flight = 0; pending = []; queue = []; returned = [] }

abbrev wish : (pid : ℕ) → Request
wish pid = record {
  stopping = false;
  page = some pid;
  admit = true;
  checkout = some pid;
  stopping_again = false;
  connected = true;
}

abbrev wishes : List ((Channel → Channel) × Request)
wishes =
    ((λ c. c), wish 3) ∷ ((λ c. c), wish 3) ∷ ((λ c. c), record (wish 4) { checkout = none }) ∷ []
