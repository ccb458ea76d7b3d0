-- ===== src/Tier/Mock/Tests.antt =====
-- Calls on a small mock tier.
use tierbuf.Prelude.{ℕ, some, List, [], ◌∷◌, arith}
use tierbuf.Tier.Disk.{Buffer}
use tierbuf.Tier.File.{page_size}
use tierbuf.Tier.Mock.{MockTier, empty_state}
use tierbuf.Tier.Mock.Device.{IsMock, Call, read_call, write_call, free_call, fail_call, serve_all}
use tierbuf.Tier.Mock.Slots.{empty-IsState}
use tierbuf.Tier.Mock.Runs.{Behaves, serve_all-Behaves}

abbrev capacity : ℕ
capacity = 131072

-- Two slots.
abbrev small : MockTier
small = record { capacity_bytes = 131072; slot_count = 2; state = empty_state }

abbrev page : ℕ → Buffer
page fill = record { size = page_size; byte = λ _. fill }

small-IsMock : IsMock small
small-IsMock = record {
  sized = omega arith;
  fits = omega arith;
  next_le = omega arith;
  state = empty-IsState;
  armed = tt;
}

-- A write, a read that fails once, a read, a free and a read of what is gone.
abbrev calls : List Call
calls =
    write_call (page 165)
    ∷ fail_call (some 1)
    ∷ read_call 0 (page 0)
    ∷ read_call 0 (page 0)
    ∷ free_call 0
    ∷ read_call 0 (page 0)
    ∷ []

serve_all-Behaves_example : Behaves calls small (serve_all calls small)
serve_all-Behaves_example =
    serve_all-Behaves calls small small-IsMock (tt, (omega arith, (tt, (tt, (tt, (tt, tt))))))
