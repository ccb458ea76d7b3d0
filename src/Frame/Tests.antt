-- ===== src/Frame/Tests.antt =====
-- The theorems of `Frame` at concrete inputs.
use tierbuf.Prelude.{
  ℕ, ◌≤◌, ◌<◌, ◌≡◌, refl, ◌⊎◌, true, false, List, [], ◌∷◌, ◌++◌, arith, ℕ_discrete, In,
}
use tierbuf.Frame.{try_pin_once, unpin_once, try_claim_eviction}
use tierbuf.Frame.Pins.{
  Act, begin_pin, begin_unpin, claim, attempt, pin_move, pin_turn, pin_run, unused, owns_pin,
  owns_claim, claim-excludes,
}
use tierbuf.Frame.Queue.{list_queue}
use tierbuf.Frame.Table.{FrameTable, Layout, push_free, index_of_resident}
use tierbuf.Frame.Table.Free.{IsTable, queued, push_free_lem}
use tierbuf.Frame.Table.Start.{new_table-IsTable}
use tierbuf.Frame.Table.Addresses.{IsLaidOut, Located, index_of_resident-Located}

-- Thread 1 pins and unpins; thread 0 claims in vain, then claims the reservation, which refuses
-- the next pin of thread 1.
abbrev contended : List (ℕ × Act)
contended =
    (1, begin_pin)
    ∷ (1, attempt false)
    ∷ (0, claim)
    ∷ (1, begin_unpin)
    ∷ (1, attempt false)
    ∷ (0, claim)
    ∷ (1, begin_pin)
    ∷ (1, attempt false)
    ∷ []

claim-excludes_example :
    (owns_pin ((pin_run contended unused).place 1) ≡ 0)
    × (owns_claim ((pin_run contended unused).place 1) ≡ 0)
unfolding pin_run pin_turn pin_move try_pin_once unpin_once try_claim_eviction ℕ_discrete
claim-excludes_example =
    claim-excludes 2 contended (omega arith) 0 1 (omega arith) (omega arith) (omega arith) refl

abbrev three_frames : FrameTable list_queue ℕ
three_frames = (new_table-IsTable list_queue 3 0).0

three_frames-IsTable : IsTable list_queue three_frames
three_frames-IsTable = (new_table-IsTable list_queue 3 0).2

push_free_lem_example :
    ((1 < three_frames.frame_count) × ¬ In 1 (queued list_queue three_frames)
      → ((push_free list_queue 1 three_frames).1 ≡ true)
        × (queued list_queue (push_free list_queue 1 three_frames).0
            ≡ queued list_queue three_frames ++ 1 ∷ [])
        × IsTable list_queue (push_free list_queue 1 three_frames).0)
    × ((three_frames.frame_count ≤ 1) ⊎ In 1 (queued list_queue three_frames)
        → push_free list_queue 1 three_frames ≡ (three_frames, false))
push_free_lem_example = push_free_lem list_queue three_frames 1 three_frames-IsTable

abbrev layout : Layout
layout = record { base = 4096; element_size = 64 }

layout-IsLaidOut : IsLaidOut layout 8
layout-IsLaidOut = record {
  nonnull = omega arith;
  sized = omega arith;
  base_aligned = omega arith;
  size_aligned = omega arith;
  fits = omega arith;
}

index_of_resident-Located_example : Located layout 8 4224 (index_of_resident layout 8 4224)
index_of_resident-Located_example = index_of_resident-Located layout 8 4224 layout-IsLaidOut
