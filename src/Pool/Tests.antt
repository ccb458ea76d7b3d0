-- ===== src/Pool/Tests.antt =====
-- The theorems of `Pool` at concrete inputs, over a tier in memory.
use tierbuf.Prelude.{
  ℕ, ◌≡◌, ◌↔◌, refl, sym, ap, true, false, none, some, [], arith, ℕ_discrete, Run, done, panicked,
}
use tierbuf.Swip.{
  SwipInner, cooling, evicted, decode, load, is_valid, from_encoded, encode_evicted, encode_cooling,
  compare_exchange, try_unswizzle,
}
use tierbuf.Frame.{evicting, Frame, frame_pid, is_evicting, clear_after_eviction, release_eviction}
use tierbuf.Fault.{pool_exhausted}
use tierbuf.Pool.Memory.{memory_tier, storage, storage-IsUnshared}
use tierbuf.Pool.Backend.{Result, ok, err, location_eq}
use tierbuf.Pool.DemandFault.{demand_fault}
use tierbuf.Pool.DemandFault.Promise.{Faults}
use tierbuf.Pool.DemandFault.Contents.{fault-evict}
use tierbuf.Pool.Eviction.{
  Evicted, freed, charge, tried, charged, write_back, free_at, restore, first_tier, retire,
  published, publish, evict_written, evict_exact,
}
use tierbuf.Pool.Eviction.Exchange.{IsBacked, Evicts}
use tierbuf.Pool.Eviction.Contents.{evict_exact-Evicts}
use tierbuf.Prelude.{◌↔◌}
use tierbuf.Swip.{new_page_id, from_non_null}
use tierbuf.Frame.{frame_pid}
use tierbuf.Cooling.{CoolingTicket}
use tierbuf.Frame.Table.{resident_addr}
use tierbuf.Frame.Table.Addresses.{IsLaidOut}
use tierbuf.Pool.Handles.{View, exact_cooling_owner, frame_at, occupant_of, owner_of}
use tierbuf.Pool.Handles.Exact.{IsExact, exact_cooling_owner_iff}

abbrev dirty_frame : Frame
dirty_frame = record {
  latch = 0;
  pid = 0;
  owner_swip = some 0;
  dirty = true;
  heat_epoch = 0;
  generation = 1;
  pin_control = evicting;
}

-- The handle of page 0 that cools at address 4096.
abbrev handle : SwipInner
handle = record { pid = 0; owner_id = 1; word = 4098 }

dirty_frame-IsBacked : IsBacked memory_tier 0 8 storage dirty_frame
dirty_frame-IsBacked clean = let no_way : true ≡ false = clean in cc

evict_exact-Evicts_example :
    Evicts memory_tier 0 4096 8 storage handle dirty_frame
      (evict_exact memory_tier 2 (λ i. []) 0 4096 none handle dirty_frame 8 storage)
unfolding decode is_valid from_encoded
evict_exact-Evicts_example =
    evict_exact-Evicts memory_tier 2 (λ i. []) 0 4096 none handle (cooling 4096) dirty_frame 8
      storage refl refl refl dirty_frame-IsBacked storage-IsUnshared

-- The handle of page 0 once it is evicted.
abbrev cold : SwipInner
cold = record { pid = 0; owner_id = 1; word = 1 }

-- What the eviction leaves, from its result.
abbrev the : {A : Type 0} → A → Run A → A
the default (done a) = a
the default panicked = default

abbrev left : Evicted memory_tier
left =
    the (storage, dirty_frame, handle, err pool_exhausted)
      (evict_exact memory_tier 2 (λ i. []) 0 4096 none handle dirty_frame 8 storage)

left_freed :
    evict_exact memory_tier 2 (λ i. []) 0 4096 none handle dirty_frame 8 storage
    ≡ done (left.0, left.1, cold, ok freed)
unfolding evict_exact evict_written write_back charged tried charge first_tier publish published
    retire restore free_at location_eq try_unswizzle compare_exchange encode_evicted encode_cooling
    is_valid clear_after_eviction is_evicting release_eviction ℕ_discrete
left_freed = refl

abbrev pin_of : Result Frame → ℕ
pin_of (ok f) = f.pin_control
pin_of (err _) = 0

dirty_frame_reserved :
    (f : Frame) → ◌≡◌ {A = Result Frame} (ok dirty_frame) (ok f) → f.pin_control ≡ evicting
dirty_frame_reserved f e = sym (ap pin_of e)

fault-evict_example :
    Faults memory_tier 2 0 1 8192 8 left.0
      (evicted 0)
      cold
      cold
      (ok dirty_frame)
      (demand_fault memory_tier 2 0 1 8192 cold cold (ok dirty_frame) left.0)
unfolding load decode is_valid from_encoded
fault-evict_example =
    fault-evict memory_tier 2 (λ i. []) 0 4096 none handle (cooling 4096) dirty_frame left.1 8
      storage left.0 cold 1 8192 cold (evicted 0) (evicted 0) (ok dirty_frame) refl refl refl
      dirty_frame-IsBacked storage-IsUnshared left_freed refl refl dirty_frame_reserved

-- One frame at address 4096, which page 0 occupies, with its handle cooling there.
abbrev view : View
view = record {
  id = 1;
  layout = record { base = 4096; element_size = 64 };
  frame_count = 1;
  frames = λ i. dirty_frame;
  cells = λ i. handle;
  pages = λ pid. some 0;
}

abbrev ticket : CoolingTicket
ticket = record { frame_index = 0; pid = 0; generation = 1; resident = 4096 }

view-IsLaidOut : IsLaidOut view.layout view.frame_count
view-IsLaidOut = record {
  nonnull = omega arith;
  sized = omega arith;
  base_aligned = omega arith;
  size_aligned = omega arith;
  fits = omega arith;
}

ticket_owner : exact_cooling_owner view ticket ≡ done (some 0)
unfolding exact_cooling_owner frame_at occupant_of owner_of resident_addr frame_pid new_page_id load
    decode from_encoded from_non_null
ticket_owner = refl

exact_cooling_owner_iff_example :
    (exact_cooling_owner view ticket ≡ done (some 0)) ↔ IsExact view ticket 0
exact_cooling_owner_iff_example = exact_cooling_owner_iff view ticket 0 view-IsLaidOut
