-- ===== src/Pool/Fix/Meets.antt =====
-- What a round of a fix may meet, and how it may end.
use tierbuf.Prelude.{
  ℕ, ◌+◌, ◌≤◌, ◌<◌, ◌^◌, ◌≡◌, ◌≢◌, ◌⊎◌, true, false, Option, none, some, Run, done, panicked, bit,
}
use tierbuf.Swip.{SwipState, hot, cooling, evicted, load, max_pid}
use tierbuf.Swip.Refinement.{Shows}
use tierbuf.Frame.{frame_pid, try_pin}
use tierbuf.Frame.Table.{index_of_resident}
use tierbuf.Frame.Table.Addresses.{IsLaidOut}
use tierbuf.Pool.Backend.{Result, ok, err}
use tierbuf.Pool.Fix.{World, source_of, Verdict, fixed, again, failed, Progress, Seen}
use tierbuf.Pool.Fix.Kept.{hits, misses, Kept, Owned}

-- The tiers that faults name are there.
abbrev pub IsTier : (tiers : ℕ) → Option ℕ → Type 0
IsTier tiers none = Unit
IsTier tiers (some i) = i < tiers

abbrev pub IsAnswer : (tiers : ℕ) → Result (Option ℕ) → Type 0
IsAnswer tiers (ok tier) = IsTier tiers tier
IsAnswer tiers (err _) = Unit

-- What a round may meet: words that decode, a table inside the address space, and, if the pin was
-- granted, a control word that counts it.
pub record IsSeen (tiers pid cell : ℕ) (s : Seen) : Type 0 where
  pub small : pid ≤ max_pid
  pub laid : IsLaidOut s.world.view.layout s.world.view.frame_count
  pub handle_state : SwipState
  pub handle_loads : load s.handle ≡ done handle_state
  pub cell_state : SwipState
  pub cell_shows : Shows pid (s.world.view.cells cell) cell_state
  pub names :
      (i : ℕ)
      → i < s.world.view.frame_count
      → (n : ℕ) × (frame_pid (s.world.view.frames i) ≡ done n)
  pub pinned :
      (i r : ℕ)
      → (handle_state ≡ hot r) ⊎ (handle_state ≡ cooling r)
      → index_of_resident s.world.view.layout s.world.view.frame_count r ≡ done (some i)
      → (try_pin s.control).1 ≡ true
      → (0 < (s.world.view.frames i).pin_control) × ((s.world.view.frames i).pin_control < 2 ^ 31)
  pub answer : IsAnswer tiers s.fault

-- No pin changed, and the round took none.
pub record Untaken (s : Seen) (w : World) : Type 0 where
  pub pins : (j : ℕ) → (w.view.frames j).pin_control ≡ (s.world.view.frames j).pin_control
  pub none_taken : ((try_pin s.control).1 ≡ false) ⊎ ((q : ℕ) × (load s.handle ≡ done (evicted q)))

-- The pin that the round took is given back, and no other changed.
pub record GivenBack (s : Seen) (w : World) : Type 0 where
  pub index : ℕ
  pub taken : (try_pin s.control).1 ≡ true
  pub returned : (w.view.frames index).pin_control + 1 ≡ (s.world.view.frames index).pin_control
  pub pins :
      (j : ℕ) → index ≢ j → (w.view.frames j).pin_control ≡ (s.world.view.frames j).pin_control

-- A guard: the frame holds the page for the handle, every pin stays, the one of the guard among
-- them, and exactly one hit is counted. Else the round keeps no pin and counts no hit, and it counts
-- a miss if it is the first that faults.
abbrev pub Ends : (tiers pid cell : ℕ) → Progress → Seen → Run (World × Progress × Verdict) → Type 0
Ends tiers pid cell p s panicked = ⊥
Ends tiers pid cell p s (done (w, p', fixed index source)) =
    (p' ≡ p)
    × (source ≡ source_of p.faulted_tier)
    × Kept s.world w 1 0
    × ((r : ℕ) × Owned w.view pid cell index r)
Ends tiers pid cell p s (done (w, p', again)) =
    IsTier tiers p'.faulted_tier
    × (hits w.stats ≡ hits s.world.stats)
    × (misses w.stats + bit p.faulted ≡ misses s.world.stats + bit p'.faulted)
    × (Untaken s w ⊎ GivenBack s w)
Ends tiers pid cell p s (done (w, p', failed e)) =
    (hits w.stats ≡ hits s.world.stats)
    × (misses w.stats + bit p.faulted ≡ misses s.world.stats + bit p'.faulted)
    × ((j : ℕ) → (w.view.frames j).pin_control ≡ (s.world.view.frames j).pin_control)
