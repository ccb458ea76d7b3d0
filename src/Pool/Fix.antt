-- ===== src/Pool/Fix.antt =====
-- `fix_shared_with` and `fix_exclusive` of crates/tierbuf/src/pool.rs, round by round. Other threads
-- act between the load of the handle, the pin, and the grant of the frame's latch, so a round is
-- given what is there at each of them; what it does under the latch is one step. The fault is the
-- result of the fault coordinator. The policy's answers are parameters.
pub mod Kept
pub mod Exchanges
pub mod Effects
pub mod Meets
pub mod Latched
pub mod Rounds
pub mod Trace
pub mod Loop
mod Tests
use tierbuf.Prelude.{
  ℕ, Bool, true, false, not, ◌&&◌, Option, none, some, List, [], ◌∷◌, ◌++◌, ltb, ◌==◌,
  if◌then◌else◌, update, Run, done, panicked, ◌>>=◌, ◌>>◌, assert, HashMap, get, remove,
}
use tierbuf.Swip.{
  SwipState, hot, cooling, evicted, SwipInner, Swapped, swapped, observed, load, try_resurrect,
  try_mark_cooling,
}
use tierbuf.Frame.{Frame, try_pin, unpin, frame_pid}
use tierbuf.Frame.Table.{resident_addr, index_of_resident}
use tierbuf.Cooling.{CoolingTicket, push_unique}
use tierbuf.Metrics.{
  Event, record_second_chance, record_prefetch_hit, record_dram_hit, record_fault,
  record_tier_demand_hit,
}
use tierbuf.Policy.Economic.{AccessHint, normal, scan, prefetch}
use tierbuf.Fault.{BufError, invalid_page, shutting_down}
use tierbuf.Pool.Backend.{Result, ok, err}
use tierbuf.Pool.Handles.{View, is_cell, is_cooling_at, resident_is_exact}

pub record PrefetchMarker : Type 0 where
  pub resident : ℕ
  pub generation : ℕ

-- `stats` is what this thread has recorded.
pub record World : Type 0 where
  pub view : View
  pub cooling : List CoolingTicket
  pub prefetched : HashMap PrefetchMarker
  pub stats : Event

abbrev pub with_frame : ℕ → Frame → World → World
with_frame index f w = record w { view = record w.view { frames = update w.view.frames index f } }

abbrev pub with_cell : ℕ → SwipInner → World → World
with_cell cell c w = record w { view = record w.view { cells = update w.view.cells cell c } }

abbrev pub recorded : Event → World → World
recorded e w = record w { stats = w.stats ++ e }

-- `marker == Some(PrefetchMarker { resident, generation })`
abbrev pub is_marker : (resident generation : ℕ) → Option PrefetchMarker → Bool
is_marker resident generation none = false
is_marker resident generation (some m) = m.resident == resident && (m.generation == generation)

unfoldable pub consume_prefetched : (pid resident generation : ℕ) → World → World × Bool
consume_prefetched pid resident generation w = (
  record w { prefetched = remove pid w.prefetched },
  is_marker resident generation (get pid w.prefetched),
)

-- `owner.is_some_and(..)`
unfoldable pub owner_cools : View → (resident : ℕ) → Option ℕ → Run Bool
owner_cools v resident none = done false
owner_cools v resident (some owner) = do
  state ← load (v.cells owner)
  done (is_cooling_at resident state)

-- The checks after that of the page.
unfoldable pub cools_there : View → (index resident : ℕ) → Run Bool
cools_there v index resident = do
  address ← resident_addr v.layout v.frame_count index
  if address == resident then owner_cools v resident (v.frames index).owner_swip else done false

unfoldable pub enqueue_ticket : (index pid resident : ℕ) → World → Run World
enqueue_ticket index pid resident w = do
  assert (ltb index w.view.frame_count)
  named ← frame_pid (w.view.frames index)
  cools ← (if named == pid then cools_there w.view index resident else done false)
  done (
      if cools
      then record w {
        cooling =
            push_unique
              (record {
                frame_index = index;
                pid = pid;
                generation = (w.view.frames index).generation;
                resident = resident;
              })
              w.cooling;
      }
      else w)

pub data FixSource : Type 0 where
  dram lower_tier : FixSource

abbrev pub source_of : Option ℕ → FixSource
source_of none = dram
source_of (some _) = lower_tier

-- How a round ends: a guard on the frame at an index, a next round, or an error.
pub data Verdict : Type 0 where
  fixed : (index : ℕ) → FixSource → Verdict
  again : Verdict
  failed : BufError → Verdict

-- The variables of the loop.
pub record Progress : Type 0 where
  pub faulted : Bool
  pub faulted_tier : Option ℕ

abbrev pub first_round : Progress
first_round = record { faulted = false; faulted_tier = none }

-- What other threads leave for a round: the flag, the handle at the load, the frame's control word
-- at the pin, and the world when the latch is granted, with the pin; and the result of a fault.
pub record Seen : Type 0 where
  pub stopping : Bool
  pub handle : SwipInner
  pub control : ℕ
  pub world : World
  pub fault : Result (Option ℕ)

pub data FixKind : Type 0 where
  shared : AccessHint → FixKind
  exclusive : FixKind

-- `matches!(hint, AccessHint::Normal | AccessHint::Scan)`; an exclusive fix has no hint.
abbrev pub takes_marker : FixKind → Bool
takes_marker (shared prefetch) = false
takes_marker _ = true

abbrev pub second_chance : Swapped → Event
second_chance swapped = record_second_chance
second_chance (observed _) = []

abbrev pub is_swapped : Swapped → Bool
is_swapped swapped = true
is_swapped (observed _) = false

abbrev pub first_fault : Bool → Event
first_fault true = []
first_fault false = record_fault

-- `get_or_insert`
abbrev pub get_or_insert : Option ℕ → Option ℕ → Option ℕ
get_or_insert (some tier) new = some tier
get_or_insert none new = new

unfoldable pub faulted_in : Progress → World → Result (Option ℕ) → World × Progress × Verdict
faulted_in p w (err e) = (w, record p { faulted = true }, failed e)
faulted_in p w (ok tier) =
    (w, record { faulted = true; faulted_tier = get_or_insert p.faulted_tier tier }, again)

abbrev pub with_stats : Event → Seen → Seen
with_stats e s = record s { world = record s.world { stats = e } }

unfoldable pub after_round :
    (next : Progress → Event → Run (Option (World × Progress × Verdict)))
    → World × Progress × Verdict
    → Run (Option (World × Progress × Verdict))
after_round next (w, p, again) = next p w.stats
after_round next (w, p, fixed index source) = done (some (w, p, fixed index source))
after_round next (w, p, failed e) = done (some (w, p, failed e))

module _ (tiers : ℕ) (touch : ℕ → ℕ) (admit : Bool) (kind : FixKind) (pid cell : ℕ) where
  -- `try_resurrect`, and the policy's `on_access`.
  unfoldable pub access : (index resident : ℕ) → World → Run World
  access index resident w = do
    (c, result) ← try_resurrect resident (w.view.cells cell)
    let f = w.view.frames index
    done (
        with_frame index (record f { heat_epoch = touch f.heat_epoch })
          (with_cell cell c (recorded (second_chance result) w)))

  unfoldable pub count_hit : Option ℕ → World → Run World
  count_hit none w = done (recorded record_dram_hit w)
  count_hit (some tier_index) w = do
    e ← record_tier_demand_hit tiers tier_index
    done (recorded e w)

  -- A page that the policy declines cools at once; only shared fixes ask.
  unfoldable pub decline : (index resident : ℕ) → World → Run World
  decline index resident w = if admit then done w else (do
    (c, result) ← try_mark_cooling resident (w.view.cells cell)
    let w' = with_cell cell c w
    if is_swapped result then enqueue_ticket index pid resident w' else done w')

  unfoldable pub settle : FixKind → (index resident : ℕ) → World → Run World
  settle (shared hint) index resident w = decline index resident w
  settle exclusive index resident w = done w

  unfoldable pub consume : (index resident : ℕ) → World → World
  consume index resident w =
      if takes_marker kind
      then (let (w', hit) = consume_prefetched pid resident (w.view.frames index).generation w in
          if hit then recorded record_prefetch_hit w' else w')
      else w

  -- The statistics of a fix, and the admission of a page that was faulted in.
  unfoldable pub account : Progress → (index resident : ℕ) → World → Run World
  account p index resident w =
      if p.faulted
      then (count_hit p.faulted_tier w >>= settle kind index resident)
      else count_hit none (consume index resident w)

  unfoldable pub latched :
      Progress → (index resident : ℕ) → World → (exact : Bool) → Run (World × Progress × Verdict)
  latched p index resident w true = do
    accessed ← access index resident w
    counted ← account p index resident accessed
    done (counted, p, fixed index (source_of p.faulted_tier))
  latched p index resident w false = do
    word ← unpin (w.view.frames index).pin_control
    done (with_frame index (record (w.view.frames index) { pin_control = word }) w, p, again)

  unfoldable pub located :
      Progress → Seen → (resident : ℕ) → Option ℕ → Run (World × Progress × Verdict)
  located p s resident none = done (s.world, p, failed (invalid_page pid))
  located p s resident (some index) = do
    assert (ltb index s.world.view.frame_count)
    let (word, pinned) = try_pin s.control
    if pinned
        then (resident_is_exact s.world.view cell pid resident (s.world.view.frames index)
            >>= latched p index resident s.world)
        else done (s.world, p, again)

  unfoldable pub in_state : Progress → Seen → SwipState → Run (World × Progress × Verdict)
  in_state p s (hot resident) =
      index_of_resident s.world.view.layout s.world.view.frame_count resident
      >>= located p s resident
  in_state p s (cooling resident) =
      index_of_resident s.world.view.layout s.world.view.frame_count resident
      >>= located p s resident
  in_state p s (evicted named) =
      if not (named == pid)
      then done (s.world, p, failed (invalid_page named))
      else done (faulted_in p (recorded (first_fault p.faulted) s.world) s.fault)

  -- One round of the loop.
  unfoldable pub fix_round : Progress → Seen → Run (World × Progress × Verdict)
  fix_round p s =
      if s.stopping
      then done (s.world, p, failed shutting_down)
      else (load s.handle >>= in_state p s)

  -- The loop, on what its rounds meet; `none` is a call that has not returned after them.
  unfoldable pub fix_loop : List Seen → Progress → Event → Run (Option (World × Progress × Verdict))
  fix_loop [] p e = done none
  fix_loop (s ∷ ss) p e = fix_round p (with_stats e s) >>= after_round (fix_loop ss)
