-- ===== src/Pool/Cooler.antt =====
-- `enqueue_cold_candidates` of crates/tierbuf/src/pool.rs: a window of frames is sampled, and the
-- coldest of them are marked as cooling and queued. `others` is what other threads do before each
-- candidate is looked at again; what the search does with a candidate is one step.
pub mod Windows
pub mod Marks
mod Tests
use tierbuf.Prelude.{
  ℕ, suc, zero, ◌+◌, ◌-◌, ◌%◌, ◌/◌, ◌^◌, min, max, Bool, true, false, not, ◌&&◌, ◌||◌, Option, none,
  some, List, [], ◌∷◌, length, ltb, leb, ◌==◌, if◌then◌else◌, Run, done, panicked, ◌>>=◌, ◌>>◌,
  assert,
}
use tierbuf.Swip.{
  SwipState, hot, cooling, evicted, is_valid, Swapped, swapped, observed, load, try_mark_cooling,
}
use tierbuf.Frame.{Frame, frame_pid, pin_count, is_evicting}
use tierbuf.Frame.Table.{resident_addr}
use tierbuf.Heat.{unpack_heat_epoch}
use tierbuf.Pool.Handles.{View}
use tierbuf.Pool.Fix.{World, with_cell, is_swapped, enqueue_ticket}

abbrev pub max_cooling_sample : ℕ
max_cooling_sample = 64

unfoldable pub sample_count : (frame_count : ℕ) → ℕ
sample_count frame_count = min frame_count max_cooling_sample

-- The frames at the offsets from `offset` on.
unfoldable pub window : (rounds offset : ℕ) → (start frame_count : ℕ) → List ℕ
window zero offset start frame_count = []
window (suc n) offset start frame_count =
    (start + offset) % frame_count ∷ window n (offset + 1) start frame_count

-- What `sample_cursor` gives and becomes.
unfoldable pub sample : (frame_count cursor : ℕ) → List ℕ × ℕ
sample frame_count cursor = (
  window (sample_count frame_count) 0 (cursor % frame_count) frame_count,
  (cursor + sample_count frame_count) % 2 ^ 64,
)

-- `div_ceil(MAX_COOLING_SAMPLE)` in `acquire_frame`.
unfoldable pub windows : (frame_count : ℕ) → ℕ
windows frame_count = (frame_count + (max_cooling_sample - 1)) / max_cooling_sample

unfoldable pub heat_of : Frame → ℕ
heat_of f = let (heat, epoch) = unpack_heat_epoch f.heat_epoch in heat

unfoldable pub is_candidate : Frame → (pid : ℕ) → Bool
is_candidate f pid =
    is_valid pid && (pin_count f.pin_control == 0 && not (is_evicting f.pin_control))

unfoldable pub candidates : View → List ℕ → Run (List (ℕ × ℕ))
candidates v [] = done []
candidates v (i ∷ is) = do
  assert (ltb i v.frame_count)
  pid ← frame_pid (v.frames i)
  rest ← candidates v is
  done (if is_candidate (v.frames i) pid then (heat_of (v.frames i), i) ∷ rest else rest)

-- The order of the keys `(heat, index)`.
unfoldable pub colder : ℕ × ℕ → ℕ × ℕ → Bool
colder (h, i) (h', i') = ltb h h' || (h == h' && leb i i')

-- `sort_unstable_by_key`, on keys that differ.
unfoldable pub insert_by_key : ℕ × ℕ → List (ℕ × ℕ) → List (ℕ × ℕ)
insert_by_key c [] = c ∷ []
insert_by_key c (d ∷ ds) =
    let rest = insert_by_key c ds in if colder c d then c ∷ d ∷ ds else d ∷ rest

unfoldable pub sort_by_key : List (ℕ × ℕ) → List (ℕ × ℕ)
sort_by_key [] = []
sort_by_key (c ∷ cs) = insert_by_key c (sort_by_key cs)

-- By the state of the frame's handle.
unfoldable pub mark_state : (index pid cell resident : ℕ) → World → SwipState → Run World
mark_state index pid cell resident w (hot seen) =
    if seen == resident
    then (do
      (c, result) ← try_mark_cooling resident (w.view.cells cell)
      let w' = with_cell cell c w
      if is_swapped result then enqueue_ticket index pid resident w' else done w')
    else done w
mark_state index pid cell resident w (cooling seen) =
    if seen == resident then enqueue_ticket index pid resident w else done w
mark_state index pid cell resident w (evicted _) = done w

unfoldable pub mark_owner : (index pid resident : ℕ) → World → Option ℕ → Run World
mark_owner index pid resident w none = done w
mark_owner index pid resident w (some cell) =
    load (w.view.cells cell) >>= mark_state index pid cell resident w

-- A candidate, looked at again.
unfoldable pub mark : (index : ℕ) → World → Run World
mark index w = do
  assert (ltb index w.view.frame_count)
  let f = w.view.frames index
  if not (pin_count f.pin_control == 0) || is_evicting f.pin_control then done w else (do
    pid ← frame_pid f
    resident ← resident_addr w.view.layout w.view.frame_count index
    mark_owner index pid resident w f.owner_swip)

unfoldable pub mark_all :
    (others : ℕ → World → World) → (desired : ℕ) → List (ℕ × ℕ) → World → Run World
mark_all others desired [] w = done w
mark_all others desired ((_, index) ∷ cs) w =
    let w' = others index w in
    if leb desired (length w'.cooling)
    then done w'
    else (mark index w' >>= mark_all others desired cs)

unfoldable pub desired_length : (force_one : Bool) → (cooling_target queued : ℕ) → ℕ
desired_length force_one cooling_target queued =
    if force_one then max (min (queued + 1) (2 ^ 64 - 1)) cooling_target else cooling_target

-- The world and the cursor after the search.
unfoldable pub enqueue_cold :
    (others : ℕ → World → World)
    → (force_one : Bool) → (cooling_target cursor : ℕ) → World
    → Run (World × ℕ)
enqueue_cold others force_one cooling_target cursor w =
    let desired = desired_length force_one cooling_target (length w.cooling) in
    if desired == 0 || leb desired (length w.cooling) then done (w, cursor) else (do
      let (indices, cursor') = sample w.view.frame_count cursor
      found ← candidates w.view indices
      w' ← mark_all others desired (sort_by_key found) w
      done (w', cursor'))
