-- ===== src/Frame/Table.antt =====
-- crates/tierbuf/src/frame.rs: `FrameTable`, frames with their bytes and the queue of free indices.
pub mod Free
pub mod Start
pub mod Addresses
use tierbuf.Prelude.{
  ℕ, suc, zero, ◌+◌, ◌-◌, ◌*◌, ◌/◌, ◌%◌, ◌^◌, Bool, true, false, not, ◌||◌, Option, none, some,
  List, ltb, leb, ◌==◌, if◌then◌else◌, update, Run, done, panicked, ◌>>=◌, ◌>>◌, assert,
}
use tierbuf.Frame.{Frame, new_frame}
use tierbuf.Frame.Queue.{ArrayQueue}
use tierbuf.Swip.{from_non_null}

-- `frames`, `free_membership` and `page` are boxed slices and the mapped pool: only the indices
-- below `frame_count` are there.
pub record FrameTable (q : ArrayQueue) (Page : Type 0) : Type 0 where
  pub frame_count : ℕ
  pub frames : ℕ → Frame
  pub page : ℕ → Page
  pub free : q.Queue
  pub free_membership : ℕ → Bool

module _ (q : ArrayQueue) where
  -- `for index in first..first + rounds { free.push(index).expect(..) }`
  unfoldable pub fill : (rounds first : ℕ) → q.Queue → Run q.Queue
  fill zero first free = done free
  fill (suc n) first free = do
    let (free', pushed) = q.push first free
    assert pushed
    fill n (first + 1) free'

module _ (q : ArrayQueue) {Page : Type 0} where
  -- `FrameTable::new` on a pool of `frame_count` zeroed pages.
  unfoldable pub new_table : ℕ → Page → Run (FrameTable q Page)
  new_table frame_count zeroed = do
    free ← fill q frame_count 0 (q.new frame_count)
    done (record {
      frame_count = frame_count;
      frames = λ _. new_frame;
      page = λ _. zeroed;
      free = free;
      free_membership = λ _. true;
    })

  unfoldable pub free_count : FrameTable q Page → ℕ
  free_count t = q.len t.free

  -- The exchange of `free_membership[index]` from true to false; an index out of bounds panics.
  unfoldable pub checked_out :
      FrameTable q Page → q.Queue → Option ℕ → Run (FrameTable q Page × Option ℕ)
  checked_out t free none = done (record t { free = free }, none)
  checked_out t free (some index) = do
    assert (ltb index t.frame_count)
    assert (t.free_membership index)
    done (
      record t { free = free; free_membership = update t.free_membership index false },
      some index,
    )

  unfoldable pub pop_free : FrameTable q Page → Run (FrameTable q Page × Option ℕ)
  pop_free t = let (free, popped) = q.pop t.free in checked_out t free popped

  -- `false` is `Err(index)`.
  unfoldable pub push_free : ℕ → FrameTable q Page → FrameTable q Page × Bool
  push_free index t =
      if leb t.frame_count index
      then (t, false)
      else if t.free_membership index
      then (t, false)
      else let (free, pushed) = q.push index t.free in
        if pushed
        then (record t { free = free; free_membership = update t.free_membership index true }, true)
        else (
          record t { free_membership = update (update t.free_membership index true) index false },
          false,
        )

  -- `frame(index)`, `read_with` and `write_with`; the latch is waited for, and an exclusive section
  -- steps its version.
  unfoldable pub frame : ℕ → FrameTable q Page → Run Frame
  frame index t = do assert (ltb index t.frame_count); done (t.frames index)

  unfoldable pub set_frame : ℕ → Frame → FrameTable q Page → FrameTable q Page
  set_frame index f t = record t { frames = update t.frames index f }

-- The metadata slice: its address, and the size of an element, which the compiler lays out.
pub record Layout : Type 0 where
  pub base : ℕ
  pub element_size : ℕ

-- `stable_slice_resident_addr` of sys/mod.rs
unfoldable pub resident_addr : Layout → (frame_count index : ℕ) → Run ℕ
resident_addr l frame_count index = do
  assert (ltb index frame_count)
  from_non_null (l.base + index * l.element_size)

-- `checked_mul` and `checked_add` of `usize`
abbrev pub checked : ℕ → Option ℕ
checked n = if ltb n (2 ^ 64) then some n else none

locate : Layout → (frame_count resident : ℕ) → (end : ℕ) → Run (Option ℕ)
locate l frame_count resident end =
    if ltb resident l.base || leb end resident
    then done none
    else if not ((resident - l.base) % l.element_size == 0)
    then done none
    else (let index = (resident - l.base) / l.element_size in
        resident_addr l frame_count index >>= λ address.
        done (if address == resident then some index else none))

locate_before : Layout → (frame_count resident : ℕ) → Option ℕ → Run (Option ℕ)
locate_before l frame_count resident none = done none
locate_before l frame_count resident (some end) = locate l frame_count resident end

locate_within : Layout → (frame_count resident : ℕ) → Option ℕ → Run (Option ℕ)
locate_within l frame_count resident none = done none
locate_within l frame_count resident (some size) =
    locate_before l frame_count resident (checked (l.base + size))

unfoldable pub index_of_resident : Layout → (frame_count resident : ℕ) → Run (Option ℕ)
unfolding locate locate_before locate_within
index_of_resident l frame_count resident =
    locate_within l frame_count resident (checked (l.element_size * frame_count))
