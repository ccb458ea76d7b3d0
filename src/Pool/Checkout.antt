-- ===== src/Pool/Checkout.antt =====
-- `FreeFrame` and `OwnedFreeFrame` of crates/tierbuf/src/pool.rs: the guards of frames that were taken
-- off the free queue. Both guards have the same fields and operations but for their checkout.
pub mod Returns
use tierbuf.Prelude.{
  ℕ, Bool, true, false, not, ◌&&◌, Option, none, some, if◌then◌else◌, Run, done, panicked, ◌>>=◌,
  ◌>>◌, assert,
}
use tierbuf.Frame.{try_claim_eviction, publish_reserved_pin, release_eviction}
use tierbuf.Frame.Queue.{ArrayQueue}
use tierbuf.Frame.Table.{FrameTable, pop_free, push_free, frame, set_frame}

pub record FreeFrame : Type 0 where
  pub index : ℕ
  pub active : Bool
  pub reserved : Bool

abbrev pub checked_out_at : ℕ → FreeFrame
checked_out_at index = record { index = index; active = true; reserved = true }

unfoldable pub commit : FreeFrame → Run FreeFrame
commit c = do assert (not c.reserved); done (record c { active = false })

module _ (q : ArrayQueue) {Page : Type 0} where
  -- The control word of a frame in the table.
  unfoldable pub set_control : ℕ → (word : ℕ) → FrameTable q Page → FrameTable q Page
  set_control index word t = set_frame q index (record (t.frames index) { pin_control = word }) t

  -- A round of the loop of `from_index`: `none` yields and tries again.
  unfoldable pub from_index : ℕ → FrameTable q Page → Run (FrameTable q Page × Option FreeFrame)
  from_index index t = do
    f ← frame q index t
    let (word, claimed) = try_claim_eviction f.pin_control
    done (set_control index word t, if claimed then some (checked_out_at index) else none)

  unfoldable pub push_back : ℕ → FrameTable q Page → Run (FrameTable q Page)
  push_back index t = let (t', pushed) = push_free q index t in assert pushed >> done t'

  unfoldable pub claim_or_return :
      Option ℕ → FrameTable q Page → Run (FrameTable q Page × Option FreeFrame)
  claim_or_return none t = done (t, none)
  claim_or_return (some index) t = do
    f ← frame q index t
    let (word, claimed) = try_claim_eviction f.pin_control
    if claimed
        then done (set_control index word t, some (checked_out_at index))
        else (push_back index t >>= λ t'. done (t', none))

  -- `OwnedFreeFrame::try_checkout`
  unfoldable pub try_checkout : FrameTable q Page → Run (FrameTable q Page × Option FreeFrame)
  try_checkout t = do (t', popped) ← pop_free q t; claim_or_return popped t'

  unfoldable pub publish_pin : FreeFrame → FrameTable q Page → Run (FrameTable q Page × FreeFrame)
  publish_pin c t = do
    assert (c.active && c.reserved)
    f ← frame q c.index t
    word ← publish_reserved_pin f.pin_control
    done (set_control c.index word t, record c { reserved = false })

  unfoldable pub unreserve : FreeFrame → FrameTable q Page → Run (FrameTable q Page)
  unreserve c t =
      if c.reserved
      then (do
        f ← frame q c.index t
        word ← release_eviction f.pin_control
        done (set_control c.index word t))
      else done t

  -- `Drop::drop`
  unfoldable pub drop_free : FreeFrame → FrameTable q Page → Run (FrameTable q Page)
  drop_free c t = if c.active then (unreserve c t >>= push_back c.index) else done t
