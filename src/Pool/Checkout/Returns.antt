-- ===== src/Pool/Checkout/Returns.antt =====
-- A checked-out frame that is dropped returns to the free queue.
use tierbuf.Prelude.{ℕ, ◌<◌, ◌≡◌, refl, ◌∙◌, true, [], ◌∷◌, ◌++◌, arith, In, done}
use tierbuf.Frame.{evicting, release_eviction}
use tierbuf.Frame.Queue.{ArrayQueue}
use tierbuf.Frame.Table.{FrameTable, push_free, frame, set_frame}
use tierbuf.Frame.Table.Free.{IsTable, queued, push_free_lem}
use tierbuf.Pool.Checkout.{checked_out_at, set_control, unreserve, push_back, drop_free}

module _ (q : ArrayQueue) {Page : Type 0} where
  set_control-IsTable :
      (i word : ℕ) (t : FrameTable q Page) → IsTable q t → IsTable q (set_control q i word t)
  unfolding set_control set_frame
  set_control-IsTable i word t v = record {
    room = v.room;
    counted = v.counted;
    listed = v.listed;
    complete = v.complete;
    distinct = v.distinct;
  }

  unreserve-control :
      (t : FrameTable q Page) (i : ℕ)
      → i < t.frame_count
      → (t.frames i).pin_control ≡ evicting
      → unreserve q (checked_out_at i) t ≡ done (set_control q i 0 t)
  unfolding unreserve frame release_eviction
  unreserve-control t i lt pin = ground (arith, lt, pin)

  push_back-done :
      (t : FrameTable q Page) (i : ℕ)
      → (push_free q i t).1 ≡ true
      → push_back q i t ≡ done (push_free q i t).0
  unfolding push_back
  push_back-done t i e = rw e refl

  drop-reserved :
      (t : FrameTable q Page) (i : ℕ)
      → i < t.frame_count
      → (t.frames i).pin_control ≡ evicting
      → drop_free q (checked_out_at i) t ≡ push_back q i (set_control q i 0 t)
  unfolding drop_free
  drop-reserved t i lt pin = rw (unreserve-control t i lt pin) refl

-- In a well-formed table, dropping the guard of a reserved frame that is not queued queues that frame
-- last, keeps the table well-formed and does not panic.
pub drop_free_lem :
    (q : ArrayQueue) {Page : Type 0} (t : FrameTable q Page) (i : ℕ)
    → IsTable q t
    → i < t.frame_count
    → ¬ In i (queued q t)
    → (t.frames i).pin_control ≡ evicting
    → (t' : FrameTable q Page) × (drop_free q (checked_out_at i) t ≡ done t')
      × IsTable q t'
      × (queued q t' ≡ queued q t ++ i ∷ [])
unfolding set_control set_frame
drop_free_lem q t i v lt out pin =
    let t0 = set_control q i 0 t in
    let (accepted, order, well) =
      (push_free_lem q t0 i (set_control-IsTable q i 0 t v)).0 (lt, out) in
    ((push_free q i t0).0, drop-reserved q t i lt pin ∙ push_back-done q t0 i accepted, well, order)
