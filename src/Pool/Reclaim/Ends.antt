-- ===== src/Pool/Reclaim/Ends.antt =====
-- How a claimed eviction of crates/tierbuf/src/pool.rs ends: the frame is freed, or the claim is
-- undone.
use mathlib.Core.Logic.{if_neg}
use tierbuf.Prelude.{
  ◌≢◌, subst, ℕ_discrete, ℕ, ◌≡◌, refl, sym, ap, ◌∙◌, leb, inl, inr, Bool, true, ◌==◌, some, arith,
  at_index, if-cases, Run, done, panicked, ◌>>=◌,
}
use tierbuf.Swip.{SwipInner, Swapped}
use tierbuf.Frame.{Frame, evicting, release_eviction}
use tierbuf.Frame.Queue.{ArrayQueue}
use tierbuf.Frame.Table.{FrameTable, set_frame, push_free}
use tierbuf.Frame.Table.Free.{IsTable, push_free_lem}
use tierbuf.Cooling.{CoolingTicket}
use tierbuf.Pool.Backend.{TierBackend, ok, err}
use tierbuf.Pool.Eviction.{freed, busy, stale, Storage, Evicted}
use tierbuf.Pool.Eviction.Exchange.{IsBacked, Spares, IsVacant, Evicts, resurrected}
use tierbuf.Pool.Handles.{exact_cooling_owner}
use tierbuf.Pool.Checkout.{push_back}
use tierbuf.Pool.Fix.{consume_prefetched}
use tierbuf.Pool.Allocate.Fresh.{frame_read}
use tierbuf.Pool.Reclaim.{
  Store, table_of, store_view, give_back, after_eviction, unclaim, settled, with_handle,
  is_occupant, give_up,
}
use tierbuf.Pool.Reclaim.Promise.{OthersKept, IsLeft, IsKept, Reclaims, IsHeld}

module _ (q : ArrayQueue) (T : TierBackend) where
  set_frame-IsTable :
      (i : ℕ) (f : Frame) (t : FrameTable q T.Page) → IsTable q t → IsTable q (set_frame q i f t)
  unfolding set_frame
  set_frame-IsTable i f t v = record {
    room = v.room;
    counted = v.counted;
    listed = v.listed;
    complete = v.complete;
    distinct = v.distinct;
  }

  push_free-frames : (i : ℕ) (t : FrameTable q T.Page) → (push_free q i t).0.frames ≡ t.frames
  unfolding push_free
  push_free-frames i t =
      if-cases (λ (r : FrameTable q T.Page × Bool). r.0.frames ≡ t.frames) (leb t.frame_count i) _ _
        (λ _. refl)
        (λ _.
          if-cases (λ (r : FrameTable q T.Page × Bool). r.0.frames ≡ t.frames) (t.free_membership i)
            _ _ (λ _. refl)
            (λ _.
              if-cases (λ (r : FrameTable q T.Page × Bool). r.0.frames ≡ t.frames)
                (q.push i t.free).1 _ _ (λ _. refl) (λ _. refl)))

  push_back-done :
      (t : FrameTable q T.Page) (i : ℕ)
      → (push_free q i t).1 ≡ true
      → push_back q i t ≡ done (push_free q i t).0
  unfolding push_back
  push_back-done t i e = rw e refl

  module _ (writes : SwipInner → SwipInner) (ticket : CoolingTicket) (owner : ℕ) (s : Store q T)
      (v : IsHeld q T writes ticket owner s) where
    -- The state in which the frame is `f` and the handle `c`.
    abbrev left : (Storage T) → Frame → SwipInner → Store q T
    left storage f c = settled q T ticket.frame_index owner storage f c s

    others :
        (storage : Storage T) (f : Frame) (c : SwipInner)
        → OthersKept q T ticket.frame_index owner s (left storage f c)
    unfolding set_frame
    others storage f c = record {
      handles = λ k d. if_neg (ℕ_discrete owner k) (λ e. d (sym e)) _ _;
      frames = λ j d. if_neg (ℕ_discrete ticket.frame_index j) (λ e. d (sym e)) _ _;
    }

    frame_there :
        (storage : Storage T) (f : Frame) (c : SwipInner)
        → (table_of q T (left storage f c)).frames ticket.frame_index ≡ f
    unfolding set_frame
    frame_there storage f c =
        at_index (table_of q T s).frames ticket.frame_index f ticket.frame_index refl

    handle_there :
        (storage : Storage T) (f : Frame) (c : SwipInner)
        → (left storage f c).manager.cells owner ≡ c
    handle_there storage f c = at_index s.manager.cells owner c owner refl

    -- The frame was not freed.
    kept :
        (storage : Storage T) (f : Frame) (c : SwipInner)
        → Spares T ticket.pid s.storage storage
        → storage.directory ticket.pid ≡ s.storage.directory ticket.pid
        → f ≡ record ((table_of q T s).frames ticket.frame_index) { pin_control = 0 }
        → (IsBacked T ticket.pid
              ((table_of q T s).page ticket.frame_index)
              s.storage
              ((table_of q T s).frames ticket.frame_index)
            → IsBacked T ticket.pid ((table_of q T s).page ticket.frame_index) storage f)
        → IsLeft q T writes ticket.resident (s.manager.cells owner) c
        → IsKept q T writes ticket owner s (left storage f c)
    unfolding set_frame
    kept storage f c spares held same backed again = (
      spares,
      held,
      (λ b.
          subst (IsBacked T ticket.pid ((table_of q T s).page ticket.frame_index) storage)
            (sym (frame_there storage f c)) (backed b)),
      frame_there storage f c ∙ same,
      refl,
      refl,
      subst (IsLeft q T writes ticket.resident (s.manager.cells owner))
          (sym (handle_there storage f c)) again,
      others storage f c,
    )

    freed-Reclaims :
        (storage : Storage T) (f : Frame) (cell : SwipInner)
        → Evicts T ticket.pid ticket.resident
            ((table_of q T s).page ticket.frame_index)
            s.storage
            (writes (s.manager.cells owner))
            ((table_of q T s).frames ticket.frame_index)
            (done (storage, f, cell, ok freed))
        → Reclaims q T writes ticket owner s
            (after_eviction q T ticket owner s (storage, f, cell, ok freed))
    unfolding after_eviction give_back consume_prefetched set_frame
    freed-Reclaims storage f cell (spares, kept, vacant, cooled, evicts) =
        let i = ticket.frame_index in
        let t = set_frame q i f (table_of q T s) in
        let last = ((table_of q T s).frames i).generation in
        let (accepted, order, well) =
          (push_free_lem q t i (set_frame-IsTable i f (table_of q T s) v.table)).0
            (v.inside, v.out) in
        let o = others storage f cell in
        rw (push_back-done t i accepted) (
          spares,
          kept,
          well,
          order,
          subst (IsVacant last)
              (sym
                (ap (λ (g : ℕ → Frame). g i) (push_free-frames i t) ∙ frame_there storage f cell))
              vacant,
          cooled,
          handle_there storage f cell ∙ evicts,
          record {
            handles = o.handles;
            frames = λ j d. ap (λ (g : ℕ → Frame). g j) (push_free-frames i t) ∙ o.frames j d;
          },
        )

    pub after-Reclaims :
        (run : Run (Evicted T))
        → Evicts T ticket.pid ticket.resident
            ((table_of q T s).page ticket.frame_index)
            s.storage
            (writes (s.manager.cells owner))
            ((table_of q T s).frames ticket.frame_index)
            run
        → Reclaims q T writes ticket owner s (run >>= after_eviction q T ticket owner s)
    unfolding after_eviction
    after-Reclaims panicked e = absurd e
    after-Reclaims (done (storage, f, cell, ok freed)) e = freed-Reclaims storage f cell e
    after-Reclaims (done (storage, f, cell, ok busy)) e = absurd e
    after-Reclaims (done (storage, f, cell, ok stale))
          ((spares, held, same, backed, again), other) =
        (
          kept storage f cell spares held same (λ _. backed)
              (writes (s.manager.cells owner), inr refl, inr again),
          inr other,
        )
    after-Reclaims (done (storage, f, cell, err e)) ((spares, held, same, backed, again), need) = (
      kept storage f cell spares held same (λ _. backed)
          (writes (s.manager.cells owner), inr refl, inr again),
      need,
    )

    -- A reservation that is dropped, whatever the handle has become.
    unclaim-Reclaims :
        (c : SwipInner)
        → IsLeft q T writes ticket.resident (s.manager.cells owner) c
        → exact_cooling_owner (store_view q T s) ticket ≢ done (some owner)
        → Reclaims q T writes ticket owner s (
            unclaim q T ticket.frame_index
              ((table_of q T s).frames ticket.frame_index)
              (with_handle q T owner c s)
            >>= λ s'. done (s', ok stale))
    unfolding unclaim release_eviction
    unclaim-Reclaims c again changed =
        let f = (table_of q T s).frames ticket.frame_index in
        let pin : (f.pin_control == evicting) ≡ true = ground (arith, v.reserved) in
        rw pin (
          kept s.storage (record f { pin_control = 0 }) c (λ o l p d there held. (there, held)) refl
              refl (λ b. b) again,
          inl changed,
        )

    pub give_up-Reclaims :
        exact_cooling_owner (store_view q T s) ticket ≢ done (some owner)
        → Reclaims q T writes ticket owner s (give_up q T ticket owner s)
    unfolding give_up
    give_up-Reclaims changed =
        let i = ticket.frame_index in
        let f = (table_of q T s).frames i in
        let now = s.manager.cells owner in
        let (named, e) = v.named in
        let (st, tagged) = v.handle in
        let (c, r, back, again) = resurrected ticket.resident now st tagged in
        rw (frame_read q i f (table_of q T s) v.inside refl, e)
          (if-cases
            (λ (run : Run (SwipInner × Swapped)). Reclaims q T writes ticket owner s (
              run >>= λ swap.
              unclaim q T i f (with_handle q T owner swap.0 s) >>= λ s'. done (s', ok stale)))
            (is_occupant ticket owner named f) _ _
            (λ _. rw back (unclaim-Reclaims c (now, inl refl, inr again) changed))
            (λ _. unclaim-Reclaims now (now, inl refl, inl refl) changed))
