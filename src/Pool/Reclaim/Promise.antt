-- ===== src/Pool/Reclaim/Promise.antt =====
-- What an eviction of `evict_ticket` in crates/tierbuf/src/pool.rs may leave behind.
use tierbuf.Prelude.{
  none, ◌≢◌, ◌⊎◌, ℕ, ◌<◌, ◌≡◌, true, some, [], ◌∷◌, ◌++◌, In, Run, done, panicked,
}
use tierbuf.Swip.{SwipState, evicted, SwipInner, decode, is_valid, encode_cooling}
use tierbuf.Frame.{evicting, frame_pid}
use tierbuf.Frame.Queue.{ArrayQueue}
use tierbuf.Frame.Table.Free.{IsTable, queued}
use tierbuf.Cooling.{CoolingTicket}
use tierbuf.Pool.Backend.{TierBackend, Result, ok, err, Location}
use tierbuf.Pool.Eviction.{EvictionOutcome, freed, busy, stale}
use tierbuf.Pool.Eviction.WriteBack.{At}
use tierbuf.Pool.Eviction.Exchange.{IsBacked, IsUnshared, Spares, IsVacant, Resurrects}
use tierbuf.Swip.Words.{word_of}
use tierbuf.Pool.Handles.{exact_cooling_owner}
use tierbuf.Pool.Reclaim.{Store, table_of, store_view}

module _ (q : ArrayQueue) (T : TierBackend) where
  -- Every handle but that of `owner` and every frame but `i` is as it was.
  pub record OthersKept (i owner : ℕ) (s s' : Store q T) : Type 0 where
    pub handles : (c : ℕ) → c ≢ owner → s'.manager.cells c ≡ s.manager.cells c
    pub frames : (j : ℕ) → j ≢ i → (table_of q T s').frames j ≡ (table_of q T s).frames j

  -- The handle as the call met it, before or after the writes of other threads; it may have been made
  -- hot again if it cooled there.
  abbrev pub IsLeft :
      (writes : SwipInner → SwipInner) → (resident : ℕ) → (c c' : SwipInner) → Type 0
  IsLeft writes resident c c' =
      (met : SwipInner) × ((met ≡ c) ⊎ (met ≡ writes c)) × ((c' ≡ met) ⊎ Resurrects resident met c')

  -- The frame holds its page as before, but unreserved, with its backing.
  abbrev pub IsKept :
      (writes : SwipInner → SwipInner) → CoolingTicket → (owner : ℕ) → (s s' : Store q T) → Type 0
  IsKept writes ticket owner s s' =
      Spares T ticket.pid s.storage s'.storage
      × (s'.storage.directory ticket.pid ≡ s.storage.directory ticket.pid)
      × (IsBacked T ticket.pid ((table_of q T s).page ticket.frame_index) s.storage
            ((table_of q T s).frames ticket.frame_index)
          → IsBacked T ticket.pid ((table_of q T s).page ticket.frame_index) s'.storage
              ((table_of q T s').frames ticket.frame_index))
      × ((table_of q T s').frames ticket.frame_index
          ≡ record ((table_of q T s).frames ticket.frame_index) { pin_control = 0 })
      × ((table_of q T s').page ≡ (table_of q T s).page)
      × (queued q (table_of q T s') ≡ queued q (table_of q T s))
      × IsLeft writes ticket.resident (s.manager.cells owner) (s'.manager.cells owner)
      × OthersKept ticket.frame_index owner s s'

  -- The eviction of a ticket has ended. If the frame was freed, it is vacant, unreserved and queued
  -- last, a location holds its page, and its handle, which cooled there, names the page as evicted.
  -- Else the frame is kept, and the ticket was stale, at the second check or at the exchange, or a page
  -- that is dirty or has no backing could not be written. In each case every other page, handle and
  -- frame is as it was.
  abbrev pub Reclaimed :
      (writes : SwipInner → SwipInner)
      → CoolingTicket
      → (owner : ℕ) → (s s' : Store q T) → Result EvictionOutcome
      → Type 0
  Reclaimed writes ticket owner s s' (ok freed) =
      Spares T ticket.pid s.storage s'.storage
      × ((l : Location) × (s'.storage.directory ticket.pid ≡ some l)
          × At T s'.storage l ((table_of q T s).page ticket.frame_index))
      × IsTable q (table_of q T s')
      × (queued q (table_of q T s') ≡ queued q (table_of q T s) ++ ticket.frame_index ∷ [])
      × IsVacant ((table_of q T s).frames ticket.frame_index).generation
          ((table_of q T s').frames ticket.frame_index)
      × ((writes (s.manager.cells owner)).word ≡ encode_cooling ticket.resident)
      × (s'.manager.cells owner
          ≡ record (writes (s.manager.cells owner)) { word = word_of (evicted ticket.pid) })
      × OthersKept ticket.frame_index owner s s'
  Reclaimed writes ticket owner s s' (ok busy) = ⊥
  Reclaimed writes ticket owner s s' (ok stale) =
      IsKept writes ticket owner s s'
      × ((exact_cooling_owner (store_view q T s) ticket ≢ done (some owner))
          ⊎ ((writes (s.manager.cells owner)).word ≢ encode_cooling ticket.resident))
  Reclaimed writes ticket owner s s' (err e) =
      IsKept writes ticket owner s s'
      × ((((table_of q T s).frames ticket.frame_index).dirty ≡ true)
          ⊎ (s.storage.directory ticket.pid ≡ none))

  abbrev pub Reclaims :
      (writes : SwipInner → SwipInner)
      → CoolingTicket
      → (owner : ℕ) → Store q T
      → Run (Store q T × Result EvictionOutcome)
      → Type 0
  Reclaims writes ticket owner s panicked = ⊥
  Reclaims writes ticket owner s (done (s', result)) = Reclaimed writes ticket owner s s' result

  -- Frame `i` is reserved by an eviction for `owner` that holds its latch.
  pub record IsHeld (writes : SwipInner → SwipInner) (ticket : CoolingTicket) (owner : ℕ)
      (s : Store q T) : Type 0 where
    pub inside : ticket.frame_index < (table_of q T s).frame_count
    pub reserved : ((table_of q T s).frames ticket.frame_index).pin_control ≡ evicting
    pub out : ¬ In ticket.frame_index (queued q (table_of q T s))
    pub table : IsTable q (table_of q T s)
    pub valid : is_valid ticket.pid ≡ true
    pub named : (pid : ℕ) × (frame_pid ((table_of q T s).frames ticket.frame_index) ≡ done pid)
    pub handle : (state : SwipState) × (decode (s.manager.cells owner).word ≡ done state)
    pub seen : (state : SwipState) × (decode (writes (s.manager.cells owner)).word ≡ done state)
    pub backed :
        exact_cooling_owner (store_view q T s) ticket ≡ done (some owner)
        → IsBacked T ticket.pid
            ((table_of q T s).page ticket.frame_index)
            s.storage
            ((table_of q T s).frames ticket.frame_index)
    pub unshared : IsUnshared T ticket.pid s.storage
