-- ===== src/Pool/DemandFault/Contents.antt =====
-- A fault hands out the bytes that the tiers hold, and loses none.
use tierbuf.Prelude.{
  ℕ, ◌+◌, ◌%◌, ◌^◌, ◌≡◌, ◌≢◌, refl, sym, subst, ◌⊎◌, inl, inr, true, false, Option, some, List, [],
  arith, ltb, ◌==◌, if-cases, update, done,
}
use tierbuf.Swip.{
  SwipState, hot, cooling, evicted, SwipInner, swapped, observed, decode, load, is_valid,
  encode_hot, try_swizzle,
}
use tierbuf.Swip.Words.{word_of}
use tierbuf.Frame.{
  evicting, exclusive_section, Frame, install, publish_reserved_pin, unpin_once, unpin,
  try_claim_eviction, clear_unpublished,
}
use tierbuf.Pool.Backend.{TierBackend, Result, ok, err, Location}
use tierbuf.Pool.Eviction.{freed, Storage, evict_exact}
use tierbuf.Pool.Eviction.WriteBack.{At, Keeps, replace-Keeps}
use tierbuf.Pool.Eviction.Exchange.{
  IsBacked, IsUnshared, IsVacant, Evicts, exchanged, evicted_word, releases, cleared,
}
use tierbuf.Pool.Eviction.Contents.{evict_exact-Evicts}
use tierbuf.Pool.DemandFault.{early, arrived, read_in, look_up, demand_fault}
use tierbuf.Pool.DemandFault.Promise.{IsInstalled, Faults}

module _ (T : TierBackend) (count pid owner resident : ℕ) (page : T.Page) (cell : SwipInner)
    (state : SwipState) (valid : is_valid pid ≡ true) (tagged : decode cell.word ≡ done state) where
  swizzled :
      ((cell.word ≡ word_of (evicted pid))
        × (try_swizzle pid resident cell ≡ done (record cell { word = resident }, swapped)))
      ⊎ ((cell.word ≢ word_of (evicted pid))
          × (try_swizzle pid resident cell ≡ done (cell, observed state)))
  unfolding try_swizzle encode_hot
  swizzled = rw (evicted_word pid valid) (exchanged _ _ cell state tagged)

  installs :
      (f : Frame)
      → f.pin_control ≡ evicting
      → (g : Frame) × (generation : ℕ) × (install pid owner f ≡ done (g, generation))
        × (g.pin_control ≡ evicting)
        × IsInstalled pid owner f (record g { pin_control = 0 })
  unfolding install
  installs f pin =
      let test : (f.pin_control == evicting) ≡ true = ground arith in
      let generation = (f.generation + 1) % 2 ^ 32 in
      (
        record f {
          latch = exclusive_section f.latch;
          owner_swip = some owner;
          dirty = false;
          heat_epoch = 0;
          generation = generation;
          pid = pid;
        },
        generation,
        rw (valid, test) refl,
        pin,
        record { names = refl; owned = refl; clean = refl; newer = refl; unpinned = refl },
      )

  publishes : (word : ℕ) → word ≡ evicting → publish_reserved_pin word ≡ done 1
  unfolding publish_reserved_pin
  publishes word e = ground arith

  unpins : unpin 1 ≡ done 0
  unfolding unpin unpin_once
  unpins = ground arith

  clears :
      (f : Frame)
      → f.pin_control ≡ 0
      → (g : Frame) × (clear_unpublished f ≡ done g) × IsVacant f.generation g
  unfolding clear_unpublished try_claim_eviction
  clears f e =
      let test : (f.pin_control == 0) ≡ true = ground arith in
      let (g, gone, still, vacant) = cleared (record f { pin_control = evicting }) refl in
      (record g { pin_control = 0 }, rw (test, gone, releases g.pin_control still) refl, vacant)

  -- The read of tier `l.tier_index` keeps every stored page.
  read-Keeps :
      (l : Location) (s : Storage T)
      → Keeps T s (record s {
        tiers = update s.tiers l.tier_index (T.read l.offset (s.tiers l.tier_index)).0;
      })
  read-Keeps l s =
      replace-Keeps T count (λ _. []) page s l.tier_index (T.read l.offset (s.tiers l.tier_index)).0
        s.budgets (λ m p h. T.read-keeps l.offset m (s.tiers l.tier_index) p h)

  same-Keeps : (s : Storage T) → Keeps T s s
  same-Keeps s = record { pages = λ l p h. h; directory = refl }

  module _ (seen : SwipInner) (loaded : SwipState) (s : Storage T) (l : Location)
      (here : s.directory pid ≡ some l) where
    arrived-Faults :
        (f : Frame) (s' : Storage T) (r : Result T.Page)
        → f.pin_control ≡ evicting
        → Keeps T s s'
        → ((p : T.Page) → r ≡ ok p → p ≡ page)
        → (T.read l.offset (s.tiers l.tier_index)).1 ≡ r
        → Faults T count pid owner resident page s loaded seen cell (ok f) (
            arrived T count pid owner resident l.tier_index cell
              (record f { latch = exclusive_section f.latch })
              s'
              r)
    unfolding arrived
    arrived-Faults f s' (err e) pin k same read =
        rw (releases f.pin_control pin)
          (k, ((f, refl, inl refl), inr refl, inr (inl (l, here, inr (e, read)))))
    arrived-Faults f s' (ok p) pin k same read =
        let (g, generation, done_with, still, installed) =
          installs (record f { latch = exclusive_section f.latch }) pin in
        let here_installed : IsInstalled pid owner f (record g { pin_control = 0 }) = record {
          names = installed.names;
          owned = installed.owned;
          clean = installed.clean;
          newer = installed.newer;
          unpinned = refl;
        } in
        elim swizzled [
          | inl (cold, e) ↦
              rw (done_with, publishes g.pin_control still, e, unpins)
                (k, (same p refl, (l, here, refl), (f, refl, here_installed), cold, refl))
          | inr (other, e) ↦
              let (h, gone, vacant) = clears (record g { pin_control = 0 }) refl in
              let last : IsVacant ((f.generation + 1) % 2 ^ 32) h =
                subst (λ n. IsVacant n h) installed.newer vacant in
              rw (done_with, publishes g.pin_control still, e, unpins, gone)
                (k, ((f, refl, inr last), inr refl, inr (inr (inr other))))
        ]

    read_in-Faults :
        (acquired : Result Frame)
        → ((f : Frame) → acquired ≡ ok f → f.pin_control ≡ evicting)
        → At T s l page
        → Faults T count pid owner resident page s loaded seen cell acquired
            (read_in T count pid owner resident l cell acquired s)
    unfolding read_in early
    read_in-Faults (err e) reserved there =
        (same-Keeps s, (tt, inr refl, inr (inr (inl (e, refl)))))
    read_in-Faults (ok f) reserved there =
        arrived-Faults f _ (T.read l.offset (s.tiers l.tier_index)).1 (reserved f refl)
          (read-Keeps l s)
          (λ p e.
            T.read-ok l.offset (s.tiers l.tier_index) (T.read l.offset (s.tiers l.tier_index)).0 p
              page (λ i. ((T.read l.offset (s.tiers l.tier_index)).0, e i)) there)
          refl

    look_up-Faults :
        (acquired : Result Frame)
        → ((f : Frame) → acquired ≡ ok f → f.pin_control ≡ evicting)
        → At T s l page
        → Faults T count pid owner resident page s loaded seen cell acquired
            (look_up T count pid owner resident (some l) cell acquired s)
    unfolding look_up early
    look_up-Faults acquired reserved there =
        if-cases (Faults T count pid owner resident page s loaded seen cell acquired)
          (ltb l.tier_index count) _ _ (λ _. read_in-Faults acquired reserved there)
          (λ n. (same-Keeps s, (tt, inr refl, inr (inl (l, here, inl (ground arith))))))

    fault_of :
        (acquired : Result Frame) (state : SwipState)
        → loaded ≡ state
        → load seen ≡ done state
        → ((f : Frame) → acquired ≡ ok f → f.pin_control ≡ evicting)
        → At T s l page
        → Faults T count pid owner resident page s loaded seen cell acquired
            (demand_fault T count pid owner resident seen cell acquired s)
    unfolding demand_fault early
    fault_of acquired (hot a) is e reserved at = rw e (same-Keeps s, (tt, inl refl, (a, inl is)))
    fault_of acquired (cooling a) is e reserved at =
        rw e (same-Keeps s, (tt, inl refl, (a, inr is)))
    fault_of acquired (evicted named) is e reserved at = rw e (
        if-cases (Faults T count pid owner resident page s loaded seen cell acquired) (named == pid)
          _ _ (λ _. found) (λ n. (same-Keeps s, (tt, inl refl, inl (named, is, ground arith)))))
      where
        found :
            Faults T count pid owner resident page s loaded seen cell acquired
              (look_up T count pid owner resident (s.directory pid) cell acquired s)
        found =
            subst
              (λ o.
                Faults T count pid owner resident page s loaded seen cell acquired
                  (look_up T count pid owner resident o cell acquired s))
              (sym here) (look_up-Faults acquired reserved at)

pub demand_fault-Faults :
    (T : TierBackend) (count pid owner resident : ℕ) (page : T.Page) (seen cell : SwipInner)
    (loaded state : SwipState) (acquired : Result Frame) (s : Storage T) (l : Location)
    → is_valid pid ≡ true
    → load seen ≡ done loaded
    → decode cell.word ≡ done state
    → ((f : Frame) → acquired ≡ ok f → f.pin_control ≡ evicting)
    → s.directory pid ≡ some l
    → At T s l page
    → Faults T count pid owner resident page s loaded seen cell acquired
        (demand_fault T count pid owner resident seen cell acquired s)
demand_fault-Faults T count pid owner resident page seen cell loaded state acquired s l valid e
      tagged reserved at there =
    fault_of T count pid owner resident page cell state valid tagged seen loaded s l at acquired
      loaded refl e reserved there

-- The bytes of a page survive its eviction: a fault on the storage that an eviction left when it
-- freed the frame, if it reports a tier, hands out the page that was evicted, whatever the tiers do,
-- and keeps every stored page.
pub fault-evict :
    (T : TierBackend) (count : ℕ) (name : ℕ → List ℕ) (pid resident : ℕ) (target : Option ℕ)
    (seen : SwipInner) (state : SwipState) (f g : Frame) (page : T.Page) (s s' : Storage T)
    (left : SwipInner) (owner address : ℕ) (cell : SwipInner) (loaded late : SwipState)
    (acquired : Result Frame)
    → f.pin_control ≡ evicting
    → is_valid pid ≡ true
    → decode seen.word ≡ done state
    → IsBacked T pid page s f
    → IsUnshared T pid s
    → evict_exact T count name pid resident target seen f page s ≡ done (s', g, left, ok freed)
    → load left ≡ done loaded
    → decode cell.word ≡ done late
    → ((h : Frame) → acquired ≡ ok h → h.pin_control ≡ evicting)
    → Faults T count pid owner address page s' loaded left cell acquired
        (demand_fault T count pid owner address left cell acquired s')
fault-evict T count name pid resident target seen state f g page s s' left owner address cell loaded
      late acquired pin valid tagged backed unshared evicts loads tagged' reserved =
    let (_, (l, at, there), _, _, _) = subst (Evicts T pid resident page s seen f) evicts (
      evict_exact-Evicts T count name pid resident target seen state f page s pin valid tagged
        backed unshared) in
    demand_fault-Faults T count pid owner address page left cell loaded late acquired s' l valid
      loads tagged' reserved at there
