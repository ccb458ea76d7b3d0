-- ===== src/Pool/DemandFault/Promise.antt =====
-- What a fault of `perform_demand_fault` in crates/tierbuf/src/pool.rs may leave behind.
use tierbuf.Prelude.{
  ℕ, ◌+◌, ◌%◌, ◌^◌, ◌≤◌, ◌≡◌, ◌≢◌, ◌⊎◌, false, Option, none, some, Run, done, panicked,
}
use tierbuf.Swip.{SwipState, hot, cooling, evicted, SwipInner}
use tierbuf.Swip.Words.{word_of}
use tierbuf.Frame.{exclusive_section, Frame}
use tierbuf.Fault.{BufError}
use tierbuf.Pool.Backend.{TierBackend, Result, ok, err, Location}
use tierbuf.Pool.Eviction.{Storage}
use tierbuf.Pool.Eviction.WriteBack.{Keeps}
use tierbuf.Pool.Eviction.Exchange.{IsVacant}
use tierbuf.Pool.DemandFault.{Faulted}

-- The frame `g` is `f`, installed for the page and its owner, clean, at the next generation and not
-- pinned.
pub record IsInstalled (pid owner : ℕ) (f g : Frame) : Type 0 where
  pub names : g.pid ≡ pid
  pub owned : g.owner_swip ≡ some owner
  pub clean : g.dirty ≡ false
  pub newer : g.generation ≡ (f.generation + 1) % 2 ^ 32
  pub unpinned : g.pin_control ≡ 0

-- The acquired frame goes back to the free queue: as it was acquired but unreserved
-- and with its latch used once, or vacant.
abbrev pub IsFree : (acquired : Result Frame) → Option Frame → Type 0
IsFree acquired none = Unit
IsFree acquired (some g) =
    (f : Frame) × (acquired ≡ ok f)
    × ((g ≡ record f { latch = exclusive_section f.latch; pin_control = 0 })
        ⊎ IsVacant ((f.generation + 1) % 2 ^ 32) g)

-- The page was resident when its handle was loaded.
abbrev pub WasResident : SwipState → Type 0
WasResident loaded = (r : ℕ) × ((loaded ≡ hot r) ⊎ (loaded ≡ cooling r))

-- What keeps the page out: the handle is of another page, the tier of its location is missing or cannot
-- read it, there is no frame, or the handle has changed by the exchange.
abbrev pub Blocks :
    (T : TierBackend) (count pid : ℕ)
    → Storage T
    → (loaded : SwipState) → (cell : SwipInner) → Result Frame
    → Type 0
Blocks T count pid s loaded cell acquired =
    ((named : ℕ) × (loaded ≡ evicted named) × (named ≢ pid))
    ⊎ ((l : Location) × (s.directory pid ≡ some l)
        × ((count ≤ l.tier_index)
            ⊎ ((e : BufError) × ((T.read l.offset (s.tiers l.tier_index)).1 ≡ err e))))
    ⊎ ((e : BufError) × (acquired ≡ err e))
    ⊎ (cell.word ≢ word_of (evicted pid))

module _ (pid owner resident : ℕ) {Page : Type 0} (page : Page) (location : Option Location)
    (seen cell : SwipInner) (acquired : Result Frame) (Here Blocked : Type 0) where
  -- If the fault reports a tier, it is that of the page's location.
  abbrev pub Arrives : (cell' : SwipInner) → Option Frame → Option Page → Result (Option ℕ) → Type 0
  Arrives cell' (some g) (some p) (ok (some i)) =
      (p ≡ page)
      × ((l : Location) × (location ≡ some l) × (i ≡ l.tier_index))
      × ((f : Frame) × (acquired ≡ ok f) × IsInstalled pid owner f g)
      × (cell.word ≡ word_of (evicted pid))
      × (cell' ≡ record cell { word = resident })
  Arrives cell' f none (ok none) = IsFree acquired f × ((cell' ≡ seen) ⊎ (cell' ≡ cell)) × Here
  Arrives cell' f none (err _) = IsFree acquired f × ((cell' ≡ seen) ⊎ (cell' ≡ cell)) × Blocked
  Arrives cell' _ _ _ = ⊥

-- The fault returns, keeps every stored page and the directory, and either the frame holds the page,
-- is installed for it, and the handle is hot there, or no page came in, the frame is free, and the
-- handle is as it was seen; then the page was resident, or the error has one of its causes.
abbrev pub Faults :
    (T : TierBackend) (count pid owner resident : ℕ)
    → T.Page
    → Storage T
    → (loaded : SwipState) → (seen cell : SwipInner) → Result Frame
    → Run (Faulted T)
    → Type 0
Faults T count pid owner resident page s loaded seen cell acquired panicked = ⊥
Faults T count pid owner resident page s loaded seen cell acquired (done r) =
    Keeps T s r.storage
    × Arrives pid owner resident page (s.directory pid) seen cell acquired (WasResident loaded)
        (Blocks T count pid s loaded cell acquired) r.cell r.frame r.page r.result
