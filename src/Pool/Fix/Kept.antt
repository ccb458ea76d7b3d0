-- ===== src/Pool/Fix/Kept.antt =====
-- What a step of a fix keeps: pins, the exact frame, and the count of hits and misses.
use tierbuf.Prelude.{
  ℕ, ◌+◌, ◌*◌, ◌<◌, ◌≡◌, refl, ◌∙◌, ◌⊎◌, some, [], ◌∷◌, ◌++◌, arith, Run, done, panicked, ◌>>=◌,
}
use tierbuf.Swip.{hot, cooling}
use tierbuf.Swip.Words.{IsResident}
use tierbuf.Swip.Machine.{next}
use tierbuf.Swip.Refinement.{Shows}
use tierbuf.Frame.{frame_pid}
use tierbuf.Frame.Table.Addresses.{IsLaidOut}
use tierbuf.Metrics.{dram_hits, faults, demand_hits, Event}
use tierbuf.Pool.Handles.{View}
use tierbuf.Pool.Fix.{World}

-- The hits that an event records, of DRAM and of the tiers, and the misses.
abbrev pub hits : Event → ℕ
hits [] = 0
hits ((dram_hits, n) ∷ e) = n + hits e
hits ((demand_hits _, n) ∷ e) = n + hits e
hits (_ ∷ e) = hits e

abbrev pub misses : Event → ℕ
misses [] = 0
misses ((faults, n) ∷ e) = n + misses e
misses (_ ∷ e) = misses e

pub hits-append : (e e' : Event) → hits (e ++ e') ≡ hits e + hits e'
hits-append [] e' = omega arith
hits-append ((dram_hits, n) ∷ e) e' = omega (arith, hits-append e e')
hits-append ((demand_hits _, n) ∷ e) e' = omega (arith, hits-append e e')
hits-append (_ ∷ e) e' = hits-append e e'

pub misses-append : (e e' : Event) → misses (e ++ e') ≡ misses e + misses e'
misses-append [] e' = omega arith
misses-append ((faults, n) ∷ e) e' = omega (arith, misses-append e e')
misses-append (_ ∷ e) e' = misses-append e e'

-- Every pin stays, and so many hits and misses more are recorded.
pub record Kept (w w' : World) (new_hits new_misses : ℕ) : Type 0 where
  pub pins : (j : ℕ) → (w'.view.frames j).pin_control ≡ (w.view.frames j).pin_control
  pub hit : hits w'.stats ≡ hits w.stats + new_hits
  pub missed : misses w'.stats ≡ misses w.stats + new_misses

pub Kept-trans :
    (w w' w'' : World) (h m h' m' : ℕ)
    → Kept w w' h m
    → Kept w' w'' h' m'
    → Kept w w'' (h + h') (m + m')
Kept-trans w w' w'' h m h' m' k k' = record {
  pins = λ j. k'.pins j ∙ k.pins j;
  hit = omega (arith, k.hit, k'.hit);
  missed = omega (arith, k.missed, k'.missed);
}

-- Frame `index`, at address `r`, holds page `pid` for the handle at `cell`, which names it.
pub record Owned (v : View) (pid cell index r : ℕ) : Type 0 where
  pub laid : IsLaidOut v.layout v.frame_count
  pub inside : index < v.frame_count
  pub address : r ≡ v.layout.base + index * v.layout.element_size
  pub resident : IsResident r
  pub names : frame_pid (v.frames index) ≡ done pid
  pub owned : (v.frames index).owner_swip ≡ some cell
  pub shows : Shows pid (v.cells cell) (hot r) ⊎ Shows pid (v.cells cell) (cooling r)

-- The run returns, with the pins kept, the frame exact, and so many hits.
abbrev pub Goes : (pid cell index r : ℕ) → World → ℕ → Run World → Type 0
Goes pid cell index r w n panicked = ⊥
Goes pid cell index r w n (done w') = Kept w w' n 0 × Owned w'.view pid cell index r

pub same-Kept : (w : World) → Kept w w 0 0
same-Kept w = record { pins = λ j. refl; hit = omega arith; missed = omega arith }

pub Goes-after :
    (pid cell index r : ℕ) (w w' : World) (n m : ℕ) (run : Run World)
    → Kept w w' n 0
    → Goes pid cell index r w' m run
    → Goes pid cell index r w (n + m) run
Goes-after pid cell index r w w' n m panicked k h = h
Goes-after pid cell index r w w' n m (done w'') k (k', o) = (Kept-trans w w' w'' n 0 m 0 k k', o)

pub Goes-bind :
    (pid cell index r : ℕ) (w : World) (n m : ℕ) (run : Run World) (k : World → Run World)
    → Goes pid cell index r w n run
    → ((w' : World) → Owned w'.view pid cell index r → Goes pid cell index r w' m (k w'))
    → Goes pid cell index r w (n + m) (run >>= k)
Goes-bind pid cell index r w n m panicked k h next = h
Goes-bind pid cell index r w n m (done w') k (kept, o) next =
    Goes-after pid cell index r w w' n m (k w') kept (next w' o)
