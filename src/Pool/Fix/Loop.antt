-- ===== src/Pool/Fix/Loop.antt =====
-- A whole fix: what it counts, and the guard that it returns.
use tierbuf.Prelude.{ℕ, ◌+◌, ◌≡◌, Option, none, some, List, bit, Run, done, panicked}
use tierbuf.Metrics.{Event}
use tierbuf.Pool.Fix.{World, source_of, Verdict, fixed, again, failed, Progress, Seen}
use tierbuf.Pool.Fix.Kept.{hits, misses, Owned}
use tierbuf.Pool.Fix.Trace.{Traced}

-- A guard on a frame that holds the page for the handle, with exactly one hit, from a lower tier if
-- a fault of a round that was run named one; or an error, with no hit. Either way a miss is counted
-- once if one of these rounds asked for a fault.
abbrev pub Fixes :
    (pid cell : ℕ)
    → List Seen
    → Progress
    → Event
    → Run (Option (World × Progress × Verdict))
    → Type 0
Fixes pid cell ss p e panicked = ⊥
Fixes pid cell ss p e (done none) = Unit
Fixes pid cell ss p e (done (some (w, p', fixed index source))) =
    (hits w.stats ≡ hits e + 1)
    × (misses w.stats + bit p.faulted ≡ misses e + bit p'.faulted)
    × Traced pid ss p p'
    × (source ≡ source_of p'.faulted_tier)
    × ((r : ℕ) × Owned w.view pid cell index r)
Fixes pid cell ss p e (done (some (w, p', failed x))) =
    (hits w.stats ≡ hits e)
    × (misses w.stats + bit p.faulted ≡ misses e + bit p'.faulted)
    × Traced pid ss p p'
Fixes pid cell ss p e (done (some (w, p', again))) = ⊥
