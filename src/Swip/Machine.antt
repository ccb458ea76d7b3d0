-- ===== src/Swip/Machine.antt =====
-- The exchanges of a handle as a state machine over `SwipState`. Each exchange is one atomic step,
-- so the steps of all threads that hold clones of one handle are a list of requests.
use tierbuf.Prelude.{ℕ, ◌≤◌, ◌≡◌, List, [], ◌∷◌, Run, done, ◌>>=◌, ℕ_discrete}
use tierbuf.Swip.{
  max_pid, SwipState, hot, cooling, evicted, SwipInner, Swapped, swapped, observed, try_swizzle,
  try_mark_cooling, try_resurrect, try_unswizzle,
}
use tierbuf.Swip.Words.{IsResident}

pub data Request : Type 0 where
  swizzle : (pid resident : ℕ) → Request
  mark_cooling : (resident : ℕ) → Request
  resurrect : (resident : ℕ) → Request
  unswizzle : (resident pid : ℕ) → Request

-- The call that a request stands for.
unfoldable pub serve : Request → SwipInner → Run (SwipInner × Swapped)
serve (swizzle pid r) s = try_swizzle pid r s
serve (mark_cooling r) s = try_mark_cooling r s
serve (resurrect r) s = try_resurrect r s
serve (unswizzle r pid) s = try_unswizzle r pid s

-- All threads' calls in the order of their exchanges.
unfoldable pub serve_all : List Request → SwipInner → Run (SwipInner × List Swapped)
serve_all [] s = done (s, [])
serve_all (r ∷ rs) s = do (s', out) ← serve r s; (t, outs) ← serve_all rs s'; done (t, out ∷ outs)

-- A call that does not panic: of any valid page.
abbrev pub IsCall : Request → Type 0
IsCall (swizzle p r) = (p ≤ max_pid) × IsResident r
IsCall (mark_cooling r) = IsResident r
IsCall (resurrect r) = IsResident r
IsCall (unswizzle r p) = (p ≤ max_pid) × IsResident r

-- A call for the handle's own page.
abbrev pub IsRequest : ℕ → Request → Type 0
IsRequest pid (swizzle p r) = (p ≡ pid) × IsResident r
IsRequest pid (mark_cooling r) = IsResident r
IsRequest pid (resurrect r) = IsResident r
IsRequest pid (unswizzle r p) = (p ≡ pid) × IsResident r

-- What a request is meant to do: leave exactly one state for exactly one other.
abbrev pub from_state : Request → SwipState
from_state (swizzle pid r) = evicted pid
from_state (mark_cooling r) = hot r
from_state (resurrect r) = cooling r
from_state (unswizzle r pid) = cooling r

abbrev pub to_state : Request → SwipState
to_state (swizzle pid r) = hot r
to_state (mark_cooling r) = cooling r
to_state (resurrect r) = hot r
to_state (unswizzle r pid) = evicted pid

unfoldable pub SwipState-discrete : Discrete SwipState
SwipState-discrete = hlevel ℕ_discrete

-- The request succeeds exactly in its own state, and otherwise reports the state that it met.
abbrev pub advance : (r : Request) (s : SwipState) → Dec (s ≡ from_state r) → SwipState × Swapped
advance r s (yes _) = (to_state r, swapped)
advance r s (no _) = (s, observed s)

unfoldable pub next : Request → SwipState → SwipState × Swapped
next r s = advance r s (SwipState-discrete s (from_state r))

unfoldable pub next_all : List Request → SwipState → SwipState × List Swapped
next_all [] s = (s, [])
next_all (r ∷ rs) s = let (s', out) = next r s in let (t, outs) = next_all rs s' in (t, out ∷ outs)
