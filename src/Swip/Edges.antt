-- ===== src/Swip/Edges.antt =====
-- The transitions that docs/architecture.md draws, and that the exchanges make no other.
use tierbuf.Prelude.{
  ℕ, ◌≤◌, ◌<◌, ◌≡◌, refl, ◌⊎◌, inl, inr, Bool, true, false, List, [], ◌∷◌, arith, All, Run, done,
  panicked, ◌>>=◌, ◌==◌,
}
use tierbuf.Swip.{
  max_pid, SwipState, hot, cooling, evicted, SwipInner, Swapped, swapped, observed, from_pid, load,
  try_bind_owner, belongs_to, encode_evicted, is_valid,
}
use tierbuf.Swip.Words.{word_of, decode-word_of}
use tierbuf.Swip.Machine.{
  Request, swizzle, mark_cooling, resurrect, unswizzle, serve, IsRequest, from_state, to_state,
  advance, next, SwipState-discrete,
}
use tierbuf.Swip.Refinement.{Shows, at, serve-next, next-Shows}

-- The state machine of one page.
pub data Edge (pid : ℕ) : SwipState → SwipState → Type 0 where
  fault_installs : (resident : ℕ) → Edge pid (evicted pid) (hot resident)
  candidate_cools : (resident : ℕ) → Edge pid (hot resident) (cooling resident)
  second_chance : (resident : ℕ) → Edge pid (cooling resident) (hot resident)
  write_back_evicts : (resident : ℕ) → Edge pid (cooling resident) (evicted pid)

request-Edge : (pid : ℕ) (r : Request) → IsRequest pid r → Edge pid (from_state r) (to_state r)
request-Edge pid (swizzle p r) v = subst_pid
  where
    subst_pid : Edge pid (evicted p) (hot r)
    subst_pid = rw v.0 (fault_installs r)
request-Edge pid (mark_cooling r) v = candidate_cools r
request-Edge pid (resurrect r) v = second_chance r
request-Edge pid (unswizzle r p) v = rw v.0 (write_back_evicts r)

-- What one request may do to a page: take an edge and succeed, or change nothing and report the
-- state that it met.
abbrev pub Answers : ℕ → SwipInner → SwipState → SwipInner × Swapped → Type 0
Answers pid s st (s', out) =
    ((st' : SwipState) × (out ≡ swapped) × Edge pid st st' × Shows pid s' st')
    ⊎ ((out ≡ observed st) × (s' ≡ s))

advance-Answers :
    (pid : ℕ) (r : Request) (s : SwipInner) (st : SwipState)
    → IsRequest pid r
    → s.word ≡ word_of st
    → (d : Dec (st ≡ from_state r)) → Shows pid (at s (advance r st d).0) (advance r st d).0
    → Answers pid s st (at s (advance r st d).0, (advance r st d).1)
advance-Answers pid r s st v w (yes e) sh = inl (to_state r, refl, rw e (request-Edge pid r v), sh)
advance-Answers pid r s st v w (no n) sh = inr (refl, ground arith)

-- A valid request on a cell that shows a state returns, and its answer is one of `Answers`.
pub serve-Answers :
    (pid : ℕ) (r : Request) (s : SwipInner) (st : SwipState)
    → pid ≤ max_pid
    → IsRequest pid r
    → Shows pid s st
    → (a : SwipInner × Swapped) × (serve r s ≡ done a) × Answers pid s st a
unfolding next
serve-Answers pid r s st small v sh = (
  (at s (next r st).0, (next r st).1),
  serve-next pid r s st small v sh,
  advance-Answers pid r s st v sh.word (SwipState-discrete st (from_state r))
      (next-Shows pid r s st small v sh),
)

abbrev pub fresh : ℕ → SwipInner
fresh pid = record { pid = pid; owner_id = 0; word = word_of (evicted pid) }

-- A handle for a valid page starts evicted, decodes as such and belongs to no manager; a handle for
-- the reserved identifier, or one above it, panics.
pub from_pid-fresh :
    (pid : ℕ)
    → (pid ≤ max_pid
        → (from_pid pid ≡ done (fresh pid))
          × Shows pid (fresh pid) (evicted pid)
          × (load (fresh pid) ≡ done (evicted pid)))
      × (max_pid < pid → from_pid pid ≡ panicked)
      × ((owner : ℕ) → belongs_to owner (fresh pid) ≡ false)
unfolding from_pid encode_evicted is_valid load belongs_to
from_pid-fresh pid = (
  (λ small. (
    ground arith,
    record { page = refl; valid = small; word = refl; own = λ q e. ground arith },
    decode-word_of (evicted pid) small,
  )),
  (λ large. ground arith),
  (λ owner. ground arith),
)

-- Binds in the order of their exchanges; the results of all of them.
unfoldable pub bind_all : List ℕ → SwipInner → Run (SwipInner × List Bool)
bind_all [] s = done (s, [])
bind_all (o ∷ os) s = do
  (s', won) ← try_bind_owner o s
  (t, wons) ← bind_all os s'
  done (t, won ∷ wons)

abbrev pub all_lost : List ℕ → List Bool
all_lost [] = []
all_lost (o ∷ os) = false ∷ all_lost os

bind_all_bound :
    (os : List ℕ) (s : SwipInner)
    → 0 < s.owner_id
    → All (λ o. 0 < o) os
    → bind_all os s ≡ done (s, all_lost os)
unfolding bind_all try_bind_owner
bind_all_bound [] s b h = refl
bind_all_bound (o ∷ os) s b h = ground (arith, bind_all_bound os s)

-- Of any sequence of binds of an unbound handle, none by the reserved identity zero, the first wins
-- and every later one loses; the handle then belongs to that manager and to no other.
pub bind_all-first :
    (o : ℕ) (os : List ℕ) (s : SwipInner)
    → s.owner_id ≡ 0
    → 0 < o
    → All (λ o. 0 < o) os
    → (bind_all (o ∷ os) s ≡ done (record s { owner_id = o }, true ∷ all_lost os))
      × ((q : ℕ) → belongs_to q (record s { owner_id = o }) ≡ (o == q))
unfolding bind_all try_bind_owner belongs_to
bind_all-first o os s u p h =
    (ground (arith, bind_all_bound os (record s { owner_id = o })), (λ q. ground arith))
