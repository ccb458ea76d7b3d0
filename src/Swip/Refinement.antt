-- ===== src/Swip/Refinement.antt =====
-- The word operations of a handle refine the state machine of `Machine`.
use tierbuf.Prelude.{ℕ, ◌≤◌, ◌≡◌, refl, ap, ◌∙◌, subst, List, [], ◌∷◌, arith, All, done, ◌>>=◌}
use tierbuf.Swip.{
  max_pid, encode_hot, encode_cooling, SwipState, hot, cooling, evicted, encode_evicted, SwipInner,
  Swapped, swapped, observed, compare_exchange, try_swizzle, try_mark_cooling, try_resurrect,
  try_unswizzle,
}
use tierbuf.Swip.Words.{IsResident, IsState, word_of, encode, encode-word_of, decode-word_of}
use tierbuf.Swip.Machine.{
  Request, swizzle, mark_cooling, resurrect, unswizzle, serve, serve_all, IsCall, IsRequest,
  from_state, to_state, advance, next, next_all, SwipState-discrete,
}

-- Two states with one word are one state.
pub word_of-injective : (s t : SwipState) → IsState s → IsState t → word_of s ≡ word_of t → s ≡ t
word_of-injective (hot r) (hot q) hs ht e = ground arith
word_of-injective (hot r) (cooling q) hs ht e = absurd (omega arith)
word_of-injective (hot r) (evicted q) hs ht e = absurd (omega arith)
word_of-injective (cooling r) (hot q) hs ht e = absurd (omega arith)
word_of-injective (cooling r) (cooling q) hs ht e = let p : r ≡ q = omega arith in ap cooling p
word_of-injective (cooling r) (evicted q) hs ht e = absurd (omega arith)
word_of-injective (evicted r) (hot q) hs ht e = absurd (omega arith)
word_of-injective (evicted r) (cooling q) hs ht e = absurd (omega arith)
word_of-injective (evicted r) (evicted q) hs ht e = let p : r ≡ q = omega arith in ap evicted p

-- The cell `s` of page `pid` stands for the state `st`.
pub record Shows (pid : ℕ) (s : SwipInner) (st : SwipState) : Type 0 where
  pub page : s.pid ≡ pid
  pub valid : IsState st
  pub word : s.word ≡ word_of st
  pub own : (q : ℕ) → st ≡ evicted q → q ≡ pid

abbrev pub at : SwipInner → SwipState → SwipInner
at s st = record s { word = word_of st }

compare_exchange_lem :
    (s : SwipInner) (st from to : SwipState)
    → IsState st
    → IsState from
    → s.word ≡ word_of st
    → compare_exchange (word_of from) (word_of to) s ≡ elim (SwipState-discrete st from) [
      | yes _ ↦ done (at s to, swapped)
      | no _ ↦ done (s, observed st)
    ]
unfolding compare_exchange
compare_exchange_lem s st from to vs vf w =
    ground (arith, word_of-injective st from vs vf, decode-word_of st vs)

pub encode_evicted_lem :
    (pid : ℕ) → pid ≤ max_pid → encode_evicted pid ≡ done (word_of (evicted pid))
unfolding encode
encode_evicted_lem pid h = encode-word_of (evicted pid) h

encode_cooling_lem : (r : ℕ) → IsResident r → encode_cooling r ≡ word_of (cooling r)
unfolding encode_cooling
encode_cooling_lem r h = ground arith

-- Each request exchanges exactly its two words.
serve_words :
    (r : Request) (s : SwipInner)
    → IsCall r
    → serve r s ≡ compare_exchange (word_of (from_state r)) (word_of (to_state r)) s
unfolding serve try_swizzle try_mark_cooling try_resurrect try_unswizzle encode_hot
serve_words (swizzle p r) s v = ground (arith, encode_evicted_lem p)
serve_words (mark_cooling r) s v = ground (arith, encode_cooling_lem r)
serve_words (resurrect r) s v = ground (arith, encode_cooling_lem r)
serve_words (unswizzle r p) s v = ground (arith, encode_evicted_lem p, encode_cooling_lem r)

call-IsState : (r : Request) → IsCall r → IsState (from_state r) × IsState (to_state r)
call-IsState (swizzle p r) v = ground arith
call-IsState (mark_cooling r) v = ground arith
call-IsState (resurrect r) v = ground arith
call-IsState (unswizzle r p) v = ground arith

request-IsCall : (pid : ℕ) (r : Request) → pid ≤ max_pid → IsRequest pid r → IsCall r
request-IsCall pid (swizzle p r) h v = (omega (arith, v.0), v.1)
request-IsCall pid (mark_cooling r) h v = v
request-IsCall pid (resurrect r) h v = v
request-IsCall pid (unswizzle r p) h v = (omega (arith, v.0), v.1)

-- A call on a cell whose word encodes a state.
module _ (r : Request) (s : SwipInner) (st : SwipState) (v : IsCall r) (valid : IsState st)
    (encodes : s.word ≡ word_of st) where
  call-next : serve r s ≡ done (at s (next r st).0, (next r st).1)
  unfolding next
  call-next = ground (
    arith,
    serve_words r s v,
    compare_exchange_lem s st (from_state r) (to_state r) valid (call-IsState r v).0 encodes,
    encodes,
  )

  advance-IsState : (d : Dec (st ≡ from_state r)) → IsState (advance r st d).0
  advance-IsState (yes e) = (call-IsState r v).1
  advance-IsState (no n) = valid

  next-IsState : IsState (next r st).0
  unfolding next
  next-IsState = advance-IsState (SwipState-discrete st (from_state r))

to_state_own :
    (pid : ℕ) (r : Request) → IsRequest pid r → (q : ℕ) → to_state r ≡ evicted q → q ≡ pid
to_state_own pid (swizzle p r) v q e = ground arith
to_state_own pid (mark_cooling r) v q e = ground arith
to_state_own pid (resurrect r) v q e = ground arith
to_state_own pid (unswizzle r p) v q e = ground arith

module _ (pid : ℕ) (r : Request) (s : SwipInner) (st : SwipState) (small : pid ≤ max_pid)
    (v : IsRequest pid r) (sh : Shows pid s st) where
  pub serve-next : serve r s ≡ done (at s (next r st).0, (next r st).1)
  serve-next = call-next r s st (request-IsCall pid r small v) sh.valid sh.word

  advance-Shows :
      (d : Dec (st ≡ from_state r)) → Shows pid (at s (advance r st d).0) (advance r st d).0
  advance-Shows (yes e) = record {
    page = sh.page;
    valid = (call-IsState r (request-IsCall pid r small v)).1;
    word = refl;
    own = to_state_own pid r v;
  }
  advance-Shows (no n) = record { page = sh.page; valid = sh.valid; word = refl; own = sh.own }

  pub next-Shows : Shows pid (at s (next r st).0) (next r st).0
  unfolding next
  next-Shows = advance-Shows (SwipState-discrete st (from_state r))

-- From a cell whose word encodes a valid state, any sequence of calls for valid pages, its own or
-- others, and for resident addresses, runs without a panic, returns what the state machine returns,
-- and ends in the cell with the word of the machine's last state, which is valid.
pub serve_all-next_all :
    (rs : List Request) (s : SwipInner) (st : SwipState)
    → All IsCall rs
    → IsState st
    → s.word ≡ word_of st
    → (serve_all rs s ≡ done (at s (next_all rs st).0, (next_all rs st).1))
      × IsState (next_all rs st).0
unfolding serve_all next_all
serve_all-next_all [] s st v valid encodes = (ground (arith, encodes), valid)
serve_all-next_all (r ∷ rs) s st v valid encodes =
    let st' = (next r st).0 in
    let (runs, valid') =
      serve_all-next_all rs (at s st') st' v.1 (next-IsState r s st v.0 valid encodes) refl in
    (rw (call-next r s st v.0 valid encodes, ◌>>=◌, runs, ◌>>=◌) refl, valid')

advance_same :
    (q : Request) (s : SwipState) (d : Dec (s ≡ from_state q))
    → s ≡ from_state q
    → advance q s d ≡ (to_state q, swapped)
advance_same q s (yes _) e = refl
advance_same q s (no n) e = absurd (n e)

-- A handle in the state that a request expects takes it.
pub serve-takes :
    (pid : ℕ) (q : Request) (c : SwipInner)
    → pid ≤ max_pid
    → IsRequest pid q
    → Shows pid c (from_state q)
    → (serve q c ≡ done (at c (to_state q), swapped)) × Shows pid (at c (to_state q)) (to_state q)
unfolding next
serve-takes pid q c small v sh =
    let st = from_state q in
    let e = advance_same q st (SwipState-discrete st st) refl in
    (
      serve-next pid q c st small v sh ∙ ap (λ (a : SwipState × Swapped). done (at c a.0, a.1)) e,
      subst (λ (a : SwipState × Swapped). Shows pid (at c a.0) a.0) e
          (next-Shows pid q c st small v sh),
    )
