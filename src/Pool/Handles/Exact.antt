-- ===== src/Pool/Handles/Exact.antt =====
-- The checks of handles and tickets accept exactly what they mean to.
use tierbuf.Prelude.{
  ℕ, ◌+◌, ◌*◌, ◌<◌, ◌≤◌, ◌≡◌, ◌↔◌, refl, sym, ap, ◌∙◌, Bool, true, false, not, ◌||◌, Option, none,
  some, [], arith, leb, ◌==◌, if◌then◌else◌, Run, done, panicked, ◌>>=◌,
}
use tierbuf.Swip.{SwipState, hot, cooling, evicted, max_pid, new_page_id, load}
use tierbuf.Frame.{frame_pid}
use tierbuf.Frame.Table.{resident_addr}
use tierbuf.Frame.Table.Addresses.{IsLaidOut, resident_addr-done}
use tierbuf.Cooling.{CoolingTicket}
use tierbuf.Fault.{invalid_config}
use tierbuf.Tier.Budget.{try_update_once}
use tierbuf.Pool.Backend.{ok, err}
use tierbuf.Pool.Handles.{
  View, is_cell, is_cooling_at, owner_of, occupant_of, frame_at, exact_cooling_owner, next_page,
  allocate_pid,
}

-- The ticket names a frame at its address, which is installed for the ticket's page at the ticket's
-- generation by `owner`, the canonical handle of that page, which cools at that address.
pub record IsExact (v : View) (ticket : CoolingTicket) (owner : ℕ) : Type 0 where
  pub inside : ticket.frame_index < v.frame_count
  pub address : v.layout.base + ticket.frame_index * v.layout.element_size ≡ ticket.resident
  pub names : frame_pid (v.frames ticket.frame_index) ≡ done ticket.pid
  pub generation : (v.frames ticket.frame_index).generation ≡ ticket.generation
  pub owned : (v.frames ticket.frame_index).owner_swip ≡ some owner
  pub page : (v.cells owner).pid ≡ ticket.pid
  pub cools : load (v.cells owner) ≡ done (cooling ticket.resident)
  pub canonical : v.pages ticket.pid ≡ some owner

answer :
    (o : Option ℕ) (owner : ℕ)
    → ◌≡◌ {A = Run (Option ℕ)} (done o) (done (some owner))
    → o ≡ some owner
answer o owner e = cc

reached : (a b : ℕ) → ◌≡◌ {A = Run ℕ} (done a) (done b) → a ≡ b
reached a b e = cc

no_answer : (owner : ℕ) → ¬ (◌≡◌ {A = Run (Option ℕ)} (done none) (done (some owner)))
no_answer owner e = let bad : none ≡ some owner = answer none owner e in cc

-- What a bind that answers was.
ran :
    (m : Run ℕ) (k : ℕ → Run (Option ℕ)) (owner : ℕ)
    → (m >>= k) ≡ done (some owner)
    → (a : ℕ) × (m ≡ done a) × (k a ≡ done (some owner))
ran (done a) k owner e = (a, refl, e)
ran panicked k owner e = cc

loaded :
    (m : Run SwipState) (k : SwipState → Run (Option ℕ)) (owner : ℕ)
    → (m >>= k) ≡ done (some owner)
    → (a : SwipState) × (m ≡ done a) × (k a ≡ done (some owner))
loaded (done a) k owner e = (a, refl, e)
loaded panicked k owner e = cc

-- A test that leads to no answer if it is true.
refuted :
    (c : Bool) (m : Run (Option ℕ)) (owner : ℕ)
    → (if c then done none else m) ≡ done (some owner)
    → (c ≡ false) × (m ≡ done (some owner))
refuted true m owner e = absurd (no_answer owner e)
refuted false m owner e = (refl, e)

cools_at : (r : ℕ) (state : SwipState) → is_cooling_at r state ≡ true → state ≡ cooling r
cools_at r (cooling o) e = let same : o ≡ r = ground arith in ap cooling same
cools_at r (hot o) e = let bad : false ≡ true = e in cc
cools_at r (evicted o) e = let bad : false ≡ true = e in cc

pub same_cell : (cell : ℕ) (o : Option ℕ) → is_cell cell o ≡ true → o ≡ some cell
same_cell cell (some other) e = let same : other ≡ cell = ground arith in ap some same
same_cell cell none e = let bad : false ≡ true = e in cc

or_false : (a b : Bool) → (a || b) ≡ false → (a ≡ false) × (b ≡ false)
or_false false b e = (refl, e)
or_false true b e = let bad : true ≡ false = e in cc

unnegated : (a : Bool) → not a ≡ false → a ≡ true
unnegated true e = refl
unnegated false e = let bad : true ≡ false = e in cc

equal : (a b : ℕ) → not (a == b) ≡ false → a ≡ b
equal a b e = ground arith

passed :
    (c : Bool) (m : Option ℕ) (owner : ℕ)
    → (if c then none else m) ≡ some owner
    → (c ≡ false) × (m ≡ some owner)
passed true m owner e = let bad : none ≡ some owner = e in cc
passed false m owner e = (refl, e)

chosen :
    (c : Bool) (cell owner : ℕ)
    → (if c then some cell else none) ≡ some owner
    → (c ≡ true) × (cell ≡ owner)
chosen true cell owner e = let same : some cell ≡ some owner = e in (refl, cc)
chosen false cell owner e = let bad : none ≡ some owner = e in cc

-- The part of `IsExact` that the owner's handle decides.
owner_exact :
    (v : View) (ticket : CoolingTicket) (o : Option ℕ) (owner : ℕ)
    → owner_of v ticket o ≡ done (some owner)
    → (o ≡ some owner)
      × ((v.cells owner).pid ≡ ticket.pid)
      × (load (v.cells owner) ≡ done (cooling ticket.resident))
      × (v.pages ticket.pid ≡ some owner)
unfolding owner_of
owner_exact v ticket none owner e = absurd (no_answer owner e)
owner_exact v ticket (some c) owner e =
    let (state, loads, rest) = loaded (load (v.cells c)) _ owner e in
    let (tests, found) = passed _ _ owner (answer _ owner rest) in
    let (canonical, same) = chosen _ c owner found in
    let (page, cools) = or_false _ _ tests in
    (
      ap some same,
      ap (λ k. (v.cells k).pid) (sym same) ∙ equal (v.cells c).pid ticket.pid page,
      ap (λ k. load (v.cells k)) (sym same)
          ∙ loads
          ∙ ap done (
              cools_at ticket.resident state
                (unnegated (is_cooling_at ticket.resident state) cools)),
      same_cell c (v.pages ticket.pid) canonical ∙ ap some same,
    )

occupant_exact :
    (v : View) (ticket : CoolingTicket) (named owner : ℕ)
    → occupant_of v ticket named ≡ done (some owner)
    → (named ≡ ticket.pid)
      × ((v.frames ticket.frame_index).generation ≡ ticket.generation)
      × (owner_of v ticket (v.frames ticket.frame_index).owner_swip ≡ done (some owner))
unfolding occupant_of
occupant_exact v ticket named owner e =
    let (tests, rest) = refuted _ _ owner e in
    let (page, generation) = or_false _ _ tests in
    (
      equal named ticket.pid page,
      equal (v.frames ticket.frame_index).generation ticket.generation generation,
      rest,
    )

-- A check that answers with a handle does so only if the ticket is exact for it.
exact_cooling_owner-IsExact :
    (v : View) (ticket : CoolingTicket) (owner : ℕ)
    → IsLaidOut v.layout v.frame_count
    → exact_cooling_owner v ticket ≡ done (some owner)
    → IsExact v ticket owner
unfolding exact_cooling_owner frame_at
exact_cooling_owner-IsExact v ticket owner laid e =
    let (near, resolved) = refuted _ _ owner e in
    let inside : ticket.frame_index < v.frame_count = ground arith in
    let (address, found, at) =
      ran (resident_addr v.layout v.frame_count ticket.frame_index) _ owner resolved in
    let (here, occupied) = refuted _ _ owner at in
    let (named, names, occupant) = ran (frame_pid (v.frames ticket.frame_index)) _ owner occupied in
    let (page, generation, owned) = occupant_exact v ticket named owner occupant in
    let (holder, cell_page, cools, canonical) =
      owner_exact v ticket (v.frames ticket.frame_index).owner_swip owner owned in
    record {
      inside = inside;
      address =
          reached _ _
            (sym (resident_addr-done v.layout v.frame_count ticket.frame_index laid inside) ∙ found)
          ∙ equal address ticket.resident here;
      names = names ∙ ap done page;
      generation = generation;
      owned = holder;
      page = cell_page;
      cools = cools;
      canonical = canonical;
    }

-- An exact ticket is answered with its handle.
IsExact-exact_cooling_owner :
    (v : View) (ticket : CoolingTicket) (owner : ℕ)
    → IsLaidOut v.layout v.frame_count
    → IsExact v ticket owner
    → exact_cooling_owner v ticket ≡ done (some owner)
unfolding exact_cooling_owner owner_of occupant_of frame_at
IsExact-exact_cooling_owner v ticket owner laid h =
    let inside : leb v.frame_count ticket.frame_index ≡ false = ground (arith, h.inside) in
    rw
      (
        inside,
        resident_addr-done v.layout v.frame_count ticket.frame_index laid h.inside,
        h.names,
        h.owned,
        h.cools,
        h.canonical,
      )
      (ground (arith, h.address, h.generation, h.page))

-- On a table that is laid out in the address space, the check of a ticket answers with a handle
-- exactly if the ticket is exact for it.
pub exact_cooling_owner_iff :
    (v : View) (ticket : CoolingTicket) (owner : ℕ)
    → IsLaidOut v.layout v.frame_count
    → (exact_cooling_owner v ticket ≡ done (some owner)) ↔ IsExact v ticket owner
exact_cooling_owner_iff v ticket owner laid = (
  exact_cooling_owner-IsExact v ticket owner laid,
  IsExact-exact_cooling_owner v ticket owner laid,
)

-- An allocation hands out the next identifier and moves on, as long as identifiers last, and fails
-- and changes nothing once they are used up.
pub allocate_pid_lem :
    (next : ℕ)
    → (next ≤ max_pid → allocate_pid next ≡ (next + 1, ok next))
      × (max_pid < next → allocate_pid next ≡ (next, err (invalid_config [])))
unfolding allocate_pid try_update_once next_page new_page_id
allocate_pid_lem next = (ground arith, ground arith)
