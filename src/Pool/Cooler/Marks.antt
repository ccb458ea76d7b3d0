-- ===== src/Pool/Cooler/Marks.antt =====
-- A candidate that is idle ends cooling and queued; one that is not is left alone.
use tierbuf.Prelude.{
  ℕ, ◌+◌, ◌*◌, ◌≤◌, ◌≡◌, ◌≢◌, refl, sym, ap, ◌∙◌, subst, ◌⊎◌, inl, inr, Bool, true, false, not,
  ◌&&◌, length, ltb, ◌==◌, arith, In, Bool-cases, at_index, off_index, done, panicked, Run, some,
}
use tierbuf.Swip.{hot, cooling, SwipInner, load, decode, max_pid}
use tierbuf.Swip.Words.{decode-word_of}
use tierbuf.Swip.Machine.{mark_cooling, serve}
use tierbuf.Swip.Refinement.{Shows, serve-takes}
use tierbuf.Frame.{Frame, pin_count, is_evicting}
use tierbuf.Frame.Table.Addresses.{resident_addr-done}
use tierbuf.Cooling.{CoolingTicket, push_unique}
use tierbuf.Cooling.Fifo.{push_unique-In, push_unique-grows}
use tierbuf.Pool.Fix.{World, with_cell, enqueue_ticket, cools_there, owner_cools}
use tierbuf.Pool.Fix.Kept.{Owned}
use tierbuf.Pool.Fix.Exchanges.{moved-Owned}
use tierbuf.Pool.Cooler.{mark, mark_owner, mark_state}

abbrev pub ticket_of : (pid index r : ℕ) → World → CoolingTicket
ticket_of pid index r w = record {
  frame_index = index;
  pid = pid;
  generation = (w.view.frames index).generation;
  resident = r;
}

-- No thread has the frame pinned or is evicting it.
unfoldable pub is_idle : Frame → Bool
is_idle f = pin_count f.pin_control == 0 && not (is_evicting f.pin_control)

-- The handle at `cell` is cooling, the frame is queued, and nothing else has changed.
pub record Marked (pid cell index r : ℕ) (w w' : World) : Type 0 where
  pub shows : Shows pid (w'.view.cells cell) (cooling r)
  pub queued : In (ticket_of pid index r w) w'.cooling
  pub grows : length w'.cooling ≤ length w.cooling + 1
  pub frames : w'.view.frames ≡ w.view.frames
  pub cells : (c : ℕ) → cell ≢ c → w'.view.cells c ≡ w.view.cells c

abbrev pub Marks : (pid cell index r : ℕ) → World → Run World → Type 0
Marks pid cell index r w panicked = ⊥
Marks pid cell index r w (done w') = Marked pid cell index r w w'

queues :
    (pid cell index r : ℕ) (w : World)
    → Owned w.view pid cell index r
    → Shows pid (w.view.cells cell) (cooling r)
    → enqueue_ticket index pid r w
      ≡ done (record w { cooling = push_unique (ticket_of pid index r w) w.cooling })
unfolding enqueue_ticket cools_there owner_cools load
queues pid cell index r w o sh =
    let inside : ltb index w.view.frame_count ≡ true = ground (arith, o.inside) in
    let own : (pid == pid) ≡ true = ground arith in
    let same : (r == r) ≡ true = ground arith in
    let loads = ap decode sh.word ∙ decode-word_of (cooling r) sh.valid in
    let addr = resident_addr-done w.view.layout w.view.frame_count index o.laid o.inside in
    let there : (w.view.layout.base + index * w.view.layout.element_size == r) ≡ true =
      ground (arith, o.address) in
    rw (inside, o.names, own, addr) (rw (there, o.owned) (rw loads (rw same refl)))

-- The queueing ends the mark, after a change of the handle alone.
ends :
    (pid cell index r : ℕ) (w : World) (c : SwipInner)
    → Owned w.view pid cell index r
    → Shows pid c (cooling r)
    → Marks pid cell index r w (enqueue_ticket index pid r (with_cell cell c w))
ends pid cell index r w c o sh =
    let w' = with_cell cell c w in
    let here = at_index w.view.cells cell c cell refl in
    let shows = subst (λ d. Shows pid d (cooling r)) (sym here) sh in
    let o' = moved-Owned pid cell index r w c o (inr sh) in
    let t = ticket_of pid index r w in
    subst (Marks pid cell index r w) (sym (queues pid cell index r w' o' shows)) (record {
      shows = shows;
      queued = push_unique-In t w.cooling;
      grows = push_unique-grows t w.cooling;
      frames = refl;
      cells = λ d n. off_index w.view.cells cell c d n;
    })

stays_queued :
    (pid cell index r : ℕ) (w : World)
    → Owned w.view pid cell index r
    → Shows pid (w.view.cells cell) (cooling r)
    → Marks pid cell index r w (enqueue_ticket index pid r w)
stays_queued pid cell index r w o sh =
    let t = ticket_of pid index r w in
    subst (Marks pid cell index r w) (sym (queues pid cell index r w o sh)) (record {
      shows = sh;
      queued = push_unique-In t w.cooling;
      grows = push_unique-grows t w.cooling;
      frames = refl;
      cells = λ d n. refl;
    })

owner-Marks :
    (pid cell index r : ℕ) (w : World)
    → pid ≤ max_pid
    → Owned w.view pid cell index r
    → Marks pid cell index r w (mark_owner index pid r w (some cell))
unfolding mark_owner mark_state serve load
owner-Marks pid cell index r w small o = elim o.shows [
  | inl sh ↦
      let loads = ap decode sh.word ∙ decode-word_of (hot r) sh.valid in
      let same : (r == r) ≡ true = ground arith in
      let (e, sh') = serve-takes pid (mark_cooling r) (w.view.cells cell) small o.resident sh in
      rw loads (rw (same, e) (ends pid cell index r w _ o sh'))
  | inr sh ↦
      let loads = ap decode sh.word ∙ decode-word_of (cooling r) sh.valid in
      let same : (r == r) ≡ true = ground arith in
      rw loads (rw same (stays_queued pid cell index r w o sh))
]

-- At a frame that holds page `pid` for the handle at `cell`, at address `r`, the step of the search
-- returns. When the frame is neither pinned nor being evicted, the handle is then cooling and the
-- frame's ticket is queued, the queue has grown by one at most, and the frames and every other handle
-- are as before; else nothing has changed.
pub mark-Marks :
    (pid cell index r : ℕ) (w : World)
    → pid ≤ max_pid
    → Owned w.view pid cell index r
    → ((is_idle (w.view.frames index) ≡ true) × Marks pid cell index r w (mark index w))
      ⊎ ((is_idle (w.view.frames index) ≡ false) × (mark index w ≡ done w))
unfolding mark is_idle
mark-Marks pid cell index r w small o =
    let inside : ltb index w.view.frame_count ≡ true = ground (arith, o.inside) in
    let addr = resident_addr-done w.view.layout w.view.frame_count index o.laid o.inside in
    let owner = owner-Marks pid cell index r w small o in
    let f = w.view.frames index in
    elim (Bool-cases (pin_count f.pin_control == 0)) [
      | inr pinned ↦ rw (inside, pinned) (inr (refl, refl))
      | inl unpinned ↦ elim (Bool-cases (is_evicting f.pin_control)) [
        | inl leaving ↦ rw (inside, unpinned, leaving) (inr (refl, refl))
        | inr staying ↦
            rw (inside, unpinned, staying)
              (inl (refl, rw (o.names, addr) (rw (o.owned, sym o.address) owner)))
      ]
    ]
