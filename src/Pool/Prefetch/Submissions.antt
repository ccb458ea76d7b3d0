-- ===== src/Pool/Prefetch/Submissions.antt =====
-- Every request is either submitted or skipped, and the requests in flight stay bounded.
use tierbuf.Prelude.{
  ℕ, ◌+◌, ◌-◌, ◌^◌, ◌≤◌, ◌<◌, ◌≡◌, refl, true, ◌&&◌, Option, none, some, ◌∷◌, length, arith, ltb,
  if-cases, Run, done, panicked, ◌>>=◌, IsMap, get, insert, remove, Option-cases, inl, inr,
  insert-IsMap, remove-IsMap, length-insert, length-remove_present, get-insert,
}
use tierbuf.Pool.Prefetch.{
  max_prefetch_in_flight, Channel, insert_new, reserve_slot, drop_reservation, drop_task, Request,
  Counts, skip, try_send, sent, with_checkout, with_slot, with_pending,
}

-- Each request in flight is one pending page, and there are at most 128.
pub record IsChannel (c : Channel) : Type 0 where
  pub paired : c.in_flight ≡ length c.pending
  pub distinct : IsMap c.pending
  pub bounded : c.in_flight ≤ max_prefetch_in_flight
  pub room : length c.queue ≤ max_prefetch_in_flight

-- The channel stays well-formed; one request more is counted, and it is queued if it is submitted.
abbrev pub Counted : Counts → Channel → Run (Channel × Counts) → Type 0
Counted k c panicked = ⊥
Counted k c (done (c', k')) =
    IsChannel c'
    × (k'.submitted + k'.skipped ≡ k.submitted + k.skipped + 1)
    × (length c'.queue + k.submitted ≡ length c.queue + k'.submitted)
    × (k'.submitted ≤ max_prefetch_in_flight)

module _ (r : Request) (pid : ℕ) (k : Counts) (few : k.submitted < max_prefetch_in_flight)
    (small : k.submitted + k.skipped + 1 < 2 ^ 64) where
  skipped_lem :
      (c c' : Channel) → IsChannel c' → c'.queue ≡ c.queue → Counted k c (done (c', skip k))
  skipped_lem c c' v e = (v, omega arith, rw e (omega arith), omega arith)

  -- A reservation that is dropped.
  dropped :
      (old c : Channel)
      → IsChannel c
      → get pid c.pending ≡ some tt
      → c.queue ≡ old.queue
      → Counted k old (drop_reservation pid c >>= λ c'. done (c', skip k))
  unfolding drop_reservation
  dropped old c v there e =
      let less = length-remove_present pid tt c.pending v.distinct there in
      let some_left : ltb 0 c.in_flight ≡ true =
        let pos : 0 < c.in_flight = omega (arith, v.paired, less) in ground arith in
      rw some_left (
        skipped_lem old (record c { pending = remove pid c.pending; in_flight = c.in_flight - 1 })
          (record {
            paired = omega (arith, v.paired, less);
            distinct = remove-IsMap pid c.pending v.distinct;
            bounded = omega (arith, v.bounded);
            room = v.room;
          })
          e)

  dropped_task :
      (old c : Channel) (frame : ℕ)
      → IsChannel c
      → get pid c.pending ≡ some tt
      → c.queue ≡ old.queue
      → Counted k old
          (drop_task (record { pid = pid; frame = frame }) c >>= λ c'. done (c', skip k))
  unfolding drop_task
  dropped_task old c frame v there e =
      dropped old (record c { returned = frame ∷ c.returned })
        (record { paired = v.paired; distinct = v.distinct; bounded = v.bounded; room = v.room })
        there e

  sent-Counted :
      (old c : Channel) (frame : ℕ)
      → IsChannel c
      → get pid c.pending ≡ some tt
      → c.queue ≡ old.queue
      → Counted k old (
          sent
            (record { pid = pid; frame = frame })
            k
            (try_send r.connected (record { pid = pid; frame = frame }) c))
  unfolding sent try_send
  sent-Counted old c frame v there e =
      if-cases (λ w. Counted k old (sent (record { pid = pid; frame = frame }) k w))
        (r.connected && ltb (length c.queue) max_prefetch_in_flight) _ _
        (λ y.
          let below : length c.queue < max_prefetch_in_flight = ground arith in
          (
            record { paired = v.paired; distinct = v.distinct; bounded = v.bounded; room = below },
            omega arith,
            rw e (omega arith),
            omega arith,
          ))
        (λ n. dropped_task old c frame v there e)

  checkout-Counted :
      (old c : Channel) (o : Option ℕ)
      → IsChannel c
      → get pid c.pending ≡ some tt
      → c.queue ≡ old.queue
      → Counted k old (with_checkout r pid o k c)
  unfolding with_checkout
  checkout-Counted old c none v there e = dropped old c v there e
  checkout-Counted old c (some frame) v there e =
      if-cases (Counted k old) r.stopping_again _ _ (λ y. dropped_task old c frame v there e)
        (λ n. sent-Counted old c frame v there e)

  -- A page that was not pending is now, and asks for a slot.
  slot-Counted :
      (c : Channel)
      → IsChannel c
      → get pid c.pending ≡ none
      → Counted k c
          (with_slot r pid k (reserve_slot (record c { pending = insert pid tt c.pending })))
  unfolding reserve_slot with_slot
  slot-Counted c v fresh =
      let more = length-insert pid tt c.pending fresh in
      let here = get-insert pid tt c.pending in
      let keyed = insert-IsMap pid tt c.pending v.distinct in
      if-cases (λ w. Counted k c (with_slot r pid k w)) (ltb c.in_flight max_prefetch_in_flight) _ _
        (λ y.
          let below : c.in_flight < max_prefetch_in_flight = ground arith in
          checkout-Counted c
            (record c { pending = insert pid tt c.pending; in_flight = c.in_flight + 1 }) r.checkout
            (record {
              paired = omega (arith, v.paired, more);
              distinct = keyed;
              bounded = omega arith;
              room = v.room;
            })
            here refl)
        (λ n.
          skipped_lem c (record c { pending = remove pid (insert pid tt c.pending) })
            (record {
              paired = omega (
                arith,
                v.paired,
                more,
                length-remove_present pid tt (insert pid tt c.pending) keyed here,
              );
              distinct = remove-IsMap pid (insert pid tt c.pending) keyed;
              bounded = v.bounded;
              room = v.room;
            })
            refl)

  pub pending-Counted :
      (c : Channel) → IsChannel c → Counted k c (with_pending r pid k c (insert_new pid c.pending))
  unfolding insert_new with_pending
  pending-Counted c v = elim (Option-cases (get pid c.pending)) [
    | inl e ↦ rw e (slot-Counted c v e)
    | inr (u, e) ↦ rw e (skipped_lem c c v refl)
  ]

-- What others do keeps the channel well-formed.
abbrev pub IsGuest : (Channel → Channel) → Type 0
IsGuest others = (c : Channel) → IsChannel c → IsChannel (others c)

-- The channel stays well-formed, every one of so many requests is submitted or skipped, and at most
-- 128 are submitted.
abbrev pub Prefetched : (requests : ℕ) → Counts → Run (Channel × Counts) → Type 0
Prefetched n k panicked = ⊥
Prefetched n k (done (c, k')) =
    IsChannel c
    × (k'.submitted + k'.skipped ≡ k.submitted + k.skipped + n)
    × (k'.submitted ≤ max_prefetch_in_flight)
