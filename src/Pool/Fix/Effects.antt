-- ===== src/Pool/Fix/Effects.antt =====
-- The steps of a fix under the latch return, keep the pins, and the exact frame stays exact.
use tierbuf.Prelude.{
  ℕ, ◌+◌, ◌*◌, ◌≤◌, ◌<◌, ◌≡◌, refl, inl, inr, Bool, true, Option, none, some, [], ◌∷◌, arith, ltb,
  ◌==◌, if-cases, done,
}
use tierbuf.Swip.{max_pid}
use tierbuf.Swip.Machine.{resurrect, mark_cooling, serve}
use tierbuf.Frame.Table.Addresses.{resident_addr-done}
use tierbuf.Metrics.{
  prefetch_hits, dram_hits, demand_hits, Event, record_prefetch_hit, record_dram_hit,
  record_tier_demand_hit, tier_at,
}
use tierbuf.Pool.Handles.{is_cooling_at}
use tierbuf.Pool.Fix.{
  World, with_cell, recorded, consume_prefetched, owner_cools, cools_there, enqueue_ticket, FixKind,
  shared, exclusive, second_chance, is_swapped, takes_marker, access, count_hit, decline, settle,
  consume,
}
use tierbuf.Pool.Fix.Kept.{
  hits, misses, hits-append, misses-append, Kept, Owned, Goes, same-Kept, Goes-after,
}
use tierbuf.Pool.Fix.Exchanges.{
  exchange, names_loads, second_chance-quiet, moved-Owned, update-pin, touched-Owned,
}

module _ (tiers : ℕ) (touch : ℕ → ℕ) (admit : Bool) (kind : FixKind) (pid cell index r : ℕ)
    (small : pid ≤ max_pid) where
  pub access-Goes :
      (w : World)
      → Owned w.view pid cell index r
      → Goes pid cell index r w 0 (access tiers touch admit kind pid cell index r w)
  unfolding access serve
  access-Goes w o =
      let (c', out, e, n) =
        exchange pid r (w.view.cells cell) (resurrect r) small o.resident (inl refl) o.shows in
      let (quiet, quiet') = second_chance-quiet out in
      rw e (
        record {
          pins = λ j. update-pin w.view.frames index _ j refl;
          hit = omega (arith, hits-append w.stats (second_chance out), quiet);
          missed = omega (arith, misses-append w.stats (second_chance out), quiet');
        },
        touched-Owned pid cell index r (touch (w.view.frames index).heat_epoch)
            (with_cell cell c' (recorded (second_chance out) w))
            (moved-Owned pid cell index r (recorded (second_chance out) w) c' o n),
      )

  recorded-Goes :
      (w : World) (e : Event) (n : ℕ)
      → hits e ≡ n
      → misses e ≡ 0
      → Owned w.view pid cell index r
      → Goes pid cell index r w n (done (recorded e w))
  recorded-Goes w e n h m o = (
    record {
      pins = λ j. refl;
      hit = omega (arith, hits-append w.stats e, h);
      missed = omega (arith, misses-append w.stats e, m);
    },
    o,
  )

  pub count_hit-Goes :
      (w : World) (tier : Option ℕ)
      → ((i : ℕ) → tier ≡ some i → i < tiers)
      → Owned w.view pid cell index r
      → Goes pid cell index r w 1 (count_hit tiers touch admit kind pid cell tier w)
  unfolding count_hit record_dram_hit record_tier_demand_hit tier_at
  count_hit-Goes w none h o = recorded-Goes w ((dram_hits, 1) ∷ []) 1 refl refl o
  count_hit-Goes w (some i) h o =
      let inside : ltb i tiers ≡ true = let lt = h i refl in ground arith in
      rw inside (recorded-Goes w ((demand_hits i, 1) ∷ []) 1 refl refl o)

  pub consume-Goes :
      (w : World)
      → Owned w.view pid cell index r
      → Goes pid cell index r w 0 (done (consume tiers touch admit kind pid cell index r w))
  unfolding consume consume_prefetched record_prefetch_hit
  consume-Goes w o =
      if-cases (λ w'. Goes pid cell index r w 0 (done w')) (takes_marker kind) _ _
        (λ y.
          let w' = (consume_prefetched pid r (w.view.frames index).generation w).0 in
          if-cases (λ w''. Goes pid cell index r w 0 (done w''))
            (consume_prefetched pid r (w.view.frames index).generation w).1 _ _
            (λ y'.
              Goes-after pid cell index r w w' 0 0 (done (recorded ((prefetch_hits, 1) ∷ []) w'))
                (record { pins = λ j. refl; hit = omega arith; missed = omega arith })
                (recorded-Goes w' ((prefetch_hits, 1) ∷ []) 0 refl refl o))
            (λ n'. (record { pins = λ j. refl; hit = omega arith; missed = omega arith }, o)))
        (λ n. (same-Kept w, o))

  enqueue-Goes :
      (w : World)
      → Owned w.view pid cell index r
      → Goes pid cell index r w 0 (enqueue_ticket index pid r w)
  unfolding enqueue_ticket cools_there owner_cools
  enqueue-Goes w o =
      let inside : ltb index w.view.frame_count ≡ true = ground (arith, o.inside) in
      let own : (pid == pid) ≡ true = ground arith in
      let (st, loads) = names_loads pid r (w.view.cells cell) o.shows in
      let addr = resident_addr-done w.view.layout w.view.frame_count index o.laid o.inside in
      let there : (w.view.layout.base + index * w.view.layout.element_size == r) ≡ true =
        ground (arith, o.address) in
      rw (inside, o.names, own, addr)
        (rw (there, o.owned)
          (rw loads (
            if-cases (λ w'. Goes pid cell index r w 0 (done w')) (is_cooling_at r st) _ _
              (λ y. (record { pins = λ j. refl; hit = omega arith; missed = omega arith }, o))
              (λ n. (same-Kept w, o)))))

  pub settle-Goes :
      (w : World) (k : FixKind)
      → Owned w.view pid cell index r
      → Goes pid cell index r w 0 (settle tiers touch admit kind pid cell k index r w)
  unfolding settle decline serve
  settle-Goes w exclusive o = (same-Kept w, o)
  settle-Goes w (shared hint) o =
      if-cases (Goes pid cell index r w 0) admit _ _ (λ y. (same-Kept w, o))
        (λ n.
          let (c', out, e, names) =
            exchange pid r (w.view.cells cell) (mark_cooling r) small o.resident (inr refl)
              o.shows in
          rw e (
            let o' = moved-Owned pid cell index r w c' o names in
            let w' = with_cell cell c' w in
            let moved : Kept w w' 0 0 = record {
              pins = λ j. refl;
              hit = omega arith;
              missed = omega arith;
            } in
            if-cases (Goes pid cell index r w 0) (is_swapped out) _ _
              (λ y.
                Goes-after pid cell index r w w' 0 0 (enqueue_ticket index pid r w') moved
                  (enqueue-Goes w' o'))
              (λ n'. (moved, o'))))
