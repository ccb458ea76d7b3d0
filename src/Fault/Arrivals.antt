-- ===== src/Fault/Arrivals.antt =====
-- What a thread does to the coordinator when it faults, and when it wakes.
use tierbuf.Prelude.{
  ℕ, ◌+◌, ◌-◌, ◌%◌, ◌^◌, ◌≤◌, ◌<◌, ◌≡◌, refl, sym, ap, ◌∙◌, ◌⊎◌, inl, inr, true, Option, none, some,
  arith, ltb, ◌==◌, if-cases,
}
use tierbuf.Fault.{FaultOutcome, into_result, ActiveFault, CompletedFault, FaultState, enter, wake}
use tierbuf.Fault.Crowd.{
  Place, outside, gated, waiting, leading, replayed, crashed, Turn, after_enter, after_wake, leads,
  waits,
}

-- The coordinator counts its leader and the threads that wait for it, or those that have yet to
-- replay a completed fault, whose outcome is the one that was logged; never both.
abbrev pub Live :
    (attempts : ℕ) (log : ℕ → FaultOutcome)
    → Option ActiveFault
    → Option CompletedFault
    → (leaders waiters : ℕ) → Type 0
Live k log none none l w = (l ≡ 0) × (w ≡ 0)
Live k log (some a) none l w = (l ≡ 1) × (w ≡ a.waiters)
Live k log none (some c) l w = (l ≡ 0) × (w ≡ c.remaining_waiters) × (0 < w) × (c.outcome ≡ log k)
Live k log (some _) (some _) l w = ⊥

abbrev pub IsActive : ℕ → Option ActiveFault → Type 0
IsActive g none = ⊥
IsActive g (some a) = a.generation ≡ g

abbrev pub IsCompleted : ℕ → Option CompletedFault → Type 0
IsCompleted g none = ⊥
IsCompleted g (some c) = c.generation ≡ g

abbrev pub IsIdle : Option ActiveFault → Type 0
IsIdle none = Unit
IsIdle (some _) = ⊥

-- What a thread knows is true of the coordinator.
abbrev pub IsSane : (attempts : ℕ) (log : ℕ → FaultOutcome) → FaultState → Place → Type 0
IsSane n log s (leading g k) = IsActive g s.active × (k ≡ n)
IsSane n log s (waiting g k) = (IsActive g s.active ⊎ IsCompleted g s.completed) × (k ≡ n)
IsSane n log s (replayed k r) = (r ≡ into_result (log k)) × ((k < n) ⊎ ((k ≡ n) × IsIdle s.active))
IsSane n log s crashed = ⊥
IsSane n log s _ = Unit

-- The state after a step: the counts moved by the thread, the thread, and every other thread `q`.
pub record Stepped (l w : ℕ) (p : Place) (t t' : Turn) : Type 0 where
  pub live :
      (l' w' : ℕ)
      → l' + leads p ≡ l + leads t'.place
      → w' + waits p ≡ w + waits t'.place
      → Live t'.attempts t'.log t'.faults.active t'.faults.completed l' w'
  pub here : IsSane t'.attempts t'.log t'.faults t'.place
  pub others :
      (q : Place)
      → leads p + leads q ≤ l
      → waits p + waits q ≤ w
      → IsSane t.attempts t.log t.faults q
      → IsSane t'.attempts t'.log t'.faults q

abbrev pub at :
    (next n : ℕ) (log : ℕ → FaultOutcome)
    → Option ActiveFault
    → Option CompletedFault
    → Place
    → Turn
at next n log a c p = record {
  faults = record { next_generation = next; active = a; completed = c };
  attempts = n;
  log = log;
  place = p;
}

module _ (next n l w : ℕ) (log : ℕ → FaultOutcome) (few : w + 1 < 2 ^ 64) where
  begun_others :
      (q : Place)
      → IsSane n log (at next n log none none outside).faults q
      → IsSane
          (n + 1)
          log
          (record {
            next_generation = (next + 1) % 2 ^ 64;
            active = some (record { generation = next; waiters = 0 });
            completed = none;
          })
          q
  begun_others (leading g k) sane = absurd sane.0
  begun_others (waiting g k) sane = elim sane.0 [
    | inl none_there ↦ absurd none_there
    | inr none_there ↦ absurd none_there
  ]
  begun_others (replayed k r) sane =
      (sane.0, inl (elim sane.1 [ inl lt ↦ omega arith | inr e ↦ omega (arith, e.0) ]))
  begun_others crashed sane = sane
  begun_others outside sane = tt
  begun_others gated sane = tt

  joined_others :
      (a : ActiveFault) (q : Place)
      → IsSane n log (at next n log (some a) none outside).faults q
      → IsSane n log
          (at next n log (some (record a { waiters = a.waiters + 1 })) none outside).faults
          q
  joined_others a (leading g k) sane = sane
  joined_others a (waiting g k) sane = sane
  joined_others a (replayed k r) sane = sane
  joined_others a crashed sane = sane
  joined_others a outside sane = tt
  joined_others a gated sane = tt

  pub enter-Stepped :
      (a : Option ActiveFault) (c : Option CompletedFault) (p : Place)
      → Live n log a c l w
      → leads p ≡ 0
      → waits p ≡ 0
      → Stepped l w p
          (at next n log a c p)
          (after_enter (at next n log a c p) (enter (at next n log a c p).faults))
  unfolding enter
  enter-Stepped none none p live lp wp = record {
    live = λ l' w' el ew. (omega arith, omega arith);
    here = (refl, refl);
    others = λ q _ _ sane. begun_others q sane;
  }
  enter-Stepped none (some c) p live lp wp = record {
    live = λ l' w' el ew. (omega arith, omega arith, omega arith, live.3);
    here = tt;
    others = λ q _ _ sane. sane;
  }
  enter-Stepped (some a) none p live lp wp =
      let fits : ltb (a.waiters + 1) (2 ^ 64) ≡ true = ground (arith, live.1) in
      rw fits (record {
        live = λ l' w' el ew. (omega arith, omega arith);
        here = (inl refl, refl);
        others = λ q _ _ sane. joined_others a q sane;
      })
  enter-Stepped (some _) (some _) p live lp wp = absurd live

  -- The last replay, which clears the completed fault, and an earlier one.
  last_others :
      (c : CompletedFault) (q : Place)
      → 1 + waits q ≤ w
      → w ≡ 1
      → IsSane n log (at next n log none (some c) outside).faults q
      → IsSane n log (at next n log none none outside).faults q
  last_others c (leading g k) two one sane = sane
  last_others c (waiting g k) two one sane = absurd (omega arith)
  last_others c (replayed k r) two one sane = sane
  last_others c crashed two one sane = sane
  last_others c outside two one sane = tt
  last_others c gated two one sane = tt

  earlier_others :
      (c : CompletedFault) (q : Place) (r : ℕ)
      → IsSane n log (at next n log none (some c) outside).faults q
      → IsSane n log
          (at next n log none (some (record c { remaining_waiters = r })) outside).faults
          q
  earlier_others c (leading g k) m sane = sane
  earlier_others c (waiting g k) m sane = sane
  earlier_others c (replayed k r) m sane = sane
  earlier_others c crashed m sane = sane
  earlier_others c outside m sane = tt
  earlier_others c gated m sane = tt

  pub wake-Stepped :
      (a : Option ActiveFault) (c : Option CompletedFault) (g k : ℕ)
      → Live n log a c l w
      → IsSane n log (at next n log a c outside).faults (waiting g k)
      → Stepped l w (waiting g k) (at next n log a c (waiting g k)) (
          after_wake
            (at next n log a c (waiting g k))
            k
            (wake g (at next n log a c (waiting g k)).faults))
  unfolding wake
  wake-Stepped none none g k live sane = elim sane.0 [
    | inl none_there ↦ absurd none_there
    | inr none_there ↦ absurd none_there
  ]
  wake-Stepped (some a) none g k live sane = record {
    live = λ l' w' el ew. (omega (arith, live.0), omega (arith, live.1));
    here = sane;
    others = λ q _ _ known. known;
  }
  wake-Stepped none (some c) g k live sane =
      let same : c.generation ≡ g = elim sane.0 [
        | inl none_there ↦ absurd none_there
        | inr e ↦ e
      ] in
      let test : (c.generation == g) ≡ true = ground arith in
      let some_left : ltb 0 c.remaining_waiters ≡ true = ground (arith, live.1, live.2) in
      let replays : into_result c.outcome ≡ into_result (log k) =
        ap into_result live.3 ∙ ap (λ j. into_result (log j)) (sym sane.1) in
      rw (test, some_left)
        (if-cases
          (λ left.
            Stepped l w (waiting g k) (at next n log none (some c) (waiting g k))
              (at next n log none left (replayed k (into_result c.outcome))))
          (c.remaining_waiters - 1 == 0) _ _
          (λ zero. record {
            live = λ l' w' el ew. (omega (arith, live.0), ground (arith, live.1, live.2));
            here = (replays, inr (sane.1, tt));
            others = λ q _ two known. last_others c q two (ground (arith, live.1, live.2)) known;
          })
          (λ more. record {
            live = λ l' w' el ew.
                (omega (arith, live.0), ground (arith, live.1), ground (arith, live.1), live.3);
            here = (replays, inr (sane.1, tt));
            others = λ q _ _ known. earlier_others c q (c.remaining_waiters - 1) known;
          }))
  wake-Stepped (some _) (some _) g k live sane = absurd live
