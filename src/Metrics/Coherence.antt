-- ===== src/Metrics/Coherence.antt =====
-- A snapshot sees whole updates only, each exactly once.
use mathlib.Core.Logic.{if_pos, if_neg}
use tierbuf.Prelude.{
  ℕ, ◌+◌, ◌-◌, ◌≤◌, ◌<◌, ◌≡◌, refl, sym, ap, ◌∙◌, min, true, false, List, [], ◌∷◌, All, arith,
  Bool-cases, inl, inr, update, sum_to, sum_to-update, sum_to-ge, sum_to-none, sum_to-zero, bit,
  ℕ_discrete,
}
use tierbuf.Metrics.{Counter, max_count}
use tierbuf.Metrics.Gate.{
  Place, idle, updating, snapping, Act, Shared, step, turn, run, unused, logged,
}
use tierbuf.Metrics.Steps.{added, reading, snaps, IsSane, Holds, After, step-After}

record Inv (n : ℕ) (s : Shared) (place : ℕ → Place) : Type 0 where
  holds : (c : Counter) → s.counters c ≡ min (logged c s.log + sum_to (added c) n place) max_count
  readers : s.readers ≡ sum_to reading n place
  writer : bit s.writer ≡ sum_to snaps n place
  excludes : s.writer ≡ true → s.readers ≡ 0
  sane : (i : ℕ) → i < n → IsSane s (place i)

-- A snapshot under way stays sane while the counters do not change.
still_taken :
    (s s' : Shared) (taken : List (Counter × ℕ))
    → ((c : Counter) → s'.counters c ≡ s.counters c)
    → All (λ t. t.1 ≡ s.counters t.0) taken
    → All (λ t. t.1 ≡ s'.counters t.0) taken
still_taken s s' [] q v = tt
still_taken s s' (t ∷ ts) q v = (v.0 ∙ sym (q t.0), still_taken s s' ts q v.1)

still-IsSane :
    (s s' : Shared) (p : Place)
    → (1 ≤ snaps p → (c : Counter) → s'.counters c ≡ s.counters c)
    → IsSane s p
    → IsSane s' p
still-IsSane s s' idle q v = tt
still-IsSane s s' (updating e l) q v = v
still-IsSane s s' (snapping l t) q v = still_taken s s' t (q (omega arith)) v

module _ (tiers n : ℕ) (s : Shared) (place : ℕ → Place) (inv : Inv n s place) (i : ℕ) (lt : i < n)
    (a : Act) where
  abbrev after : Shared × Place
  after = step tiers a s (place i)

  moved : After s (place i) after
  moved =
      step-After tiers s a (place i) (omega (arith, inv.readers, sum_to-ge reading n place i lt))
        (omega (arith, inv.writer, sum_to-ge snaps n place i lt)) (inv.sane i lt)

  -- No other thread updates while one takes a snapshot.
  alone : (j : ℕ) → j < n → 1 ≤ snaps (place j) → reading (place i) ≡ 0
  alone j ltj h = elim (Bool-cases s.writer) [
    | inl on ↦ omega (arith, inv.excludes on, inv.readers, sum_to-ge reading n place i lt)
    | inr off ↦ absurd (omega (arith, inv.writer, sum_to-ge snaps n place j ltj, ap bit off))
  ]

  turn-Inv : Inv n after.0 (update place i after.1)
  turn-Inv = record {
    holds = λ c.
        let others : Counter → ℕ = λ d. sum_to (added d) n place - added d (place i) in
        let before : Holds s others (place i) =
          λ d. omega (arith, inv.holds d, sum_to-ge (added d) n place i lt) in
        omega (
          arith,
          moved.holds others before c,
          sum_to-update (added c) n place i after.1 lt,
          sum_to-ge (added c) n place i lt,
        );
    readers = omega (arith, moved.readers, inv.readers, sum_to-update reading n place i after.1 lt);
    writer = omega (arith, moved.writer, inv.writer, sum_to-update snaps n place i after.1 lt);
    excludes = moved.excludes inv.excludes;
    sane = λ j ltj. elim (ℕ_discrete i j) [
      | yes e ↦ rw (if_pos _ e) moved.sane
      | no d ↦
          rw (if_neg _ d)
            (still-IsSane s after.0 (place j) (λ h. moved.quiet (alone j ltj h)) (inv.sane j ltj))
    ];
  }

abbrev pub IsSchedule : ℕ → List (ℕ × Act) → Type 0
IsSchedule n = All (λ t. t.0 < n)

run-Inv :
    (tiers n : ℕ) (ts : List (ℕ × Act)) (s : Shared) (place : ℕ → Place)
    → IsSchedule n ts
    → Inv n s place
    → Inv n (run tiers ts (s, place)).0 (run tiers ts (s, place)).1
unfolding run turn
run-Inv tiers n [] s place h inv = inv
run-Inv tiers n ((i, a) ∷ ts) s place h inv =
    run-Inv tiers n ts (step tiers a s (place i)).0 (update place i (step tiers a s (place i)).1)
      h.1 (turn-Inv tiers n s place inv i h.0 a)

unused-Inv : (n : ℕ) → Inv n unused.0 unused.1
unfolding logged
unused-Inv n = record {
  holds = λ c. omega (arith, sum_to-zero (added c) n unused.1 (λ i. refl));
  readers = sym (sum_to-zero reading n unused.1 (λ i. refl));
  writer = sym (sum_to-zero snaps n unused.1 (λ i. refl));
  excludes = λ (e : false ≡ true). cc;
  sane = λ i h. tt;
}

-- The values that a thread's snapshot has loaded are those of the finished updates.
abbrev pub Coherent : Shared → Place → Type 0
Coherent s (snapping left taken) = All (λ t. t.1 ≡ min (logged t.0 s.log) max_count) taken
Coherent s _ = Unit

added-none : (c : Counter) (p : Place) → reading p ≡ 0 → added c p ≡ 0
added-none c idle e = refl
added-none c (updating event left) e = absurd (omega arith)
added-none c (snapping left taken) e = refl

taken-Coherent :
    (s : Shared) (p : Place)
    → IsSane s p
    → (1 ≤ snaps p → (c : Counter) → s.counters c ≡ min (logged c s.log) max_count)
    → Coherent s p
taken-Coherent s idle v h = tt
taken-Coherent s (updating event left) v h = tt
taken-Coherent s (snapping left taken) v h =
    still_taken s (record s { counters = λ c. min (logged c s.log) max_count }) taken
      (λ c. sym (h (omega arith) c)) v

settled :
    (n : ℕ) (s : Shared) (place : ℕ → Place) (i : ℕ)
    → Inv n s place
    → i < n
    → 1 ≤ snaps (place i)
    → (c : Counter) → s.counters c ≡ min (logged c s.log) max_count
settled n s place i inv lt h c = elim (Bool-cases s.writer) [
  | inl on ↦ omega (
    arith,
    inv.holds c,
    inv.readers,
    inv.excludes on,
    sum_to-none reading (added c) n place (added-none c) (sym inv.readers ∙ inv.excludes on),
  )
  | inr off ↦ absurd (omega (arith, inv.writer, sum_to-ge snaps n place i lt, ap bit off))
]

-- In every interleaving of updates and snapshots, each value that a snapshot under way has loaded is
-- the sum over the finished updates, saturated: no update is seen in part, and none twice.
pub run-Coherent :
    (tiers n : ℕ) (ts : List (ℕ × Act)) (i : ℕ)
    → IsSchedule n ts
    → i < n
    → Coherent (run tiers ts unused).0 ((run tiers ts unused).1 i)
run-Coherent tiers n ts i h lt =
    let inv = run-Inv tiers n ts unused.0 unused.1 h (unused-Inv n) in
    let w = run tiers ts unused in
    taken-Coherent w.0 (w.1 i) (inv.sane i lt) (settled n w.0 w.1 i inv lt)
