-- ===== src/Metrics/Steps.antt =====
-- What one access of a thread does to the counters, the gate and the threads that hold it.
use tierbuf.Prelude.{
  ℕ, ◌+◌, ◌-◌, ◌≤◌, ◌≡◌, refl, min, true, false, not, ◌&&◌, [], ◌∷◌, All, arith, ◌==◌, if-cases,
  bit, done,
}
use tierbuf.Metrics.{Counter, add_to, max_count}
use tierbuf.Metrics.Gate.{
  Place, idle, updating, snapping, Act, begin_update, begin_snapshot, proceed, Shared, step, amount,
  logged,
}

-- What a thread has added of the event that it records.
abbrev pub added : Counter → Place → ℕ
added c (updating event left) = amount c event - amount c left
added c _ = 0

abbrev pub reading : Place → ℕ
reading (updating _ _) = 1
reading _ = 0

abbrev pub snaps : Place → ℕ
snaps (snapping _ _) = 1
snaps _ = 0

abbrev pub IsSane : Shared → Place → Type 0
IsSane s (updating event left) = (c : Counter) → amount c left ≤ amount c event
IsSane s (snapping left taken) = All (λ t. t.1 ≡ s.counters t.0) taken
IsSane s idle = Unit

-- Each counter holds what the log and the updates under way add up to, up to the maximum; `others`
-- is what the other threads have added.
abbrev pub Holds : Shared → (others : Counter → ℕ) → Place → Type 0
Holds s others p =
    (c : Counter) → s.counters c ≡ min (logged c s.log + (others c + added c p)) max_count

pub record After (s : Shared) (p : Place) (r : Shared × Place) : Type 0 where
  pub holds : (others : Counter → ℕ) → Holds s others p → Holds r.0 others r.1
  pub readers : r.0.readers + reading p ≡ s.readers + reading r.1
  pub writer : bit r.0.writer + snaps p ≡ bit s.writer + snaps r.1
  pub excludes : (s.writer ≡ true → s.readers ≡ 0) → (r.0.writer ≡ true → r.0.readers ≡ 0)
  pub quiet : reading p ≡ 0 → (c : Counter) → r.0.counters c ≡ s.counters c
  pub sane : IsSane r.0 r.1

module _ (tiers : ℕ) (s : Shared) where
  still : (p : Place) → IsSane s p → After s p (s, p)
  still p v = record {
    holds = λ o i. i;
    readers = refl;
    writer = refl;
    excludes = λ x. x;
    quiet = λ q c. refl;
    sane = v;
  }

  pub step-After :
      (a : Act) (p : Place)
      → reading p ≤ s.readers
      → snaps p ≤ bit s.writer
      → IsSane s p
      → After s p (step tiers a s p)
  unfolding step add_to amount logged
  step-After (begin_update (done event)) idle h k v =
      if-cases (After s idle) s.writer _ _ (λ e. still idle tt)
        (λ e. record {
          holds = λ o i c. omega (arith, i c);
          readers = omega arith;
          writer = refl;
          excludes = λ x (y : s.writer ≡ true). cc;
          quiet = λ q c. refl;
          sane = λ c. omega arith;
        })
  step-After begin_snapshot idle h k v =
      if-cases (After s idle) (not s.writer && (s.readers == 0)) _ _
        (λ e. record {
          holds = λ o i. i;
          readers = refl;
          writer = ground arith;
          excludes = λ x y. ground arith;
          quiet = λ q c. refl;
          sane = tt;
        })
        (λ e. still idle tt)
  step-After proceed (updating event ((c, n) ∷ left)) h k v = record {
    holds = λ o i d. ground (arith, i d, v d);
    readers = refl;
    writer = refl;
    excludes = λ x. x;
    quiet = λ q. absurd (omega arith);
    sane = λ d. omega (arith, v d);
  }
  step-After proceed (updating event []) h k v = record {
    holds = λ o i c. omega (arith, i c);
    readers = omega arith;
    writer = refl;
    excludes = λ x y. omega (arith, x y);
    quiet = λ q c. refl;
    sane = tt;
  }
  step-After proceed (snapping (c ∷ left) taken) h k v = record {
    holds = λ o i. i;
    readers = refl;
    writer = refl;
    excludes = λ x. x;
    quiet = λ q c. refl;
    sane = (refl, v);
  }
  step-After proceed (snapping [] taken) h k v = record {
    holds = λ o i. i;
    readers = refl;
    writer = ground arith;
    excludes = λ x (y : false ≡ true). cc;
    quiet = λ q c. refl;
    sane = tt;
  }
  step-After _ p h k v = still p v
