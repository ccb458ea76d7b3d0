-- ===== src/Fault/Turns.antt =====
-- Every state that threads reach on an unused coordinator.
use mathlib.Core.Logic.{if_pos, if_neg}
use tierbuf.Prelude.{
  ℕ, ◌+◌, ◌-◌, ◌^◌, ◌≤◌, ◌<◌, ◌≡◌, ◌≢◌, refl, sym, ap, ◌∙◌, subst, ◌⊎◌, inl, inr, true, Option,
  none, some, List, [], ◌∷◌, arith, update, sum_to-update, sum_to-ge_pair, sum_to-zero, sum_to-le,
  ℕ_discrete, ltb, ◌==◌, done, if◌then◌else◌,
}
use tierbuf.Fault.{
  FaultOutcome, FaultResult, into_result, ActiveFault, CompletedFault, FaultState, wake,
}
use tierbuf.Fault.Crowd.{
  Place, outside, waiting, replayed, crashed, Act, Turn, fault_move, Crowd, fault_turn, fault_run,
  unused, leads, waits, leaders, waiters_out, IsSchedule,
}
use tierbuf.Fault.Arrivals.{Live, IsSane, Stepped}
use tierbuf.Fault.Steps.{move-Stepped}

record Inv (n : ℕ) (s : Crowd) : Type 0 where
  live : Live s.attempts s.log s.faults.active s.faults.completed (leaders n s) (waiters_out n s)
  sane : (i : ℕ) → i < n → IsSane s.attempts s.log s.faults (s.place i)

waits-le : (p : Place) → waits p ≤ 1
waits-le (waiting _ _) = omega arith
waits-le _ = omega arith

module _ (n : ℕ) (s : Crowd) (inv : Inv n s) (i : ℕ) (lt : i < n) (act : Act)
    (few : n + 1 < 2 ^ 64) where
  abbrev turn : Turn
  turn = record { faults = s.faults; attempts = s.attempts; log = s.log; place = s.place i }

  abbrev after : Turn
  after = fault_move act (s.place i) turn

  stepped : Stepped (leaders n s) (waiters_out n s) (s.place i) turn after
  stepped =
      move-Stepped s.faults.next_generation s.attempts (leaders n s) (waiters_out n s) s.log
        (omega (arith, sum_to-le waits waits-le n s.place)) act s.faults.active s.faults.completed
        (s.place i) inv.live (inv.sane i lt)

  update-IsSane :
      (j : ℕ)
      → j < n
      → IsSane after.attempts after.log after.faults (update s.place i after.place j)
  update-IsSane j ltj = elim (ℕ_discrete i j) [
    | yes e ↦ rw (if_pos _ e) stepped.here
    | no d ↦ rw (if_neg _ d) (
        stepped.others (s.place j) (sum_to-ge_pair leads n s.place i j d lt ltj)
          (sum_to-ge_pair waits n s.place i j d lt ltj) (inv.sane j ltj))
  ]

  fault_turn-Inv : Inv n (fault_turn (i, act) s)
  unfolding fault_turn
  fault_turn-Inv = record {
    live =
        stepped.live _ _ (sum_to-update leads n s.place i after.place lt)
          (sum_to-update waits n s.place i after.place lt);
    sane = update-IsSane;
  }

unused-Inv : (n : ℕ) → Inv n unused
unused-Inv n = record {
  live = (
    sum_to-zero leads n (λ _. outside) (λ _. refl),
    sum_to-zero waits n (λ _. outside) (λ _. refl),
  );
  sane = λ _ _. tt;
}

fault_run-Inv :
    (n : ℕ) (ts : List (ℕ × Act)) (s : Crowd)
    → n + 1 < 2 ^ 64
    → IsSchedule n ts
    → Inv n s
    → Inv n (fault_run ts s)
unfolding fault_run
fault_run-Inv n [] s few fair inv = inv
fault_run-Inv n (t ∷ ts) s few fair inv =
    fault_run-Inv n ts (fault_turn t s) few fair.1 (fault_turn-Inv n s inv t.0 fair.0 t.1 few)

served :
    (g k n : ℕ) (log : ℕ → FaultOutcome) (next : ℕ) (a : Option ActiveFault)
    (c : Option CompletedFault) (l w : ℕ)
    → Live n log a c l w
    → IsSane n log (record { next_generation = next; active = a; completed = c }) (waiting g k)
    → (l ≡ 1)
      ⊎ ((s' : FaultState) × (wake g (record { next_generation = next; active = a; completed = c })
            ≡ done (s', some (into_result (log k)))))
unfolding wake
served g k n log next (some a) none l w live sane = inl live.0
served g k n log next (some a) (some c) l w live sane = absurd live
served g k n log next none none l w live sane = elim sane.0 [ inl h ↦ absurd h | inr h ↦ absurd h ]
served g k n log next none (some c) l w live sane =
    let same : c.generation ≡ g = elim sane.0 [ inl h ↦ absurd h | inr e ↦ e ] in
    let test : (c.generation == g) ≡ true = ground arith in
    let some_left : ltb 0 c.remaining_waiters ≡ true = ground (arith, live.1, live.2) in
    let replays : into_result c.outcome ≡ into_result (log k) =
      ap into_result live.3 ∙ ap (λ j. into_result (log j)) (sym sane.1) in
    let left : Option CompletedFault =
      if c.remaining_waiters - 1 == 0
      then none
      else some (record c { remaining_waiters = c.remaining_waiters - 1 }) in
    inr (
      record { next_generation = next; active = none; completed = left },
      rw (test, some_left, replays) refl,
    )

-- Fewer threads than a counter can count.
module _ (n : ℕ) (ts : List (ℕ × Act)) (few : n + 1 < 2 ^ 64) (fair : IsSchedule n ts) where
  abbrev reached : Crowd
  reached = fault_run ts unused

  inv : Inv n reached
  inv = fault_run-Inv n ts unused few fair (unused-Inv n)

  known :
      (i : ℕ) (p : Place)
      → i < n
      → reached.place i ≡ p
      → IsSane reached.attempts reached.log reached.faults p
  known i p lt e = subst (IsSane reached.attempts reached.log reached.faults) e (inv.sane i lt)

  -- A thread that replayed an attempt got the outcome with which the leader of that attempt ended
  -- it.
  pub fault_run-replays :
      (i k : ℕ) (r : FaultResult)
      → i < n
      → reached.place i ≡ replayed k r
      → r ≡ into_result (reached.log k)
  fault_run-replays i k r lt e = (known i (replayed k r) lt e).0

  few_leaders :
      (k l w : ℕ) (log : ℕ → FaultOutcome) (a : Option ActiveFault) (c : Option CompletedFault)
      → Live k log a c l w
      → l ≤ 1
  few_leaders k l w log none none live = omega (arith, live.0)
  few_leaders k l w log (some a) none live = omega (arith, live.0)
  few_leaders k l w log none (some c) live = omega (arith, live.0)
  few_leaders k l w log (some a) (some c) live = absurd live

  -- At no time do two threads lead, and no thread ever fails an assertion or an expectation of
  -- `enter`, `wake` or `complete`.
  pub one_leader : (i : ℕ) → i < n → (leaders n reached ≤ 1) × (reached.place i ≢ crashed)
  one_leader i lt = (
    few_leaders reached.attempts (leaders n reached) (waiters_out n reached) reached.log
        reached.faults.active reached.faults.completed inv.live,
    (λ c. known i crashed lt c),
  )

  -- A thread that waits for an attempt is not forgotten: a leader still owes it the outcome, or its
  -- next round replays the outcome with which the leader ended the attempt.
  pub wake-ready :
      (i g k : ℕ)
      → i < n
      → reached.place i ≡ waiting g k
      → (leaders n reached ≡ 1)
        ⊎ ((s' : FaultState) × (wake g reached.faults
              ≡ done (s', some (into_result (reached.log k)))))
  wake-ready i g k lt e =
      served g k reached.attempts reached.log reached.faults.next_generation reached.faults.active
        reached.faults.completed (leaders n reached) (waiters_out n reached) inv.live
        (known i (waiting g k) lt e)
