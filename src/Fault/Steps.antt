-- ===== src/Fault/Steps.antt =====
-- What one step of a thread does to what holds of the coordinator and of every thread.
use mathlib.Core.Logic.{if_pos, if_neg}
use tierbuf.Prelude.{
  ℕ, ◌+◌, ◌^◌, ◌<◌, ◌≡◌, refl, sym, subst, ◌∙◌, inl, inr, true, not, Option, none, some, arith,
  ◌==◌, if-cases, update, ℕ_discrete,
}
use tierbuf.Fault.{
  FaultOutcome, FaultResult, ActiveFault, CompletedFault, FaultState, complete, finish,
}
use tierbuf.Fault.Crowd.{
  Place, outside, gated, waiting, leading, replayed, crashed, Act, proceed, conclude, concluded,
  after_finish, fault_move, leads, waits,
}
use tierbuf.Fault.Arrivals.{Live, IsCompleted, IsSane, Stepped, at, enter-Stepped, wake-Stepped}

module _ (next n l w : ℕ) (log : ℕ → FaultOutcome) (few : w + 1 < 2 ^ 64) where
  finish-complete :
      (g : ℕ) (r : Option FaultResult) (s : FaultState) → finish g r s ≡ complete g (concluded r) s
  unfolding finish
  finish-complete g none s = refl
  finish-complete g (some r) s = refl

  ended_others :
      (a : ActiveFault) (c : Option CompletedFault) (o : FaultOutcome) (q : Place)
      → leads q ≡ 0
      → (waits q ≡ 1 → IsCompleted a.generation c)
      → IsSane n log (at next n log (some a) none outside).faults q
      → IsSane n (update log n o) (at next n log none c outside).faults q
  ended_others a c o (leading g k) alone left sane = absurd (omega arith)
  ended_others a none o (waiting g k) alone left sane = absurd (left refl)
  ended_others a (some d) o (waiting g k) alone left sane = elim sane.0 [
    | inl e ↦ (inr (left refl ∙ e), sane.1)
    | inr none_there ↦ absurd none_there
  ]
  ended_others a c o (replayed k r) alone left sane = elim sane.1 [
    | inl lt ↦ (rw (if_neg (ℕ_discrete n k) (λ e. absurd (omega arith))) sane.0, inl lt)
    | inr e ↦ absurd e.1
  ]
  ended_others a c o crashed alone left sane = sane
  ended_others a c o outside alone left sane = tt
  ended_others a c o gated alone left sane = tt

  complete-Stepped :
      (a : Option ActiveFault) (c : Option CompletedFault) (g k : ℕ) (r : Option FaultResult)
      → Live n log a c l w
      → IsSane n log (at next n log a c outside).faults (leading g k)
      → Stepped l w (leading g k) (at next n log a c (leading g k)) (
          after_finish
            (at next n log a c (leading g k))
            n
            r
            (complete g (concluded r) (at next n log a c (leading g k)).faults))
  unfolding complete
  complete-Stepped none c g k r live sane = absurd sane.0
  complete-Stepped (some a) (some _) g k r live sane = absurd live
  complete-Stepped (some a) none g k r live sane =
      let test : (a.generation == g) ≡ true = ground (arith, sane.0) in
      rw test (
        if-cases
          (λ left. Stepped l w (leading g k) (at next n log (some a) none (leading g k)) (record {
            faults = (at next n log none left outside).faults;
            attempts = n;
            log = update log n (concluded r);
            place = outside;
          }))
          (not (a.waiters == 0)) _ _
          (λ more. record {
            live = λ l' w' el ew. (
              omega (arith, live.0),
              omega (arith, live.1),
              ground (arith, live.1),
              sym (if_pos (ℕ_discrete n n) refl (concluded r) (log n)),
            );
            here = tt;
            others = λ q one _ known.
                ended_others a
                  (some (record {
                    generation = g;
                    outcome = concluded r;
                    remaining_waiters = a.waiters;
                  }))
                  (concluded r) q (omega (arith, live.0)) (λ _. sym sane.0) known;
          })
          (λ zero. record {
            live = λ l' w' el ew. (omega (arith, live.0), ground (arith, live.1));
            here = tt;
            others = λ q one two known.
                ended_others a none (concluded r) q (omega (arith, live.0))
                  (λ e. absurd (ground (arith, live.1))) known;
          }))

  -- Any step of a thread from a state in which what must hold holds.
  idle-Stepped :
      (a : Option ActiveFault) (c : Option CompletedFault) (p : Place)
      → Live n log a c l w
      → IsSane n log (at next n log a c outside).faults p
      → Stepped l w p (at next n log a c p) (at next n log a c p)
  idle-Stepped a c p live sane = record {
    live = λ l' w' el ew.
        subst (λ m. Live n log a c m w') (omega arith)
          (subst (λ m. Live n log a c l m) (omega arith) live);
    here = sane;
    others = λ q _ _ known. known;
  }

  pub move-Stepped :
      (act : Act) (a : Option ActiveFault) (c : Option CompletedFault) (p : Place)
      → Live n log a c l w
      → IsSane n log (at next n log a c outside).faults p
      → Stepped l w p (at next n log a c p) (fault_move act p (at next n log a c p))
  unfolding fault_move
  move-Stepped proceed a c outside live sane =
      enter-Stepped next n l w log few a c outside live refl refl
  move-Stepped proceed a c gated live sane =
      enter-Stepped next n l w log few a c gated live refl refl
  move-Stepped proceed a c (waiting g k) live sane =
      wake-Stepped next n l w log few a c g k live sane
  move-Stepped proceed a c (leading g k) live sane = idle-Stepped a c (leading g k) live sane
  move-Stepped proceed a c (replayed k r) live sane = idle-Stepped a c (replayed k r) live sane
  move-Stepped proceed a c crashed live sane = absurd sane
  move-Stepped (conclude r) a c (leading g k) live sane =
      rw (sane.1, finish-complete g r (at next n log a c (leading g n)).faults)
        (complete-Stepped a c g n r live (sane.0, refl))
  move-Stepped (conclude r) a c outside live sane = idle-Stepped a c outside live sane
  move-Stepped (conclude r) a c gated live sane = idle-Stepped a c gated live sane
  move-Stepped (conclude r) a c (waiting g k) live sane = idle-Stepped a c (waiting g k) live sane
  move-Stepped (conclude r) a c (replayed k x) live sane = idle-Stepped a c (replayed k x) live sane
  move-Stepped (conclude r) a c crashed live sane = absurd sane
