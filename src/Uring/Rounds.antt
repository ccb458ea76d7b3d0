-- ===== src/Uring/Rounds.antt =====
-- The thread as a whole: when it ends, every read that it received has its one answer.
use tierbuf.Prelude.{
  ℕ, ◌+◌, ◌^◌, ◌≤◌, ◌<◌, ◌≡◌, refl, sym, ap, ◌∙◌, subst, Bool, true, false, Option, none, some,
  List, [], ◌∷◌, length, arith, if-cases, HashMap, total, inl, inr, ◌⊎◌, Run, done, panicked, ◌>>=◌,
}
use tierbuf.Uring.{
  ReadRequest, Engine, complete_request, fatal_error, accept_all, wait_for_command, is_empty, Cqe,
  Meeting, reap, submitted, submit, round, fail_pending, fail_inflight, finish, after_round,
  run_thread, started,
}
use tierbuf.Uring.Accounts.{
  is_waiter, asked, answered, IsEngine, accept_all-IsEngine, wait_for_command-IsEngine,
  complete_all-IsEngine,
}
use tierbuf.Uring.Submission.{Submits, submit-Submits}
use tierbuf.Uring.Received.{accept_all-received, wait_for_command-received, complete_all-received}

-- Where a round leaves the thread: if it leaves the loop, it failed or has nothing left to do.
abbrev Turns : (most : ℕ) → Run (Engine × Bool) → Type 0
Turns most panicked = ⊥
Turns most (done (e, leave)) =
    IsEngine e
    × (length e.received ≤ most)
    × (leave ≡ true → (e.fatal ≡ true) ⊎ ((e.pending ≡ []) × (e.inflight ≡ [])))

empty : {A : Type 0} (l : List A) → is_empty l ≡ true → l ≡ []
empty [] e = refl
empty (a ∷ l) e = let no_way : false ≡ true = e in cc

reap-Turns :
    (cs : Option (List (ℕ × Cqe))) (e : Engine)
    → IsEngine e
    → Turns (length e.received) (done (reap cs e))
unfolding reap
reap-Turns none e v = (
  record { accounted = v.accounted; keyed = v.keyed; held = v.held; next = v.next },
  omega arith,
  (λ _. inl refl),
)
reap-Turns (some []) e v = (
  record { accounted = v.accounted; keyed = v.keyed; held = v.held; next = v.next },
  omega arith,
  (λ _. inl refl),
)
reap-Turns (some (c ∷ cs)) e v = (
  complete_all-IsEngine (c ∷ cs) e v,
  omega (arith, ap (λ (l : List ReadRequest). length l) (complete_all-received (c ∷ cs) e)),
  (λ y. inl y),
)

submitted-Turns :
    (cs : Option (List (ℕ × Cqe))) (e : Engine)
    → IsEngine e
    → Turns (length e.received) (done (submitted cs e))
unfolding submitted
submitted-Turns cs e v =
    if-cases (λ w. Turns (length e.received) (done w)) (is_empty e.inflight) _ _
      (λ y. (v, omega arith, (λ leave. inr (empty e.pending (ground arith), empty e.inflight y))))
      (λ n. reap-Turns cs e v)

sent-Turns :
    (m : Meeting) (e : Engine) (run : Run Engine)
    → Submits e run
    → Turns (length e.received) (run >>= λ (e' : Engine). done (submitted m.completions e'))
sent-Turns m e panicked h = h
sent-Turns m e (done e') (v, same, _, _) =
    subst (λ (l : List ReadRequest). Turns (length l) (done (submitted m.completions e'))) same
      (submitted-Turns m.completions e' v)

more : (n n' : ℕ) (run : Run (Engine × Bool)) → n ≤ n' → Turns n run → Turns n' run
more n n' panicked le h = h
more n n' (done (e, leave)) le (v, few, ends) = (v, omega arith, ends)

round-Turns :
    (m : Meeting) (e : Engine)
    → IsEngine e
    → length e.received + (length m.commands + 1) + 1 < 2 ^ 64
    → Turns (length e.received + (length m.commands + 1)) (round m e)
unfolding round
round-Turns m e v small =
    let waited = wait_for_command m.first e in
    let given = accept_all m.commands m.disconnected waited in
    let few : length given.received ≤ length e.received + (length m.commands + 1) = omega (
      arith,
      accept_all-received m.commands m.disconnected waited,
      wait_for_command-received m.first e,
    ) in
    more (length given.received) _ _ few (
      sent-Turns m given (submit m.pushes 0 given.pending given) (
        submit-Submits m.pushes 0 given.pending given
          (accept_all-IsEngine m.commands m.disconnected waited
            (wait_for_command-IsEngine m.first e v))
          (omega arith)))

fail_pending_lem :
    (rs : List ReadRequest) (e : Engine) (w : ℕ)
    → (answered w (fail_pending rs e).answers ≡ asked w rs + answered w e.answers)
      × ((fail_pending rs e).received ≡ e.received)
unfolding fail_pending complete_request
fail_pending_lem [] e w = (omega arith, refl)
fail_pending_lem (r ∷ rs) e w =
    let (count, same) = fail_pending_lem rs (complete_request r fatal_error e) w in
    (omega (arith, count), same)

fail_inflight_lem :
    (m : HashMap ReadRequest) (e : Engine) (w : ℕ)
    → (answered w (fail_inflight m e).answers ≡ total (is_waiter w) m + answered w e.answers)
      × ((fail_inflight m e).received ≡ e.received)
unfolding fail_inflight complete_request total
fail_inflight_lem [] e w = (omega arith, refl)
fail_inflight_lem ((u, r) ∷ m) e w =
    let (count, same) =
      fail_inflight_lem m
        (complete_request r fatal_error (record e { leaked = r.waiter ∷ e.leaked })) w in
    (omega (arith, count), same)

-- Nothing is left, and each waiter has as many answers as it asked for.
pub record IsDone (e : Engine) : Type 0 where
  pub answers : (w : ℕ) → answered w e.answers ≡ asked w e.received
  pub no_pending : e.pending ≡ []
  pub no_inflight : e.inflight ≡ []

abbrev Finished : Run Engine → Type 0
Finished panicked = ⊥
Finished (done e) = IsDone e

finish-Finished :
    (e : Engine)
    → IsEngine e
    → (e.fatal ≡ true) ⊎ ((e.pending ≡ []) × (e.inflight ≡ []))
    → Finished (finish e)
unfolding finish total
finish-Finished e v h =
    if-cases Finished e.fatal _ _
      (λ y. (record {
        answers = λ w.
            let failed = fail_pending e.pending e in
            let (count, same) = fail_pending_lem e.pending e w in
            let (count', same') = fail_inflight_lem e.inflight failed w in
            omega (arith, count, count', v.accounted w, ap (asked w) (same' ∙ same));
        no_pending = refl;
        no_inflight = refl;
      }))
      (λ n. elim h [
        | inl y ↦ (let no_way : true ≡ false = sym y ∙ n in cc)
        | inr (p, i) ↦
            rw (p, i)
              (record {
                answers =
                    λ w. omega (arith, v.accounted w, ap (asked w) p, ap (total (is_waiter w)) i);
                no_pending = refl;
                no_inflight = refl;
              })
      ])

-- The thread still runs, or it has ended with nothing left.
abbrev pub Ended : Run (Option Engine) → Type 0
Ended panicked = ⊥
Ended (done none) = Unit
Ended (done (some e)) = IsDone e

-- The most reads that the rounds can receive.
abbrev pub offered : List Meeting → ℕ
offered [] = 0
offered (m ∷ ms) = length m.commands + 1 + offered ms

finished : (run : Run Engine) → Finished run → Ended (run >>= λ (e : Engine). done (some e))
finished panicked h = h
finished (done e) h = h

after_round-Ended :
    (ms : List Meeting) (most : ℕ) (run : Run (Engine × Bool))
    → Turns most run
    → ((e : Engine) → IsEngine e → length e.received ≤ most → Ended (run_thread ms e))
    → Ended (run >>= after_round (run_thread ms))
unfolding after_round
after_round-Ended ms most panicked h k = h
after_round-Ended ms most (done (e, true)) (v, few, ends) k =
    finished (finish e) (finish-Finished e v (ends refl))
after_round-Ended ms most (done (e, false)) (v, few, ends) k = k e v few

run_thread-Ended :
    (ms : List Meeting) (e : Engine)
    → IsEngine e
    → length e.received + offered ms + 1 < 2 ^ 64
    → Ended (run_thread ms e)
unfolding run_thread
run_thread-Ended [] e v small = tt
run_thread-Ended (m ∷ ms) e v small =
    after_round-Ended ms (length e.received + (length m.commands + 1)) (round m e)
      (round-Turns m e v (omega arith)) (λ e' v' few. run_thread-Ended ms e' v' (omega arith))

started-IsEngine : IsEngine started
unfolding total
started-IsEngine = record {
  accounted = λ w. refl;
  keyed = tt;
  held = omega arith;
  next = (omega arith, omega arith);
}

-- Whatever the kernel and the callers do, as long as fewer than 2^64 - 1 reads can be received, the
-- thread does not panic, and if it ends, nothing is pending or in flight and each waiter has been
-- sent exactly one answer for each read that was received of it.
pub run_thread-answers :
    (ms : List Meeting) → offered ms + 1 < 2 ^ 64 → Ended (run_thread ms started)
run_thread-answers ms small = run_thread-Ended ms started started-IsEngine (omega arith)
