-- ===== src/Fault/Crowd.antt =====
-- Many threads that fault on one page. Attempts are numbered from one, and `log` remembers the
-- outcome with which the leader of each attempt ended it.
use tierbuf.Prelude.{
  ℕ, ◌+◌, ◌<◌, Option, none, some, List, [], ◌∷◌, All, update, Run, done, panicked, sum_to,
}
use tierbuf.Fault.{
  FaultOutcome, success, failure, replay_contended, FaultResult, from_result, FaultState, Entered,
  leader, waiter, later, enter, wake, finish,
}

-- Where a thread stands; `crashed` follows a panic.
pub data Place : Type 0 where
  outside : Place
  gated : Place  -- in `enter`, behind a completed fault that others still replay
  waiting : (generation attempt : ℕ) → Place
  leading : (generation attempt : ℕ) → Place
  replayed : (attempt : ℕ) → FaultResult → Place
  crashed : Place

-- `conclude none` drops the leader.
pub data Act : Type 0 where
  proceed : Act
  conclude : Option FaultResult → Act

pub record Turn : Type 0 where
  pub faults : FaultState
  pub attempts : ℕ
  pub log : ℕ → FaultOutcome
  pub place : Place

-- The outcome that a leader leaves.
abbrev pub concluded : Option FaultResult → FaultOutcome
concluded (some result) = from_result result
concluded none = failure replay_contended

abbrev crash : Turn → Turn
crash t = record t { place = crashed }

abbrev pub after_enter : Turn → Run (FaultState × Entered) → Turn
after_enter t panicked = crash t
after_enter t (done (s, leader g)) = record t {
  faults = s;
  attempts = t.attempts + 1;
  place = leading g (t.attempts + 1);
}
after_enter t (done (s, waiter g)) = record t { faults = s; place = waiting g t.attempts }
after_enter t (done (s, later)) = record t { faults = s; place = gated }

abbrev pub after_wake : Turn → (attempt : ℕ) → Run (FaultState × Option FaultResult) → Turn
after_wake t k panicked = crash t
after_wake t k (done (s, none)) = record t { faults = s }
after_wake t k (done (s, some result)) = record t { faults = s; place = replayed k result }

abbrev pub after_finish : Turn → (attempt : ℕ) → Option FaultResult → Run FaultState → Turn
after_finish t k result panicked = crash t
after_finish t k result (done s) = record t {
  faults = s;
  log = update t.log k (concluded result);
  place = outside;
}

-- One step of a thread. An act that does not fit its place does nothing.
unfoldable pub fault_move : Act → Place → Turn → Turn
unfolding from_result
fault_move proceed outside t = after_enter t (enter t.faults)
fault_move proceed gated t = after_enter t (enter t.faults)
fault_move proceed (waiting g k) t = after_wake t k (wake g t.faults)
fault_move (conclude result) (leading g k) t = after_finish t k result (finish g result t.faults)
fault_move _ _ t = t

pub record Crowd : Type 0 where
  pub faults : FaultState
  pub attempts : ℕ
  pub log : ℕ → FaultOutcome
  pub place : ℕ → Place

unfoldable pub fault_turn : ℕ × Act → Crowd → Crowd
fault_turn (i, act) s =
    let t =
      fault_move act (s.place i)
        (record { faults = s.faults; attempts = s.attempts; log = s.log; place = s.place i }) in
    record {
      faults = t.faults;
      attempts = t.attempts;
      log = t.log;
      place = update s.place i t.place;
    }

unfoldable pub fault_run : List (ℕ × Act) → Crowd → Crowd
fault_run [] s = s
fault_run (t ∷ ts) s = fault_run ts (fault_turn t s)

abbrev pub unused : Crowd
unused = record {
  faults = record { next_generation = 0; active = none; completed = none };
  attempts = 0;
  log = λ _. success none;
  place = λ _. outside;
}

abbrev pub leads : Place → ℕ
leads (leading _ _) = 1
leads _ = 0

abbrev pub waits : Place → ℕ
waits (waiting _ _) = 1
waits _ = 0

abbrev pub leaders : ℕ → Crowd → ℕ
leaders n s = sum_to leads n s.place

abbrev pub waiters_out : ℕ → Crowd → ℕ
waiters_out n s = sum_to waits n s.place

abbrev pub IsSchedule : ℕ → List (ℕ × Act) → Type 0
IsSchedule n = All (λ t. t.0 < n)
