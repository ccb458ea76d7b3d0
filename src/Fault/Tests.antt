-- ===== src/Fault/Tests.antt =====
-- The theorems of `Fault` at concrete inputs.
use tierbuf.Prelude.{ℕ, ◌≤◌, ◌≡◌, ◌≢◌, refl, some, List, [], ◌∷◌, arith, ℕ_discrete}
use tierbuf.Fault.{
  io, FaultResult, fault_ok, fault_err, enter, wake, complete, finish, from_result, into_result,
}
use tierbuf.Tier.Disk.{not_found}
use tierbuf.Fault.Crowd.{
  Act, proceed, conclude, crashed, fault_move, fault_turn, fault_run, unused, leaders,
}
use tierbuf.Fault.Turns.{fault_run-replays, one_leader}

-- Thread 0 leads, threads 1 and 2 wait; thread 0 ends with tier 1, and thread 1 replays it.
abbrev shared_fault : List (ℕ × Act)
shared_fault =
    (0, proceed)
    ∷ (1, proceed)
    ∷ (2, proceed)
    ∷ (0, conclude (some (fault_ok (some 1))))
    ∷ (1, proceed)
    ∷ []

-- The same before the leader ends.
abbrev begun : List (ℕ × Act)
begun = (0, proceed) ∷ (1, proceed) ∷ []

fault_run-replays_example : fault_ok (some 1) ≡ into_result ((fault_run shared_fault unused).log 1)
unfolding fault_run fault_turn fault_move enter wake finish complete from_result into_result
    ℕ_discrete
fault_run-replays_example =
    fault_run-replays 3 shared_fault (omega arith) (omega arith) 1 1 (fault_ok (some 1))
      (omega arith) refl

one_leader_example :
    (leaders 2 (fault_run begun unused) ≤ 1) × ((fault_run begun unused).place 0 ≢ crashed)
one_leader_example = one_leader 2 begun (omega arith) (omega arith) 0 (omega arith)

abbrev missing : FaultResult
missing = fault_err (io (record { kind = not_found; message = []; source = some 2 }))
