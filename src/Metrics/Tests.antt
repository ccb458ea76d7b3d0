-- ===== src/Metrics/Tests.antt =====
-- A snapshot beside an update that is not finished when it is asked for.
use tierbuf.Prelude.{ℕ, List, [], ◌∷◌, arith}
use tierbuf.Metrics.{record_tier_read}
use tierbuf.Metrics.Gate.{Act, begin_update, begin_snapshot, proceed, run, unused}
use tierbuf.Metrics.Coherence.{Coherent, run-Coherent}

-- Thread 0 records a page read; thread 1 asks for a snapshot too early, then gets it.
abbrev calls : List (ℕ × Act)
calls =
    (0, begin_update (record_tier_read 2 0 65536))
    ∷ (0, proceed)
    ∷ (1, begin_snapshot)
    ∷ (0, proceed)
    ∷ (0, proceed)
    ∷ (1, begin_snapshot)
    ∷ (1, proceed)
    ∷ (1, proceed)
    ∷ []

run-Coherent_example : Coherent (run 2 calls unused).0 ((run 2 calls unused).1 1)
run-Coherent_example =
    run-Coherent 2 2 calls 1
      (
        omega arith,
        (
          omega arith,
          (
            omega arith,
            (omega arith, (omega arith, (omega arith, (omega arith, (omega arith, tt))))),
          ),
        ),
      )
      (omega arith)
