-- ===== src/Uring/Tests.antt =====
-- Two reads, one of which fails, and a shutdown.
use tierbuf.Prelude.{
  ℕ, false, none, some, ◌+◌, List, [], ◌∷◌, arith, HashMap, IsMap, get, length, refl, ℕ_discrete,
}
use tierbuf.Uring.{
  ReadRequest, read_command, shutdown_command, negative, bytes, pushed, Meeting, allocate_user_data,
  run_thread, started,
}
use tierbuf.Uring.Identifiers.{Found, allocate_user_data-Found}
use tierbuf.Uring.Rounds.{Ended, run_thread-answers}

abbrev read_of : (waiter : ℕ) → ReadRequest
read_of waiter = record { waiter = waiter; raw_fd = 3; location = 65536 }

abbrev meetings : List Meeting
meetings =
    (record {
      first = some (read_command (read_of 1));
      commands = read_command (read_of 2) ∷ [];
      disconnected = false;
      pushes = λ k. pushed;
      completions = some ((2, bytes 65536) ∷ []);
    })
    ∷ (record {
      first = none;
      commands = shutdown_command ∷ [];
      disconnected = false;
      pushes = λ k. pushed;
      completions = some ((1, negative 5) ∷ []);
    })
    ∷ (record {
      first = none;
      commands = [];
      disconnected = false;
      pushes = λ k. pushed;
      completions = none;
    })
    ∷ []

run_thread-answers_example : Ended (run_thread meetings started)
run_thread-answers_example = run_thread-answers meetings (omega arith)

-- Two reads in flight, the search at the end of the identifiers.
abbrev two : HashMap ReadRequest
two = (18446744073709551615, read_of 1) ∷ (1, read_of 2) ∷ []

two-IsMap : IsMap two
unfolding get ℕ_discrete
two-IsMap = (refl, (refl, tt))

allocate_user_data-Found_example :
    Found two (allocate_user_data (length two + 1) 18446744073709551615 two)
allocate_user_data-Found_example =
    allocate_user_data-Found 18446744073709551615 two (omega arith) (omega arith) two-IsMap
      (omega arith)
