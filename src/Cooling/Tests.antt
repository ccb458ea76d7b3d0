-- ===== src/Cooling/Tests.antt =====
-- The theorems of `Cooling` at concrete inputs.
use tierbuf.Prelude.{ℕ, ◌≡◌, refl, List, [], ◌∷◌, ℕ_discrete}
use tierbuf.Cooling.{CoolingTicket, ticket_eq, contains, push_unique, pop}
use tierbuf.Cooling.Fifo.{Call, push, take, Served, call, calls, IsFifo, calls-IsFifo}

abbrev ticket : ℕ → CoolingTicket
ticket n = record { frame_index = n; pid = n; generation = 1; resident = 4096 }

-- The test `duplicate_exact_ticket_has_one_queue_membership` of the source, and a second ticket.
abbrev session : List Call
session = push (ticket 0) ∷ push (ticket 0) ∷ push (ticket 1) ∷ take ∷ []

abbrev idle : Served
idle = record { entries = []; accepted = []; taken = [] }

session_result : (calls session idle).entries ≡ ticket 1 ∷ []
unfolding calls call push_unique contains ticket_eq pop ℕ_discrete
session_result = refl

calls-IsFifo_example : IsFifo (calls session idle)
calls-IsFifo_example = calls-IsFifo session idle (record { order = refl; once = tt })
