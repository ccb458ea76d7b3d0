-- ===== src/Uring.antt =====
-- crates/tierbuf/src/uring.rs: the thread that owns the ring, from the commands it receives to the
-- answers it sends. What the kernel and the callers do in a round is given for each round.
pub mod Identifiers
pub mod Accounts
pub mod Submission
pub mod Received
pub mod Rounds
mod Tests
use tierbuf.Prelude.{
  ℕ, suc, zero, ◌+◌, ◌%◌, ◌^◌, Bool, true, false, not, ◌&&◌, ◌||◌, Option, none, some, List, [],
  ◌∷◌, ◌++◌, length, ltb, leb, ◌==◌, if◌then◌else◌, Run, done, panicked, ◌>>=◌, ◌>>◌, assert,
  HashMap, get, insert, remove,
}
use tierbuf.Tier.File.{page_size}

-- `waiter` names the completion channel of the caller; its page goes back with the answer.
pub record ReadRequest : Type 0 where
  pub waiter : ℕ
  pub raw_fd : ℕ
  pub location : ℕ

pub data Command : Type 0 where
  read_command : ReadRequest → Command
  shutdown_command : Command

-- What a caller is sent: the page, or an error.
pub data Answer : Type 0 where
  page_read : Answer
  engine_stopped : Answer
  short_read : (bytes : ℕ) → Answer
  os_error : (code : ℕ) → Answer
  fatal_error : Answer

-- `received` and `answers` log what came over the channels; `leaked` are the waiters whose pages the
-- kernel may still see.
pub record Engine : Type 0 where
  pub pending : List ReadRequest
  pub inflight : HashMap ReadRequest
  pub next_user_data : ℕ
  pub shutting_down : Bool
  pub fatal : Bool
  pub received : List ReadRequest
  pub answers : List (ℕ × Answer)
  pub leaked : List ℕ

unfoldable pub complete_request : ReadRequest → Answer → Engine → Engine
complete_request r a e = record e { answers = (r.waiter, a) ∷ e.answers }

-- `result` of a completion: a negated error code, or the bytes read.
pub data Cqe : Type 0 where
  negative : (code : ℕ) → Cqe
  bytes : (n : ℕ) → Cqe

unfoldable pub complete_cqe : ReadRequest → Cqe → Engine → Engine
complete_cqe r (negative code) e = complete_request r (os_error code) e
complete_cqe r (bytes n) e =
    if not (n == page_size)
    then complete_request r (short_read n) e
    else complete_request r page_read e

abbrev pub received_one : ReadRequest → Engine → Engine
received_one r e = record e { received = r ∷ e.received }

abbrev pub push_back : ReadRequest → Engine → Engine
push_back r e = record e { pending = e.pending ++ r ∷ [] }

abbrev pub stop : Engine → Engine
stop e = record e { shutting_down = true }

-- One command of the inner loop.
unfoldable pub accept : Command → Engine → Engine
accept (read_command r) e =
    if not e.shutting_down
    then push_back r (received_one r e)
    else complete_request r engine_stopped (received_one r e)
accept shutdown_command e = stop e

-- The inner loop, until the channel is empty or disconnected.
unfoldable pub accept_all : List Command → (disconnected : Bool) → Engine → Engine
accept_all [] disconnected e = if disconnected then stop e else e
accept_all (c ∷ cs) disconnected e = accept_all cs disconnected (accept c e)

abbrev pub is_empty : {A : Type 0} → List A → Bool
is_empty [] = true
is_empty (_ ∷ _) = false

unfoldable pub receive_one : Option Command → Engine → Engine
receive_one (some (read_command r)) e = push_back r (received_one r e)
receive_one (some shutdown_command) e = stop e
receive_one none e = stop e

-- The blocking `recv` of a thread that has nothing to do; `none` is a closed channel.
unfoldable pub wait_for_command : Option Command → Engine → Engine
wait_for_command c e =
    if is_empty e.pending && (is_empty e.inflight && not e.shutting_down)
    then receive_one c e
    else e

-- `wrapping_add(1)`, but never zero.
unfoldable pub next_data : ℕ → ℕ
next_data current = let next = (current + 1) % 2 ^ 64 in if next == 0 then 1 else next

abbrev pub is_absent : Option ReadRequest → Bool
is_absent none = true
is_absent (some _) = false

-- The identifier, and the next one to try; `none` is a loop that has not returned.
unfoldable pub allocate_user_data : (fuel : ℕ) → (next : ℕ) → HashMap ReadRequest → Option (ℕ × ℕ)
allocate_user_data zero next inflight = none
allocate_user_data (suc n) next inflight =
    let rest = allocate_user_data n (next_data next) inflight in
    if not (next == 0) && is_absent (get next inflight) then some (next, next_data next) else rest

-- How the submission of a read to the ring ends.
pub data Push : Type 0 where
  pushed : Push
  would_block : Push
  rejected : (code : ℕ) → Push

-- What follows the push of a request under its identifier.
unfoldable pub after_push :
    (resume : Engine → Run Engine)
    → ReadRequest
    → (rest : List ReadRequest) → (user_data : ℕ) → Engine
    → Push
    → Run Engine
after_push resume r rest user_data e pushed = resume e
after_push resume r rest user_data e would_block =
    done (record e { inflight = remove user_data e.inflight; pending = r ∷ rest })
after_push resume r rest user_data e (rejected code) =
    resume
      (complete_request r (os_error code) (record e { inflight = remove user_data e.inflight }))

unfoldable pub push_as :
    (resume : Engine → Run Engine)
    → ReadRequest
    → (rest : List ReadRequest) → Push
    → Engine
    → Option (ℕ × ℕ)
    → Run Engine
push_as resume r rest push e none = panicked
push_as resume r rest push e (some (user_data, next)) =
    assert (is_absent (get user_data e.inflight))
    >> after_push resume r rest user_data
        (record e { inflight = insert user_data r e.inflight; next_user_data = next }) push

-- `submit_pending`, on the requests that are left. The fuel of the identifier is one more than there
-- are requests in flight.
unfoldable pub submit : (pushes : ℕ → Push) → (index : ℕ) → List ReadRequest → Engine → Run Engine
submit pushes index [] e = done (record e { pending = [] })
submit pushes index (r ∷ rs) e =
    push_as (submit pushes (index + 1) rs) r rs (pushes index) e
      (allocate_user_data (length e.inflight + 1) e.next_user_data e.inflight)

unfoldable pub found :
    (user_data : ℕ) → Cqe → (rest : Engine → Engine) → Engine → Option ReadRequest → Engine
found user_data result rest e none = record e { fatal = true }
found user_data result rest e (some r) =
    rest (complete_cqe r result (record e { inflight = remove user_data e.inflight }))

-- `for (user_data, result) in completions`
unfoldable pub complete_all : List (ℕ × Cqe) → Engine → Engine
complete_all [] e = e
complete_all ((user_data, result) ∷ cs) e =
    found user_data result (complete_all cs) e (get user_data e.inflight)

-- What one round of the loop meets. `completions` of none is a failed wait.
pub record Meeting : Type 0 where
  pub first : Option Command
  pub commands : List Command
  pub disconnected : Bool
  pub pushes : ℕ → Push
  pub completions : Option (List (ℕ × Cqe))

-- After the wait; `true` leaves the loop.
unfoldable pub reap : Option (List (ℕ × Cqe)) → Engine → Engine × Bool
reap none e = (record e { fatal = true }, true)
reap (some []) e = (record e { fatal = true }, true)
reap (some (c ∷ cs)) e = let e' = complete_all (c ∷ cs) e in (e', e'.fatal)

unfoldable pub submitted : Option (List (ℕ × Cqe)) → Engine → Engine × Bool
submitted completions e =
    if is_empty e.inflight then (e, e.shutting_down && is_empty e.pending) else reap completions e

unfoldable pub round : Meeting → Engine → Run (Engine × Bool)
round m e = do
  let asked = accept_all m.commands m.disconnected (wait_for_command m.first e)
  sent ← submit m.pushes 0 asked.pending asked
  done (submitted m.completions sent)

unfoldable pub fail_pending : List ReadRequest → Engine → Engine
fail_pending [] e = e
fail_pending (r ∷ rs) e = fail_pending rs (complete_request r fatal_error e)

-- The pages of reads in flight are leaked.
unfoldable pub fail_inflight : HashMap ReadRequest → Engine → Engine
fail_inflight [] e = e
fail_inflight ((_, r) ∷ m) e =
    fail_inflight m (complete_request r fatal_error (record e { leaked = r.waiter ∷ e.leaked }))

-- The end of the thread: `fail_all`, or the assertions that nothing is left.
unfoldable pub finish : Engine → Run Engine
finish e =
    if e.fatal
    then (let e' = fail_inflight e.inflight (fail_pending e.pending e) in
        done (record e' { pending = []; inflight = [] }))
    else assert (is_empty e.pending) >> (assert (is_empty e.inflight) >> done e)

unfoldable pub after_round :
    (rest : Engine → Run (Option Engine)) → Engine × Bool → Run (Option Engine)
after_round rest (e, true) = do f ← finish e; done (some f)
after_round rest (e, false) = rest e

-- `run_completion_thread`; `none` is a thread that still runs after these rounds.
unfoldable pub run_thread : List Meeting → Engine → Run (Option Engine)
run_thread [] e = done none
run_thread (m ∷ ms) e = round m e >>= after_round (run_thread ms)

abbrev pub started : Engine
started = record {
  pending = [];
  inflight = [];
  next_user_data = 1;
  shutting_down = false;
  fatal = false;
  received = [];
  answers = [];
  leaked = [];
}
