-- ===== src/Uring/Accounts.antt =====
-- Each read that was received is pending, in flight or answered, exactly once.
use tierbuf.Prelude.{
  ℕ, ◌+◌, ◌^◌, ◌≤◌, ◌<◌, ◌≡◌, refl, Bool, not, ◌&&◌, Option, none, some, List, [], ◌∷◌, ◌++◌,
  length, arith, ◌==◌, if◌then◌else◌, if-cases, IsMap, get, remove, total, total-remove_present,
  inl, inr, Option-cases, remove-IsMap, length-remove_present, length-append,
}
use tierbuf.Uring.{
  ReadRequest, Command, read_command, shutdown_command, Answer, Engine, complete_request,
  complete_cqe, Cqe, negative, bytes, accept, accept_all, receive_one, wait_for_command, found,
  complete_all, is_empty, page_read, short_read, os_error,
}

-- How often the waiter's reads are among them.
abbrev pub is_waiter : ℕ → ReadRequest → ℕ
is_waiter w r = if r.waiter == w then 1 else 0

abbrev pub asked : ℕ → List ReadRequest → ℕ
asked w [] = 0
asked w (r ∷ rs) = is_waiter w r + asked w rs

abbrev pub answered : ℕ → List (ℕ × Answer) → ℕ
answered w [] = 0
answered w ((v, _) ∷ rest) = (if v == w then 1 else 0) + answered w rest

-- The reads in flight that the kernel may complete stay below the number of identifiers.
pub record IsEngine (e : Engine) : Type 0 where
  pub accounted :
      (w : ℕ)
      → asked w e.received
        ≡ asked w e.pending + (total (is_waiter w) e.inflight + answered w e.answers)
  pub keyed : IsMap e.inflight
  pub held : length e.pending + length e.inflight ≤ length e.received
  pub next : (0 < e.next_user_data) × (e.next_user_data < 2 ^ 64)

pub asked-append : (w : ℕ) (rs qs : List ReadRequest) → asked w (rs ++ qs) ≡ asked w rs + asked w qs
asked-append w [] qs = omega arith
asked-append w (r ∷ rs) qs = omega (arith, asked-append w rs qs)

-- A read that goes from the engine to its waiter.
pub completed :
    (r : ReadRequest) (a : Answer) (e : Engine) (w : ℕ)
    → answered w (complete_request r a e).answers ≡ is_waiter w r + answered w e.answers
unfolding complete_request
completed r a e w = refl

pub accept-IsEngine : (c : Command) (e : Engine) → IsEngine e → IsEngine (accept c e)
unfolding accept complete_request
accept-IsEngine (read_command r) e v =
    if-cases IsEngine (not e.shutting_down) _ _
      (λ y. record {
        accounted = λ w. omega (arith, v.accounted w, asked-append w e.pending (r ∷ []));
        keyed = v.keyed;
        held = omega (arith, v.held, length-append e.pending (r ∷ []));
        next = v.next;
      })
      (λ n. record {
        accounted = λ w. omega (arith, v.accounted w);
        keyed = v.keyed;
        held = omega (arith, v.held);
        next = v.next;
      })
accept-IsEngine shutdown_command e v = record {
  accounted = v.accounted;
  keyed = v.keyed;
  held = v.held;
  next = v.next;
}

pub accept_all-IsEngine :
    (cs : List Command) (d : Bool) (e : Engine) → IsEngine e → IsEngine (accept_all cs d e)
unfolding accept_all
accept_all-IsEngine [] d e v =
    if-cases IsEngine d _ _
      (λ y. record { accounted = v.accounted; keyed = v.keyed; held = v.held; next = v.next })
      (λ n. v)
accept_all-IsEngine (c ∷ cs) d e v = accept_all-IsEngine cs d (accept c e) (accept-IsEngine c e v)

receive_one-IsEngine : (c : Option Command) (e : Engine) → IsEngine e → IsEngine (receive_one c e)
unfolding receive_one
receive_one-IsEngine (some (read_command r)) e v = record {
  accounted = λ w. omega (arith, v.accounted w, asked-append w e.pending (r ∷ []));
  keyed = v.keyed;
  held = omega (arith, v.held, length-append e.pending (r ∷ []));
  next = v.next;
}
receive_one-IsEngine (some shutdown_command) e v = record {
  accounted = v.accounted;
  keyed = v.keyed;
  held = v.held;
  next = v.next;
}
receive_one-IsEngine none e v = record {
  accounted = v.accounted;
  keyed = v.keyed;
  held = v.held;
  next = v.next;
}

pub wait_for_command-IsEngine :
    (c : Option Command) (e : Engine) → IsEngine e → IsEngine (wait_for_command c e)
unfolding wait_for_command
wait_for_command-IsEngine c e v =
    if-cases IsEngine (is_empty e.pending && (is_empty e.inflight && not e.shutting_down)) _ _
      (λ y. receive_one-IsEngine c e v) (λ n. v)

-- A read in flight that is answered.
answers_one :
    (u : ℕ) (r : ReadRequest) (a : Answer) (e : Engine)
    → get u e.inflight ≡ some r
    → IsEngine e
    → IsEngine (complete_request r a (record e { inflight = remove u e.inflight }))
unfolding complete_request
answers_one u r a e at v = record {
  accounted = λ w.
      omega (arith, v.accounted w, total-remove_present (is_waiter w) u r e.inflight v.keyed at);
  keyed = remove-IsMap u e.inflight v.keyed;
  held = omega (arith, v.held, length-remove_present u r e.inflight v.keyed at);
  next = v.next;
}

complete_cqe-IsEngine :
    (u : ℕ) (r : ReadRequest) (c : Cqe) (e : Engine)
    → get u e.inflight ≡ some r
    → IsEngine e
    → IsEngine (complete_cqe r c (record e { inflight = remove u e.inflight }))
unfolding complete_cqe complete_request
complete_cqe-IsEngine u r (negative code) e at v = answers_one u r (os_error code) e at v
complete_cqe-IsEngine u r (bytes n) e at v =
    if-cases IsEngine (not (n == 65536)) _ _ (λ y. answers_one u r (short_read n) e at v)
      (λ n. answers_one u r page_read e at v)

-- The completions of a round.
pub complete_all-IsEngine :
    (cs : List (ℕ × Cqe)) (e : Engine) → IsEngine e → IsEngine (complete_all cs e)
unfolding complete_all found
complete_all-IsEngine [] e v = v
complete_all-IsEngine ((u, c) ∷ cs) e v = elim (Option-cases (get u e.inflight)) [
  | inl none_there ↦
      rw none_there
        (record { accounted = v.accounted; keyed = v.keyed; held = v.held; next = v.next })
  | inr (r, at) ↦ rw at (
      complete_all-IsEngine cs (complete_cqe r c (record e { inflight = remove u e.inflight }))
        (complete_cqe-IsEngine u r c e at v))
]
