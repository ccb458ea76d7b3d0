-- ===== src/Uring/Received.antt =====
-- How many reads a round can receive.
use tierbuf.Prelude.{
  ℕ, ◌+◌, ◌≤◌, ◌≡◌, refl, ◌∙◌, Bool, not, ◌&&◌, Option, none, some, List, [], ◌∷◌, length, arith,
  ◌==◌, if-cases, inl, inr, Option-cases, get, remove,
}
use tierbuf.Tier.File.{page_size}
use tierbuf.Uring.{
  ReadRequest, Command, read_command, shutdown_command, Engine, complete_request, accept,
  accept_all, receive_one, wait_for_command, is_empty, Cqe, negative, bytes, complete_all, found,
  complete_cqe,
}

-- No command adds more than one read.
accept-received : (c : Command) (e : Engine) → length (accept c e).received ≤ length e.received + 1
unfolding accept complete_request
accept-received (read_command r) e =
    if-cases (λ (e' : Engine). length e'.received ≤ length e.received + 1) (not e.shutting_down) _ _
      (λ y. omega arith) (λ n. omega arith)
accept-received shutdown_command e = omega arith

pub accept_all-received :
    (cs : List Command) (d : Bool) (e : Engine)
    → length (accept_all cs d e).received ≤ length e.received + length cs
unfolding accept_all
accept_all-received [] d e =
    if-cases (λ (e' : Engine). length e'.received ≤ length e.received + 0) d _ _ (λ y. omega arith)
      (λ n. omega arith)
accept_all-received (c ∷ cs) d e =
    omega (arith, accept_all-received cs d (accept c e), accept-received c e)

receive_one-received :
    (c : Option Command) (e : Engine) → length (receive_one c e).received ≤ length e.received + 1
unfolding receive_one
receive_one-received (some (read_command r)) e = omega arith
receive_one-received (some shutdown_command) e = omega arith
receive_one-received none e = omega arith

pub wait_for_command-received :
    (c : Option Command) (e : Engine)
    → length (wait_for_command c e).received ≤ length e.received + 1
unfolding wait_for_command
wait_for_command-received c e =
    if-cases (λ (e' : Engine). length e'.received ≤ length e.received + 1)
      (is_empty e.pending && (is_empty e.inflight && not e.shutting_down)) _ _
      (λ y. receive_one-received c e) (λ n. omega arith)

complete_cqe-received :
    (r : ReadRequest) (c : Cqe) (e : Engine) → (complete_cqe r c e).received ≡ e.received
unfolding complete_cqe complete_request
complete_cqe-received r (negative code) e = refl
complete_cqe-received r (bytes n) e =
    if-cases (λ (e' : Engine). e'.received ≡ e.received) (not (n == page_size)) _ _ (λ y. refl)
      (λ n'. refl)

pub complete_all-received :
    (cs : List (ℕ × Cqe)) (e : Engine) → (complete_all cs e).received ≡ e.received
unfolding complete_all found
complete_all-received [] e = refl
complete_all-received ((u, c) ∷ cs) e = elim (Option-cases (get u e.inflight)) [
  | inl none_there ↦ rw none_there refl
  | inr (r, at) ↦ rw at (
      complete_all-received cs (complete_cqe r c (record e { inflight = remove u e.inflight }))
      ∙ complete_cqe-received r c (record e { inflight = remove u e.inflight }))
]
