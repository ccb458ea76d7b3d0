-- ===== src/Uring/Submission.antt =====
-- The submission of pending reads: it returns, and loses none.
use tierbuf.Prelude.{
  ℕ, ◌+◌, ◌^◌, ◌<◌, ◌≡◌, refl, sym, subst, Option, none, some, List, [], ◌∷◌, length, arith, get,
  insert, remove, total-insert, total-remove_present, insert-IsMap, remove-IsMap, get-insert, Run,
  done, panicked, length-insert, length-remove_present,
}
use tierbuf.Uring.{
  ReadRequest, Engine, complete_request, os_error, Push, pushed, would_block, rejected, after_push,
  push_as, submit, allocate_user_data,
}
use tierbuf.Uring.Identifiers.{Found, allocate_user_data-Found}
use tierbuf.Uring.Accounts.{is_waiter, IsEngine}

-- The engine whose pending reads are these.
abbrev pub with_pending : List ReadRequest → Engine → Engine
with_pending rs e = record e { pending = rs }

-- The submission returns a well-formed engine that received the same and stops as before.
abbrev pub Submits : Engine → Run Engine → Type 0
Submits e panicked = ⊥
Submits e (done e') =
    IsEngine e'
    × (e'.received ≡ e.received)
    × (e'.shutting_down ≡ e.shutting_down)
    × (e'.fatal ≡ e.fatal)

module _ (e : Engine) (r : ReadRequest) (rs : List ReadRequest) (u next : ℕ)
    (v : IsEngine (with_pending (r ∷ rs) e)) (free : get u e.inflight ≡ none) (pos : 0 < next)
    (lt : next < 2 ^ 64) where
  abbrev entered : Engine
  entered = record e { inflight = insert u r e.inflight; next_user_data = next }

  -- The read is in flight.
  entered-IsEngine : IsEngine (with_pending rs entered)
  entered-IsEngine = record {
    accounted = λ w. omega (arith, v.accounted w, total-insert (is_waiter w) u r e.inflight free);
    keyed = insert-IsMap u r e.inflight v.keyed;
    held = omega (arith, v.held, length-insert u r e.inflight free);
    next = (pos, lt);
  }

  -- It is taken back.
  back-IsEngine :
      IsEngine (record entered { inflight = remove u entered.inflight; pending = r ∷ rs })
  back-IsEngine =
      let there = get-insert u r e.inflight in
      let keyed = insert-IsMap u r e.inflight v.keyed in
      record {
        accounted = λ w. omega (
          arith,
          v.accounted w,
          total-insert (is_waiter w) u r e.inflight free,
          total-remove_present (is_waiter w) u r (insert u r e.inflight) keyed there,
        );
        keyed = remove-IsMap u (insert u r e.inflight) keyed;
        held = omega (
          arith,
          v.held,
          length-insert u r e.inflight free,
          length-remove_present u r (insert u r e.inflight) keyed there,
        );
        next = (pos, lt);
      }

  -- It is taken back and refused.
  refused-IsEngine :
      (code : ℕ)
      → IsEngine (
          with_pending rs (
            complete_request r
              (os_error code)
              (record entered { inflight = remove u entered.inflight })))
  unfolding complete_request
  refused-IsEngine code =
      let b = back-IsEngine in
      record {
        accounted = λ w. omega (arith, b.accounted w);
        keyed = b.keyed;
        held = omega (arith, b.held);
        next = b.next;
      }

push_as-Submits :
    (resume : Engine → Run Engine) (e : Engine) (r : ReadRequest) (rs : List ReadRequest) (p : Push)
    (o : Option (ℕ × ℕ))
    → IsEngine (with_pending (r ∷ rs) e)
    → Found e.inflight o
    → ((e' : Engine)
        → IsEngine (with_pending rs e')
        → e'.received ≡ e.received
        → Submits e' (resume e'))
    → Submits e (push_as resume r rs p e o)
unfolding push_as after_push complete_request
push_as-Submits resume e r rs pushed (some (u, next)) v (free, _, pos, lt) k =
    rw free
      (k (entered e r rs u next v free pos lt) (entered-IsEngine e r rs u next v free pos lt) refl)
push_as-Submits resume e r rs would_block (some (u, next)) v (free, _, pos, lt) k =
    rw free (back-IsEngine e r rs u next v free pos lt, refl, refl, refl)
push_as-Submits resume e r rs (rejected code) (some (u, next)) v (free, _, pos, lt) k = rw free (
    k
      (complete_request r (os_error code) (record (entered e r rs u next v free pos lt) {
        inflight = remove u (insert u r e.inflight);
      }))
      (refused-IsEngine e r rs u next v free pos lt code) refl)
push_as-Submits resume e r rs p none v f k = absurd f

pub submit-Submits :
    (pushes : ℕ → Push) (k : ℕ) (rs : List ReadRequest) (e : Engine)
    → IsEngine (with_pending rs e)
    → length e.received + 1 < 2 ^ 64
    → Submits e (submit pushes k rs e)
unfolding submit
submit-Submits pushes k [] e v small = (v, refl, refl, refl)
submit-Submits pushes k (r ∷ rs) e v small =
    push_as-Submits (submit pushes (k + 1) rs) e r rs (pushes k)
      (allocate_user_data (length e.inflight + 1) e.next_user_data e.inflight) v
      (allocate_user_data-Found e.next_user_data e.inflight v.next.0 v.next.1 v.keyed
        (omega (arith, v.held)))
      (λ e' v' same.
        submit-Submits pushes (k + 1) rs e' v'
          (subst (λ (l : List ReadRequest). length l + 1 < 2 ^ 64) (sym same) small))
