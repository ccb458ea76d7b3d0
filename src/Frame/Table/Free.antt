-- ===== src/Frame/Table/Free.antt =====
-- The free list of a frame table: each index is queued at most once, and its membership bit says
-- whether it is.
use mathlib.Core.Logic.{if_pos, if_neg}
use tierbuf.Prelude.{
  bit, bit-le, ℕ, ◌+◌, ◌≤◌, ◌<◌, ◌≡◌, ◌≢◌, ◌⊎◌, inl, inr, refl, sym, ap, ◌∙◌, subst, true, false,
  Option, none, some, List, [], ◌∷◌, ◌++◌, arith, length, length-append, In, Distinct, In-append,
  In-append_left, In-append_right, Distinct-snoc, update, sum_to, sum_to-update, sum_to-le,
  ℕ_discrete, Run, done, Bool-cases,
}
use tierbuf.Frame.Queue.{ArrayQueue}
use tierbuf.Frame.Table.{FrameTable, checked_out, pop_free, push_free}

List-cases : (l : List ℕ) → (l ≡ []) ⊎ ((x : ℕ) × (xs : List ℕ) × (l ≡ x ∷ xs))
List-cases [] = inl refl
List-cases (x ∷ xs) = inr (x, xs, refl)

module _ (q : ArrayQueue) {Page : Type 0} where
  abbrev pub queued : FrameTable q Page → List ℕ
  queued t = q.contents t.free

  pub record IsTable (t : FrameTable q Page) : Type 0 where
    pub room : q.capacity t.free ≡ t.frame_count
    pub counted : length (queued t) ≡ sum_to bit t.frame_count t.free_membership
    pub listed : (i : ℕ) → In i (queued t) → (i < t.frame_count) × (t.free_membership i ≡ true)
    pub complete : (i : ℕ) → i < t.frame_count → t.free_membership i ≡ true → In i (queued t)
    pub distinct : Distinct (queued t)

  -- A pop of a table whose queue starts with `x`.
  module _ (t : FrameTable q Page) (inv : IsTable t) (x : ℕ) (xs : List ℕ)
      (front : queued t ≡ x ∷ xs) where
    popped :
        ((q.pop t.free).1 ≡ some x)
        × (q.contents (q.pop t.free).0 ≡ xs)
        × (q.capacity (q.pop t.free).0 ≡ q.capacity t.free)
    popped = q.pop-cons t.free x xs front

    first : (x < t.frame_count) × (t.free_membership x ≡ true)
    first = inv.listed x (subst (In x) (sym front) (inl refl))

    apart : Distinct (x ∷ xs)
    apart = subst Distinct front inv.distinct

    abbrev out : FrameTable q Page
    out = record t { free = (q.pop t.free).0; free_membership = update t.free_membership x false }

    pop-out : pop_free q t ≡ done (out, some x)
    unfolding pop_free checked_out
    pop-out = rw (popped.0, checked_out) (ground (arith, first.0, first.1))

    out_listed :
        (i : ℕ) → In i xs → (i < t.frame_count) × (update t.free_membership x false i ≡ true)
    out_listed i h = elim (ℕ_discrete x i) [
      | yes e ↦ absurd (apart.0 (subst (λ k. In k xs) (sym e) h))
      | no d ↦ rw (if_neg _ d) (inv.listed i (subst (In i) (sym front) (inr h)))
    ]

    out_member : (i : ℕ) → In i (x ∷ xs) → i ≢ x → In i xs
    out_member i (inl e) d = absurd (d e)
    out_member i (inr h) d = h

    out_complete : (i : ℕ) → i < t.frame_count → update t.free_membership x false i ≡ true → In i xs
    out_complete i lt m = elim (ℕ_discrete x i) [
      | yes e ↦ let m' : false ≡ true = rw (if_pos _ e) at m in cc
      | no d ↦
          out_member i (subst (In i) front (inv.complete i lt (rw (if_neg _ d) at m)))
            (λ e. d (sym e))
    ]

    out-IsTable : IsTable out
    out-IsTable = record {
      room = popped.2 ∙ inv.room;
      counted = omega (
        arith,
        ap length popped.1,
        ap length front,
        inv.counted,
        sum_to-update bit t.frame_count t.free_membership x false first.0,
        ap bit first.1,
      );
      listed = λ i h. out_listed i (subst (In i) popped.1 h);
      complete = λ i lt m. subst (In i) (sym popped.1) (out_complete i lt m);
      distinct = rw popped.1 apart.1;
    }

  -- A push of an index that is in range and not queued.
  module _ (t : FrameTable q Page) (inv : IsTable t) (i : ℕ) (lt : i < t.frame_count)
      (absent : t.free_membership i ≡ false) where
    grown :
        sum_to bit t.frame_count (update t.free_membership i true) + bit (t.free_membership i)
        ≡ sum_to bit t.frame_count t.free_membership + 1
    grown = sum_to-update bit t.frame_count t.free_membership i true lt

    roomy : length (queued t) < q.capacity t.free
    roomy = omega (
      arith,
      inv.room,
      inv.counted,
      grown,
      ap bit absent,
      sum_to-le bit bit-le t.frame_count (update t.free_membership i true),
    )

    pushed :
        ((q.push i t.free).1 ≡ true)
        × (q.contents (q.push i t.free).0 ≡ queued t ++ i ∷ [])
        × (q.capacity (q.push i t.free).0 ≡ q.capacity t.free)
    pushed = q.push-room i t.free roomy

    abbrev back : FrameTable q Page
    back = record t {
      free = (q.push i t.free).0;
      free_membership = update t.free_membership i true;
    }

    push-back : push_free q i t ≡ (back, true)
    unfolding push_free
    push-back = ground (arith, pushed.0)

    not_queued : ¬ In i (queued t)
    not_queued h = let m : false ≡ true = sym absent ∙ (inv.listed i h).1 in cc

    back_listed :
        (j : ℕ)
        → In j (queued t ++ i ∷ [])
        → (j < t.frame_count) × (update t.free_membership i true j ≡ true)
    back_listed j h = elim (ℕ_discrete i j) [
      | yes e ↦ (omega arith, rw (if_pos _ e))
      | no d ↦ elim (In-append j (queued t) (i ∷ []) h) [
        | inl old ↦ rw (if_neg _ d) (inv.listed j old)
        | inr (inl e) ↦ absurd (d (sym e))
        | inr (inr h) ↦ absurd h
      ]
    ]

    back_complete :
        (j : ℕ)
        → j < t.frame_count
        → update t.free_membership i true j ≡ true
        → In j (queued t ++ i ∷ [])
    back_complete j ltj m = elim (ℕ_discrete i j) [
      | yes e ↦ In-append_right j (queued t) (i ∷ []) (inl (sym e))
      | no d ↦ In-append_left j (queued t) (i ∷ []) (inv.complete j ltj (rw (if_neg _ d) at m))
    ]

    back-IsTable : IsTable back
    back-IsTable = record {
      room = pushed.2 ∙ inv.room;
      counted = omega (
        arith,
        ap length pushed.1,
        length-append (queued t) (i ∷ []),
        inv.counted,
        grown,
        ap bit absent,
      );
      listed = λ j h. back_listed j (subst (In j) pushed.1 h);
      complete = λ j ltj m. subst (In j) (sym pushed.1) (back_complete j ltj m);
      distinct = rw pushed.1 (Distinct-snoc i (queued t) inv.distinct not_queued);
    }

  -- What a pop may do: nothing if no index is queued, else take the first index off the queue and
  -- clear its membership bit.
  abbrev pub Pops : FrameTable q Page → Run (FrameTable q Page × Option ℕ) → Type 0
  Pops t result =
      ((queued t ≡ [])
        × ((t' : FrameTable q Page) × (result ≡ done (t', none))
            × IsTable t'
            × (queued t' ≡ [])
            × (t'.frames ≡ t.frames)))
      ⊎ ((x : ℕ) × (xs : List ℕ) × (t' : FrameTable q Page) × (queued t ≡ x ∷ xs)
          × (result ≡ done (t', some x))
          × (queued t' ≡ xs)
          × (t'.free_membership x ≡ false)
          × IsTable t'
          × (t'.frames ≡ t.frames))

  -- In a well-formed table a pop never panics, and takes the index that has been queued longest.
  pub pop_free-Pops : (t : FrameTable q Page) → IsTable t → Pops t (pop_free q t)
  unfolding pop_free checked_out
  pop_free-Pops t inv = elim (List-cases (queued t)) [
    | inl e ↦ inl (e, (t, ap (λ r. checked_out q t r.0 r.1) (q.pop-empty t.free e), inv, e, refl))
    | inr (x, xs, e) ↦ inr (
      x,
      xs,
      out t inv x xs e,
      e,
      pop-out t inv x xs e,
      (popped t inv x xs e).1,
      rw (if_pos (ℕ_discrete x x) refl),
      out-IsTable t inv x xs e,
      refl,
    )
  ]

  refuses_beyond :
      (t : FrameTable q Page) (i : ℕ) → t.frame_count ≤ i → push_free q i t ≡ (t, false)
  unfolding push_free
  refuses_beyond t i h = ground arith

  refuses_member :
      (t : FrameTable q Page) (i : ℕ) → t.free_membership i ≡ true → push_free q i t ≡ (t, false)
  unfolding push_free
  refuses_member t i h = ground arith

  -- A push is accepted exactly for an index in range that is not queued, which it queues last; it
  -- refuses any other index and changes nothing; the table stays well-formed.
  pub push_free_lem :
      (t : FrameTable q Page) (i : ℕ)
      → IsTable t
      → ((i < t.frame_count) × ¬ In i (queued t)
          → ((push_free q i t).1 ≡ true)
            × (queued (push_free q i t).0 ≡ queued t ++ i ∷ [])
            × IsTable (push_free q i t).0)
        × ((t.frame_count ≤ i) ⊎ In i (queued t) → push_free q i t ≡ (t, false))
  push_free_lem t i inv = (
    (λ (lt, new). elim (Bool-cases (t.free_membership i)) [
      | inl member ↦ absurd (new (inv.complete i lt member))
      | inr absent ↦
          rw (push-back t inv i lt absent)
            (refl, (pushed t inv i lt absent).1, back-IsTable t inv i lt absent)
    ]),
    (λ refused. elim refused [
      | inl beyond ↦ refuses_beyond t i beyond
      | inr old ↦ refuses_member t i (inv.listed i old).1
    ]),
  )
