-- ===== src/Frame/Table/Start.antt =====
-- A new frame table queues every index once, in order.
use mathlib.Core.List.{append_assoc, append-nil}
use tierbuf.Prelude.{
  bit, ℕ, zero, suc, ◌+◌, ◌≤◌, ◌<◌, ◌≡◌, refl, sym, ap, ◌∙◌, subst, true, inl, inr, List, [], ◌∷◌,
  ◌++◌, arith, length, length-append, In, Distinct, sum_to-ones, ℕ_discrete, done,
}
use tierbuf.Frame.{new_frame}
use tierbuf.Frame.Queue.{ArrayQueue}
use tierbuf.Frame.Table.{FrameTable, fill, new_table}
use tierbuf.Frame.Table.Free.{IsTable, queued}

-- `first`, `first + 1`, …, `n` of them.
abbrev pub indices : (first n : ℕ) → List ℕ
indices first zero = []
indices first (suc n) = first ∷ indices (first + 1) n

length-indices : (first n : ℕ) → length (indices first n) ≡ n
length-indices first zero = refl
length-indices first (suc n) = ap suc (length-indices (first + 1) n)

In-indices : (i first n : ℕ) → In i (indices first n) → (first ≤ i) × (i < first + n)
In-indices i first (suc n) (inl e) = omega arith
In-indices i first (suc n) (inr h) = omega (arith, In-indices i (first + 1) n h)
In-indices i first zero h = elim h [ ]

indices-In : (i first n : ℕ) → first ≤ i → i < first + n → In i (indices first n)
indices-In i first zero lo hi = absurd (omega arith)
indices-In i first (suc n) lo hi = elim (ℕ_discrete i first) [
  | yes e ↦ inl e
  | no d ↦ inr (indices-In i (first + 1) n (omega arith) (omega arith))
]

Distinct-indices : (first n : ℕ) → Distinct (indices first n)
Distinct-indices first zero = tt
Distinct-indices first (suc n) = (
  (λ h. absurd (omega (arith, In-indices first (first + 1) n h))),
  Distinct-indices (first + 1) n,
)

module _ (q : ArrayQueue) where
  fill_lem :
      (n first : ℕ) (free : q.Queue)
      → length (q.contents free) + n ≤ q.capacity free
      → (r : q.Queue) × (fill q n first free ≡ done r)
        × (q.contents r ≡ q.contents free ++ indices first n)
        × (q.capacity r ≡ q.capacity free)
  unfolding fill
  fill_lem zero first free room = (free, refl, sym (append-nil (q.contents free)), refl)
  fill_lem (suc n) first free room =
      let free' = (q.push first free).0 in
      let (ok, holds, cap) = q.push-room first free (omega arith) in
      let (r, runs, contents, capacity) =
        fill_lem n (first + 1) free'
          (omega (arith, cap, ap length holds, length-append (q.contents free) (first ∷ []))) in
      (
        r,
        rw ok runs,
        contents
            ∙ ap (λ l. l ++ indices (first + 1) n) holds
            ∙ append_assoc (q.contents free) (first ∷ []) (indices (first + 1) n),
        capacity ∙ cap,
      )

  -- The constructor does not panic, and its table is well-formed, with every index queued in order.
  pub new_table-IsTable :
      {Page : Type 0} (n : ℕ) (zeroed : Page)
      → (t : FrameTable q Page) × (new_table q n zeroed ≡ done t)
        × IsTable q t
        × (t.frame_count ≡ n)
        × (queued q t ≡ indices 0 n)
  unfolding new_table
  new_table-IsTable {Page} n zeroed =
      let (free, runs, holds, capacity) =
        fill_lem n 0 (q.new n) (omega (arith, ap length (q.contents-new n), q.capacity-new n)) in
      let order : q.contents free ≡ indices 0 n =
        holds ∙ ap (λ l. l ++ indices 0 n) (q.contents-new n) in
      let t : FrameTable q Page = record {
        frame_count = n;
        frames = λ _. new_frame;
        page = λ _. zeroed;
        free = free;
        free_membership = λ _. true;
      } in
      (
        t,
        rw runs,
        record {
          room = capacity ∙ q.capacity-new n;
          counted =
              ap length order
              ∙ length-indices 0 n
              ∙ sym (sum_to-ones bit n (λ _. true) (λ _ _. refl));
          listed = λ i h. (omega (arith, In-indices i 0 n (subst (In i) order h)), refl);
          complete =
              λ i lt m. subst (In i) (sym order) (indices-In i 0 n (omega arith) (omega arith));
          distinct = rw order (Distinct-indices 0 n);
        },
        refl,
        order,
      )
