-- ===== src/Cooling/Fifo.antt =====
-- The cooling queue is first in, first out, and holds a ticket at most once.
use mathlib.Core.List.{append_assoc}
use tierbuf.Prelude.{
  ◌≡◌, ◌↔◌, refl, sym, ap, ◌∙◌, subst, ◌⊎◌, inl, inr, true, false, Option, none, some, List, [],
  ◌∷◌, ◌++◌, arith, In, Distinct, Distinct-snoc, In-append, In-append_left, In-append_right,
  Bool-cases, if◌then◌else◌, length, length-append, ◌≤◌, ◌+◌,
}
use tierbuf.Cooling.{CoolingTicket, ticket_eq, contains, push_unique, pop}

pub ticket_eq_iff : (a b : CoolingTicket) → (ticket_eq a b ≡ true) ↔ (a ≡ b)
unfolding ticket_eq
ticket_eq_iff a b = (ground arith, ground arith)

contains-In : (t : CoolingTicket) (l : List CoolingTicket) → contains t l ≡ true → In t l
unfolding contains
contains-In t [] h = cc
contains-In t (u ∷ us) h = elim (Bool-cases (ticket_eq u t)) [
  | inl e ↦ inl (sym ((ticket_eq_iff u t).0 e))
  | inr d ↦ inr (contains-In t us (ground arith))
]

In-contains : (t : CoolingTicket) (l : List CoolingTicket) → In t l → contains t l ≡ true
unfolding contains
In-contains t (u ∷ us) (inl e) = rw ((ticket_eq_iff u t).1 (sym e))
In-contains t (u ∷ us) (inr h) = ground (arith, In-contains t us h)
In-contains t [] h = elim h [ ]

push_unique_old :
    (t : CoolingTicket) (l : List CoolingTicket) → contains t l ≡ true → push_unique t l ≡ l
unfolding push_unique
push_unique_old t l h = rw h

push_unique_new :
    (t : CoolingTicket) (l : List CoolingTicket)
    → contains t l ≡ false
    → push_unique t l ≡ l ++ t ∷ []
unfolding push_unique
push_unique_new t l h = rw h

not-In : (t : CoolingTicket) (l : List CoolingTicket) → contains t l ≡ false → ¬ In t l
not-In t l n h = let e : false ≡ true = sym n ∙ In-contains t l h in cc

In-snoc : (t u : CoolingTicket) (l : List CoolingTicket) → In u (l ++ t ∷ []) ↔ (In u l ⊎ (u ≡ t))
In-snoc t u l = (
  (λ h. elim (In-append u l (t ∷ []) h) [
    | inl old ↦ inl old
    | inr (inl e) ↦ inr e
    | inr (inr h) ↦ absurd h
  ]),
  (λ h. elim h [
    | inl old ↦ In-append_left u l (t ∷ []) old
    | inr e ↦ In-append_right u l (t ∷ []) (inl e)
  ]),
)

-- A push leaves a queue that holds the ticket alone, and else appends the ticket; either way it
-- keeps the entries distinct, and the queue then holds the ticket and what it held before.
pub push_unique_lem :
    (t : CoolingTicket) (l : List CoolingTicket)
    → Distinct l
    → Distinct (push_unique t l)
      × ((u : CoolingTicket) → In u (push_unique t l) ↔ (In u l ⊎ (u ≡ t)))
      × (In t l → push_unique t l ≡ l)
      × (¬ In t l → push_unique t l ≡ l ++ t ∷ [])
push_unique_lem t l d = elim (Bool-cases (contains t l)) [
  | inl e ↦
      let here = contains-In t l e in
      rw (push_unique_old t l e) (
        d,
        (λ u. (
          (λ h. inl h),
          (λ h. elim h [ inl old ↦ old | inr same ↦ subst (λ v. In v l) (sym same) here ]),
        )),
        (λ _. refl),
        (λ n. absurd (n here)),
      )
  | inr n ↦ rw (push_unique_new t l n) (
    Distinct-snoc t l d (not-In t l n),
    (λ u. In-snoc t u l),
    (λ h. absurd (not-In t l n h)),
    (λ _. refl),
  )
]

-- A call of the queue.
pub data Call : Type 0 where
  push : CoolingTicket → Call
  take : Call

-- The queue after some calls, the tickets that were queued by them, and those that were taken.
pub record Served : Type 0 where
  pub entries : List CoolingTicket
  pub accepted : List CoolingTicket
  pub taken : List CoolingTicket

abbrev taken_one : Served → List CoolingTicket × Option CoolingTicket → Served
taken_one s (rest, none) = record s { entries = rest }
taken_one s (rest, some t) = record s { entries = rest; taken = s.taken ++ t ∷ [] }

unfoldable pub call : Call → Served → Served
call (push t) s = record s {
  entries = push_unique t s.entries;
  accepted = if contains t s.entries then s.accepted else (s.accepted ++ t ∷ []);
}
call take s = taken_one s (pop s.entries)

unfoldable pub calls : List Call → Served → Served
calls [] s = s
calls (c ∷ cs) s = calls cs (call c s)

-- The tickets leave in the order in which they were accepted, and no ticket is queued twice.
pub record IsFifo (s : Served) : Type 0 where
  pub order : s.accepted ≡ s.taken ++ s.entries
  pub once : Distinct s.entries

push_order :
    (t : CoolingTicket) (s : Served)
    → s.accepted ≡ s.taken ++ s.entries
    → (call (push t) s).accepted ≡ s.taken ++ push_unique t s.entries
unfolding call
push_order t s e = elim (Bool-cases (contains t s.entries)) [
  | inl old ↦ rw (old, push_unique_old t s.entries old) e
  | inr new ↦
      rw (new, push_unique_new t s.entries new)
        (ap (λ l. l ++ t ∷ []) e ∙ append_assoc s.taken s.entries (t ∷ []))
]

take-IsFifo :
    (taken accepted entries : List CoolingTicket)
    → accepted ≡ taken ++ entries
    → Distinct entries
    → IsFifo (call take (record { entries = entries; accepted = accepted; taken = taken }))
unfolding call pop
take-IsFifo taken accepted [] e d = record { order = e; once = d }
take-IsFifo taken accepted (t ∷ ts) e d = record {
  order = e ∙ sym (append_assoc taken (t ∷ []) ts);
  once = d.1;
}

call-IsFifo : (c : Call) (s : Served) → IsFifo s → IsFifo (call c s)
unfolding call
call-IsFifo (push t) s f = record {
  order = push_order t s f.order;
  once = (push_unique_lem t s.entries f.once).0;
}
call-IsFifo take s f = take-IsFifo s.taken s.accepted s.entries f.order f.once

-- From any first-in first-out history, over any calls, the tickets that were accepted are those taken, in the order
-- of acceptance, followed by those still queued, and no ticket is queued twice.
pub calls-IsFifo : (cs : List Call) (s : Served) → IsFifo s → IsFifo (calls cs s)
unfolding calls
calls-IsFifo [] s f = f
calls-IsFifo (c ∷ cs) s f = calls-IsFifo cs (call c s) (call-IsFifo c s f)

-- A push leaves its ticket in the queue, which grows by at most one.
pub push_unique-In : (t : CoolingTicket) (l : List CoolingTicket) → In t (push_unique t l)
push_unique-In t l = elim (Bool-cases (contains t l)) [
  | inl e ↦ rw (push_unique_old t l e) (contains-In t l e)
  | inr n ↦ rw (push_unique_new t l n) (In-append_right t l (t ∷ []) (inl refl))
]

pub push_unique-grows :
    (t : CoolingTicket) (l : List CoolingTicket) → length (push_unique t l) ≤ length l + 1
push_unique-grows t l = elim (Bool-cases (contains t l)) [
  | inl e ↦ rw (push_unique_old t l e) (omega arith)
  | inr n ↦ rw (push_unique_new t l n) (omega (arith, length-append l (t ∷ [])))
]
