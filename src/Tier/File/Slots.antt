-- ===== src/Tier/File/Slots.antt =====
-- The slot metadata of a file tier: each slot below the next is allocated or on the free stack.
use mathlib.Core.Logic.{if_pos, if_neg}
use tierbuf.Prelude.{
  ℕ, ◌+◌, ◌-◌, ◌≤◌, ◌<◌, ◌≡◌, ◌≢◌, refl, sym, ap, ◌∙◌, subst, inl, inr, Bool, true, false,
  Bool-cases, Option, none, some, List, [], ◌∷◌, arith, In, Distinct, update, sum_to, sum_to-update,
  sum_to-ge, sum_to-ones, sum_to-zero, sum_to-lt, bit, ℕ_discrete, dec_lt, ltb, if-cases,
}
use tierbuf.Tier.File.{SlotState, choose_slot, take_slot}

pub record IsSlots (s : SlotState) : Type 0 where
  pub next_le : s.next_slot ≤ s.slot_count
  pub used : s.used_slots ≡ sum_to bit s.slot_count s.allocated
  pub fresh : (i : ℕ) → s.next_slot ≤ i → s.allocated i ≡ false
  pub listed : (i : ℕ) → In i s.free_slots → (i < s.next_slot) × (s.allocated i ≡ false)
  pub complete : (i : ℕ) → i < s.next_slot → s.allocated i ≡ false → In i s.free_slots
  pub distinct : Distinct s.free_slots

-- What a write may be given: no slot, only if every slot is used; else one that is not allocated,
-- and taking it keeps the metadata well-formed.
abbrev pub Chosen : SlotState → Option (ℕ × Option (List ℕ)) → Type 0
Chosen s none = s.used_slots ≡ s.slot_count
Chosen s (some (slot, rest)) =
    (slot < s.slot_count)
    × (s.allocated slot ≡ false)
    × (s.used_slots < s.slot_count)
    × IsSlots (take_slot slot rest s)

pub updated : (f : ℕ → Bool) (i : ℕ) (b : Bool) (j : ℕ) → i ≡ j → update f i b j ≡ b
updated f i b j e = rw (if_pos _ e)

pub kept : (f : ℕ → Bool) (i : ℕ) (b : Bool) (j : ℕ) → i ≢ j → update f i b j ≡ f j
kept f i b j d = rw (if_neg _ d)

-- An index whose mark is still false after `i` was marked is another, and was false before.
unmarked : (f : ℕ → Bool) (i j : ℕ) → update f i true j ≡ false → (i ≢ j) × (f j ≡ false)
unmarked f i j m = elim (ℕ_discrete i j) [
  | yes e ↦ let m' : true ≡ false = sym (updated f i true j e) ∙ m in cc
  | no d ↦ (d, sym (kept f i true j d) ∙ m)
]

-- The metadata by their fields.
abbrev pub slots : (count : ℕ) (allocated : ℕ → Bool) (free : List ℕ) (next used : ℕ) → SlotState
slots count allocated free next used = record {
  slot_count = count;
  allocated = allocated;
  free_slots = free;
  next_slot = next;
  used_slots = used;
}

module _ (count : ℕ) (a : ℕ → Bool) (next used : ℕ) where
  counted :
      (i : ℕ)
      → i < count
      → a i ≡ false
      → used ≡ sum_to bit count a
      → used + 1 ≡ sum_to bit count (update a i true)
  counted i lt e u = omega (arith, u, sum_to-update bit count a i true lt, ap bit e)

  take_fresh :
      (free : List ℕ)
      → IsSlots (slots count a free next used)
      → next < count
      → IsSlots (slots count (update a next true) free (next + 1) (used + 1))
  take_fresh free v lt = record {
    next_le = omega arith;
    used = counted next lt (v.fresh next (omega arith)) v.used;
    fresh = λ i le. kept a next true i (omega arith) ∙ v.fresh i (omega arith);
    listed = λ i h.
        let old = v.listed i h in
        (omega (arith, old.0), kept a next true i (omega (arith, old.0)) ∙ old.1);
    complete = λ i lt' m. let (d, e) = unmarked a next i m in v.complete i (omega (arith, d)) e;
    distinct = v.distinct;
  }

  take_freed :
      (x : ℕ) (free : List ℕ)
      → IsSlots (slots count a (x ∷ free) next used)
      → IsSlots (slots count (update a x true) free next (used + 1))
  take_freed x free v =
      let (below, off) = v.listed x (inl refl) in
      record {
        next_le = v.next_le;
        used = counted x (omega (arith, below, v.next_le)) off v.used;
        fresh = λ i le. kept a x true i (omega (arith, below)) ∙ v.fresh i le;
        listed = λ i h.
            let old = v.listed i (inr h) in
            (old.0, kept a x true i (λ e. v.distinct.0 (subst (λ k. In k free) (sym e) h)) ∙ old.1);
        complete = λ i lt m.
            let (d, e) = unmarked a x i m in
            elim (v.complete i lt e) [ inl same ↦ absurd (d (sym same)) | inr h ↦ h ];
        distinct = v.distinct.1;
      }

  -- Every slot is allocated if no slot was freed and none is left.
  all_used : IsSlots (slots count a [] next used) → ¬ (next < count) → used ≡ count
  all_used v full =
      v.used
      ∙ sum_to-ones bit count a (λ i lt. elim (Bool-cases (a i)) [
        | inl on ↦ ap bit on
        | inr off ↦ absurd (v.complete i (omega arith) off)
      ])

  short : (i : ℕ) → i < count → a i ≡ false → used ≡ sum_to bit count a → used < count
  short i lt e u = omega (arith, u, sum_to-lt count a i lt e)

  choose_of :
      (free : List ℕ)
      → IsSlots (slots count a free next used)
      → Chosen (slots count a free next used) (choose_slot (slots count a free next used))
  unfolding choose_slot take_slot
  choose_of [] v =
      if-cases (Chosen (slots count a [] next used)) (ltb next count) _ _
        (λ e.
          let lt : next < count = ground arith in
          let off = v.fresh next (omega arith) in
          (lt, off, short next lt off v.used, take_fresh [] v lt))
        (λ e. all_used v (ground arith))
  choose_of (x ∷ free) v =
      let (below, off) = v.listed x (inl refl) in
      let lt : x < count = omega (arith, below, v.next_le) in
      (lt, off, short x lt off v.used, take_freed x free v)

  pub released :
      (x : ℕ) (free : List ℕ)
      → IsSlots (slots count a free next used)
      → a x ≡ true
      → (0 < used) × IsSlots (slots count (update a x false) (x ∷ free) next (used - 1))
  released x free v on =
      let below : x < next = elim (dec_lt x next) [
        | yes lt ↦ lt
        | no ge ↦ let m : true ≡ false = sym on ∙ v.fresh x (omega arith) in cc
      ] in
      let lt : x < count = omega (arith, v.next_le) in
      (
        omega (arith, v.used, sum_to-ge bit count a x lt, ap bit on),
        record {
          next_le = v.next_le;
          used = omega (
            arith,
            v.used,
            sum_to-update bit count a x false lt,
            sum_to-ge bit count a x lt,
            ap bit on,
          );
          fresh = λ i le. kept a x false i (omega arith) ∙ v.fresh i le;
          listed = λ i h. elim h [
            | inl e ↦ (omega arith, updated a x false i (sym e))
            | inr h ↦
                let old = v.listed i h in
                (
                  old.0,
                  (elim (ℕ_discrete x i) [
                    | yes e ↦ updated a x false i e
                    | no d ↦ kept a x false i d ∙ old.1
                  ]),
                )
          ];
          complete = λ i lt m. elim (ℕ_discrete x i) [
            | yes e ↦ inl (sym e)
            | no d ↦ inr (v.complete i lt (sym (kept a x false i d) ∙ m))
          ];
          distinct = ((λ h. let m : true ≡ false = sym on ∙ (v.listed x h).1 in cc), v.distinct);
        },
      )

-- In well-formed metadata the choice of a slot fails exactly if every slot is used, and else gives a
-- slot that is not allocated, and taking it keeps the metadata well-formed.
pub choose_slot-Chosen : (s : SlotState) → IsSlots s → Chosen s (choose_slot s)
choose_slot-Chosen s v = choose_of s.slot_count s.allocated s.next_slot s.used_slots s.free_slots v

pub new-IsSlots : (count : ℕ) → IsSlots (slots count (λ _. false) [] 0 0)
new-IsSlots count = record {
  next_le = omega arith;
  used = sym (sum_to-zero bit count (λ _. false) (λ _. refl));
  fresh = λ _ _. refl;
  listed = λ i h. absurd h;
  complete = λ i lt _. absurd (omega arith);
  distinct = tt;
}
