-- ===== src/Tier/File/Pages.antt =====
-- What a file tier stores: pages by location, over all branches of its calls.
use tierbuf.Prelude.{
  ℕ, ◌+◌, ◌*◌, ◌/◌, ◌%◌, ◌^◌, ◌<◌, ◌≡◌, ◌≢◌, refl, sym, ap, ◌∙◌, subst, ◌⊎◌, Bool, true, false,
  Option, none, some, List, [], arith, update, dec_lt, if-cases,
}
use tierbuf.Tier.Disk.{invalid_input, ok, err, Syscall, Buffer, write_all_at}
use tierbuf.Tier.Disk.Transfers.{IsWritten, Wrote, write_all_at-Wrote}
use tierbuf.Tier.File.{
  page_size, SlotState, FileTier, zeroed_page, is_valid_capacity, open_tier, write_page, take_slot,
  used_bytes,
}
use tierbuf.Tier.File.Slots.{IsSlots, new-IsSlots, slots, updated, kept}

pub record IsTier (t : FileTier) : Type 0 where
  pub sized : t.capacity_bytes ≡ t.state.slot_count * page_size
  pub fits : t.capacity_bytes < 2 ^ 64
  pub slots : IsSlots t.state

-- The slot holds the page.
pub record Holds (t : FileTier) (slot : ℕ) (page : ℕ → ℕ) : Type 0 where
  pub inside : slot < t.state.slot_count
  pub on : t.state.allocated slot ≡ true
  pub bytes : (i : ℕ) → i < page_size → t.file (slot * page_size + i) ≡ page i

-- Every page of `t` but the one of `slot` is a page of `t'` too.
abbrev pub Keeps : (slot : ℕ) → FileTier → FileTier → Type 0
Keeps slot t t' = (j : ℕ) (page : ℕ → ℕ) → j ≢ slot → Holds t j page → Holds t' j page

-- A tier opened with a valid capacity is well-formed and empty; any other capacity is refused.
pub open_tier_lem :
    (file : ℕ → ℕ) (capacity : ℕ) (direct : Bool)
    → capacity < 2 ^ 64
    → ((0 < capacity) × (capacity % page_size ≡ 0)
        → (t : FileTier) × (open_tier file capacity direct ≡ ok t) × IsTier t × (used_bytes t ≡ 0))
      × ((capacity ≡ 0) ⊎ (capacity % page_size ≢ 0)
          → open_tier file capacity direct ≡ err invalid_input)
unfolding open_tier is_valid_capacity used_bytes
open_tier_lem file capacity direct lt = (
  (λ h.
      let t : FileTier = record {
        file = file;
        capacity_bytes = capacity;
        direct_io_active = direct;
        state = slots (capacity / page_size) (λ _. false) [] 0 0;
      } in
      (
        t,
        ground arith,
        record { sized = omega arith; fits = lt; slots = new-IsSlots (capacity / page_size) },
        refl,
      )),
  (λ h. ground arith),
)

module _ (t : FileTier) (slot : ℕ) where
  pub write_page-Wrote :
      (calls : List Syscall) (b : Buffer)
      → b.size ≡ page_size
      → Wrote b (slot * page_size) t.file (write_page calls t (slot * page_size) b)
  unfolding write_page
  write_page-Wrote calls b e =
      if-cases (Wrote b (slot * page_size) t.file) t.direct_io_active _ _
        (λ _.
          subst
            (λ (n : ℕ).
              Wrote (record { size = n; byte = b.byte }) (slot * page_size) t.file
                (write_all_at calls (record zeroed_page { byte = b.byte }) (slot * page_size) 0
                  t.file))
            (sym e)
            (write_all_at-Wrote calls (record zeroed_page { byte = b.byte }) (slot * page_size)
              t.file))
        (λ _. write_all_at-Wrote calls b (slot * page_size) t.file)

  -- A slot of another index has its bytes outside the range of the page.
  outside :
      (b : Buffer) (file : ℕ → ℕ) (w : ℕ) (j i : ℕ)
      → b.size ≡ page_size
      → IsWritten b (slot * page_size) t.file w file
      → j ≢ slot
      → i < page_size
      → file (j * page_size + i) ≡ t.file (j * page_size + i)
  outside b file w j i e h d lt = elim (dec_lt j slot) [
    | yes less ↦ h.below (j * page_size + i) (omega arith)
    | no more ↦ h.above (j * page_size + i) (omega (arith, d))
  ]

  -- The tier after a transfer that failed.
  abbrev pub touched : (ℕ → ℕ) → FileTier
  touched file = record t { file = file }

  -- The tier after a transfer that succeeded.
  abbrev pub stored : (ℕ → ℕ) → Option (List ℕ) → FileTier
  stored file rest = record t { file = file; state = take_slot slot rest t.state }

  pub touched-Keeps :
      (b : Buffer) (file : ℕ → ℕ) (w : ℕ)
      → b.size ≡ page_size
      → IsWritten b (slot * page_size) t.file w file
      → Keeps slot t (touched file) × Keeps slot (touched file) t
  touched-Keeps b file w e h = (
    (λ j page d held. record {
      inside = held.inside;
      on = held.on;
      bytes = λ i lt. outside b file w j i e h d lt ∙ held.bytes i lt;
    }),
    (λ j page d held. record {
      inside = held.inside;
      on = held.on;
      bytes = λ i lt. sym (outside b file w j i e h d lt) ∙ held.bytes i lt;
    }),
  )

  pub allocated-take :
      (rest : Option (List ℕ)) (s : SlotState)
      → (take_slot slot rest s).allocated ≡ update s.allocated slot true
  unfolding take_slot
  allocated-take none s = refl
  allocated-take (some rest) s = refl

  pub count-take :
      (rest : Option (List ℕ)) (s : SlotState) → (take_slot slot rest s).slot_count ≡ s.slot_count
  unfolding take_slot
  count-take none s = refl
  count-take (some rest) s = refl

  pub used-take :
      (rest : Option (List ℕ)) (s : SlotState)
      → (take_slot slot rest s).used_slots ≡ s.used_slots + 1
  unfolding take_slot
  used-take none s = refl
  used-take (some rest) s = refl

  mark_other :
      (rest : Option (List ℕ)) (j : ℕ)
      → j ≢ slot
      → (take_slot slot rest t.state).allocated j ≡ t.state.allocated j
  mark_other rest j d =
      ap (λ f. f j) (allocated-take rest t.state)
      ∙ kept t.state.allocated slot true j (λ e. d (sym e))

  pub stored-Keeps :
      (b : Buffer) (file : ℕ → ℕ) (rest : Option (List ℕ))
      → b.size ≡ page_size
      → IsWritten b (slot * page_size) t.file b.size file
      → Keeps slot t (stored file rest) × Keeps slot (stored file rest) t
  stored-Keeps b file rest e h = (
    (λ j page d held. record {
      inside = omega (arith, held.inside, count-take rest t.state);
      on = mark_other rest j d ∙ held.on;
      bytes = λ i lt. outside b file b.size j i e h d lt ∙ held.bytes i lt;
    }),
    (λ j page d held. record {
      inside = omega (arith, held.inside, count-take rest t.state);
      on = sym (mark_other rest j d) ∙ held.on;
      bytes = λ i lt. sym (outside b file b.size j i e h d lt) ∙ held.bytes i lt;
    }),
  )

  pub stored-Holds :
      (b : Buffer) (file : ℕ → ℕ) (rest : Option (List ℕ))
      → b.size ≡ page_size
      → slot < t.state.slot_count
      → IsWritten b (slot * page_size) t.file b.size file
      → Holds (stored file rest) slot b.byte
  stored-Holds b file rest e lt h = record {
    inside = omega (arith, lt, count-take rest t.state);
    on =
        ap (λ f. f slot) (allocated-take rest t.state)
        ∙ updated t.state.allocated slot true slot refl;
    bytes = λ i less. h.stored i (omega arith);
  }
