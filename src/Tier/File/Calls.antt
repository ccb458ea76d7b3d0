-- ===== src/Tier/File/Calls.antt =====
-- The free call of a file tier, on every branch.
use tierbuf.Prelude.{
  ℕ, ◌+◌, ◌-◌, ◌*◌, ◌%◌, ◌≤◌, ◌<◌, ◌≡◌, ◌≢◌, refl, sym, ◌∙◌, ◌⊎◌, Bool, true, false, ◌∷◌, arith,
  update,
}
use tierbuf.Tier.Disk.{invalid_input, ok, err}
use tierbuf.Tier.File.{page_size, FileTier, slot_for_location, free_slot, free, used_bytes}
use tierbuf.Tier.File.Slots.{released, updated, kept}
use tierbuf.Tier.File.Pages.{IsTier, Keeps}

-- A location that names no slot: not aligned, or beyond the capacity.
abbrev pub IsOutside : FileTier → ℕ → Type 0
IsOutside t location = (location % page_size ≢ 0) ⊎ (t.capacity_bytes ≤ location)

pub slot_of_slot :
    (t : FileTier) (slot : ℕ)
    → IsTier t
    → slot < t.state.slot_count
    → slot_for_location t (slot * page_size) ≡ ok slot
unfolding slot_for_location
slot_of_slot t slot v lt = ground (arith, v.sized)

pub slot_outside :
    (t : FileTier) (location : ℕ)
    → IsOutside t location
    → slot_for_location t location ≡ err invalid_input
unfolding slot_for_location
slot_outside t location h = ground arith

module _ (t : FileTier) (v : IsTier t) (slot : ℕ) (inside : slot < t.state.slot_count) where
  free_on :
      t.state.allocated slot ≡ true
      → free (slot * page_size) t ≡ record t {
        state = record t.state {
          allocated = update t.state.allocated slot false;
          free_slots = slot ∷ t.state.free_slots;
          used_slots = t.state.used_slots - 1;
        };
      }
  unfolding free free_slot
  free_on on = rw (slot_of_slot t slot v inside, on) refl

  free_off : t.state.allocated slot ≡ false → free (slot * page_size) t ≡ t
  unfolding free free_slot
  free_off off = rw (slot_of_slot t slot v inside, off) refl

free_outside : (t : FileTier) (location : ℕ) → IsOutside t location → free location t ≡ t
unfolding free free_slot
free_outside t location h = rw (slot_outside t location h) refl

other_mark : (f : ℕ → Bool) (i j : ℕ) → j ≢ i → update f i false j ≡ f j
other_mark f i j d = kept f i false j (λ e. d (sym e))

-- Freeing the location of an allocated slot of a well-formed tier releases that slot and its page's
-- share of the used bytes, and keeps every other page; freeing any other location changes nothing.
free_lem :
    (t : FileTier)
    → IsTier t
    → ((slot : ℕ)
        → slot < t.state.slot_count
        → t.state.allocated slot ≡ true
        → (t' : FileTier) × (free (slot * page_size) t ≡ t')
          × IsTier t'
          × (t'.state.allocated slot ≡ false)
          × (used_bytes t' + page_size ≡ used_bytes t)
          × Keeps slot t t'
          × Keeps slot t' t)
      × ((slot : ℕ)
          → slot < t.state.slot_count
          → t.state.allocated slot ≡ false
          → free (slot * page_size) t ≡ t)
      × ((location : ℕ) → IsOutside t location → free location t ≡ t)
unfolding used_bytes
free_lem t v = (
  (λ slot inside on.
      let (pos, well) =
        released t.state.slot_count t.state.allocated t.state.next_slot t.state.used_slots slot
          t.state.free_slots v.slots on in
      (
        _,
        free_on t v slot inside on,
        record { sized = v.sized; fits = v.fits; slots = well },
        updated t.state.allocated slot false slot refl,
        omega arith,
        (λ j page d h. record {
          inside = h.inside;
          on = other_mark t.state.allocated slot j d ∙ h.on;
          bytes = h.bytes;
        }),
        (λ j page d h. record {
          inside = h.inside;
          on = sym (other_mark t.state.allocated slot j d) ∙ h.on;
          bytes = h.bytes;
        }),
      )),
  (λ slot inside off. free_off t v slot inside off),
  (λ location h. free_outside t location h),
)
