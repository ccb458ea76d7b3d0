-- ===== src/Tier/File/Writes.antt =====
-- The write call of a file tier, on every branch.
use tierbuf.Prelude.{
  ℕ, ◌+◌, ◌*◌, ◌^◌, ◌≤◌, ◌<◌, ◌≡◌, ◌≢◌, ◌↔◌, refl, sym, ap, ◌∙◌, true, false, not, Option, none,
  some, List, All, arith, leb, ◌==◌, if-cases,
}
use tierbuf.Tier.Disk.{invalid_input, storage_full, IoResult, ok, err, Syscall, Buffer}
use tierbuf.Tier.Disk.Transfers.{Wrote}
use tierbuf.Tier.Disk.Progress.{IsHealthy, moves, Succeeds, write_all_at-Succeeds}
use tierbuf.Tier.File.{
  page_size, FileTier, zeroed_page, write_page, choose_slot, written, write_slot, write, used_bytes,
}
use tierbuf.Tier.File.Slots.{Chosen, choose_slot-Chosen}
use tierbuf.Tier.File.Pages.{
  IsTier, Holds, Keeps, write_page-Wrote, stored, touched-Keeps, count-take, used-take,
  stored-Keeps, stored-Holds,
}

-- What a write may do. If it fails, the slots and every page are what they were. If it succeeds, it
-- stored the page in a slot that held none, uses one page more, and every other page is what it was.
abbrev pub Writes : FileTier → Buffer → Option (FileTier × IoResult ℕ) → Type 0
Writes t b none = Unit
Writes t b (some (t', err _)) =
    IsTier t' × (t'.state ≡ t.state) × ((j : ℕ) (page : ℕ → ℕ) → Holds t j page ↔ Holds t' j page)
Writes t b (some (t', ok location)) =
    (slot : ℕ) × (location ≡ slot * page_size)
    × (t.state.allocated slot ≡ false)
    × IsTier t'
    × Holds t' slot b.byte
    × (used_bytes t' ≡ used_bytes t + page_size)
    × Keeps slot t t'
    × Keeps slot t' t

module _ (t : FileTier) (v : IsTier t) (b : Buffer) where
  unchanged : Writes t b (some (t, err invalid_input))
  unchanged = (v, refl, (λ j page. ((λ h. h), (λ h. h))))

  unchanged_full : Writes t b (some (t, err storage_full))
  unchanged_full = unchanged

  module _ (e : b.size ≡ page_size) (slot : ℕ) (rest : Option (List ℕ))
      (c : Chosen t.state (some (slot, rest))) where
    apart : (j : ℕ) (page : ℕ → ℕ) → Holds t j page → j ≢ slot
    apart j page h same = let m : true ≡ false = sym h.on ∙ (ap t.state.allocated same ∙ c.1) in cc

    written-Writes :
        (r : Option ((ℕ → ℕ) × IoResult (Unit {0})))
        → Wrote b (slot * page_size) t.file r
        → Writes t b (written t slot rest r)
    unfolding written used_bytes
    written-Writes none w = tt
    written-Writes (some (file, err kind)) w =
        let (there, back) = touched-Keeps t slot b file 0 e w in
        (
          record { sized = v.sized; fits = v.fits; slots = v.slots },
          refl,
          (λ j page. (
            (λ h. there j page (apart j page h) h),
            (λ h.
                back j page
                  (λ same.
                    let m : true ≡ false = sym h.on ∙ (ap t.state.allocated same ∙ c.1) in cc)
                  h),
          )),
        )
    written-Writes (some (file, ok _)) w =
        let (there, back) = stored-Keeps t slot b file rest e w in
        (
          slot,
          refl,
          c.1,
          record {
            sized = omega (arith, v.sized, count-take t slot rest t.state);
            fits = v.fits;
            slots = c.3;
          },
          stored-Holds t slot b file rest e c.0 w,
          omega (arith, used-take t slot rest t.state),
          there,
          back,
        )

    in_range : leb (2 ^ 64) (slot * page_size) ≡ false
    in_range = ground (arith, v.sized, v.fits, c.0)

  write_slot-Writes :
      b.size ≡ page_size
      → (calls : List Syscall) (o : Option (ℕ × Option (List ℕ))) → Chosen t.state o
      → Writes t b (write_slot calls t b o)
  unfolding write_slot
  write_slot-Writes e calls none c = unchanged_full
  write_slot-Writes e calls (some (slot, rest)) c =
      rw (in_range e slot rest c)
        (written-Writes e slot rest c _ (write_page-Wrote t slot calls b e))

-- A write on a well-formed tier, whatever its system calls do: if it fails, the slots and every
-- page are what they were; if it succeeds, it stored the page in a slot that held none, at that
-- slot's location, uses one page more, and keeps every other page.
pub write-Writes :
    (calls : List Syscall) (t : FileTier) (b : Buffer) → IsTier t → Writes t b (write calls t b)
unfolding write
write-Writes calls t b v =
    if-cases (Writes t b) (not (b.size == page_size)) _ _ (λ _. unchanged t v b)
      (λ e.
        write_slot-Writes t v b (ground arith) calls (choose_slot t.state)
          (choose_slot-Chosen t.state v.slots))

module _ (t : FileTier) (v : IsTier t) (b : Buffer) (e : b.size ≡ page_size) where
  module _ (calls : List Syscall) where
    write_page-Succeeds :
        (slot : ℕ)
        → slot < t.state.slot_count
        → All IsHealthy calls
        → page_size ≤ moves calls
        → Succeeds (write_page calls t (slot * page_size) b)
    unfolding write_page
    write_page-Succeeds slot lt well enough =
        if-cases Succeeds t.direct_io_active _ _
          (λ _.
            write_all_at-Succeeds calls (record zeroed_page { byte = b.byte }) (slot * page_size)
              t.file (omega (arith, v.sized, v.fits)) well enough)
          (λ _.
            write_all_at-Succeeds calls b (slot * page_size) t.file (omega (arith, v.sized, v.fits))
              well (omega arith))

    write_slot_full :
        (o : Option (ℕ × Option (List ℕ)))
        → Chosen t.state o
        → t.state.used_slots ≡ t.state.slot_count
        → write_slot calls t b o ≡ some (t, err storage_full)
    unfolding write_slot
    write_slot_full none c full = refl
    write_slot_full (some (slot, rest)) c full = absurd (omega (arith, c.2))

    write_slot_room :
        (o : Option (ℕ × Option (List ℕ)))
        → Chosen t.state o
        → t.state.used_slots < t.state.slot_count
        → All IsHealthy calls
        → page_size ≤ moves calls
        → (t' : FileTier) × (location : ℕ) × (write_slot calls t b o ≡ some (t', ok location))
    unfolding write_slot written
    write_slot_room none c room well enough = absurd (omega (arith, c))
    write_slot_room (some (slot, rest)) c room well enough =
        let (file, wrote) = write_page-Succeeds slot c.0 well enough in
        (stored t slot file rest, slot * page_size, rw (in_range t v b e slot rest c, wrote) refl)

write_of :
    (calls : List Syscall) (t : FileTier) (b : Buffer)
    → b.size ≡ page_size
    → write calls t b ≡ write_slot calls t b (choose_slot t.state)
unfolding write
write_of calls t b e = ground arith

-- A write of a page to a well-formed tier fails with StorageFull if every slot is used. If one is
-- not, and the system calls move enough, it returns a location.
pub write_room :
    (calls : List Syscall) (t : FileTier) (b : Buffer)
    → IsTier t
    → b.size ≡ page_size
    → (t.state.used_slots ≡ t.state.slot_count → write calls t b ≡ some (t, err storage_full))
      × (t.state.used_slots < t.state.slot_count
          → All IsHealthy calls
          → page_size ≤ moves calls
          → (t' : FileTier) × (location : ℕ) × (write calls t b ≡ some (t', ok location)))
write_room calls t b v e = rw (write_of calls t b e) (
  write_slot_full t v b e calls (choose_slot t.state) (choose_slot-Chosen t.state v.slots),
  write_slot_room t v b e calls (choose_slot t.state) (choose_slot-Chosen t.state v.slots),
)
