-- ===== src/Tier/File/Reads.antt =====
-- The read call of a file tier, on every branch, and reads after writes.
use tierbuf.Prelude.{
  ℕ, ◌+◌, ◌*◌, ◌^◌, ◌≤◌, ◌<◌, ◌≡◌, ◌≢◌, refl, ap, ◌∙◌, subst, true, false, Option, none, some, List,
  All, arith, if-cases,
}
use tierbuf.Tier.Disk.{invalid_input, not_found, IoResult, ok, err, Syscall, Buffer, read_exact_at}
use tierbuf.Tier.Disk.Transfers.{Read, read_exact_at-Read}
use tierbuf.Tier.Disk.Progress.{IsHealthy, moves, Succeeds, read_exact_at-Succeeds}
use tierbuf.Tier.File.{
  page_size, FileTier, zeroed_page, slot_for_location, copied_back, read_page, read_slot, read,
  write,
}
use tierbuf.Tier.File.Pages.{IsTier, Holds}
use tierbuf.Tier.File.Writes.{Writes, write-Writes}
use tierbuf.Tier.File.Calls.{IsOutside, slot_of_slot, slot_outside}

-- A read that returns hands out the page of the location, or an error.
abbrev pub Reads : (page : ℕ → ℕ) → Option (Buffer × IoResult (Unit {0})) → Type 0
Reads page none = Unit
Reads page (some (b, ok _)) = (b.size ≡ page_size) × ((i : ℕ) → i < page_size → b.byte i ≡ page i)
Reads page (some (b, err _)) = b.size ≡ page_size

module _ (t : FileTier) (b : Buffer) (e : b.size ≡ page_size) where
  module _ (slot : ℕ) (page : ℕ → ℕ) (h : Holds t slot page) where
    direct-Reads :
        (r : Option (Buffer × IoResult (Unit {0})))
        → Read t.file (slot * page_size) page_size r
        → Reads page (copied_back b r)
    unfolding copied_back
    direct-Reads none w = tt
    direct-Reads (some (aligned, ok _)) w = (e, λ i lt. w.0 i lt ∙ h.bytes i lt)
    direct-Reads (some (aligned, err _)) w = e

    buffered-Reads :
        (r : Option (Buffer × IoResult (Unit {0})))
        → Read t.file (slot * page_size) page_size r
        → Reads page r
    buffered-Reads none w = tt
    buffered-Reads (some (b', ok _)) w = (w.1, λ i lt. w.0 i lt ∙ h.bytes i lt)
    buffered-Reads (some (b', err _)) w = w

    read_page-Reads : (calls : List Syscall) → Reads page (read_page calls t (slot * page_size) b)
    unfolding read_page
    read_page-Reads calls =
        if-cases (Reads page) t.direct_io_active _ _
          (λ _. direct-Reads _ (read_exact_at-Read calls t.file (slot * page_size) zeroed_page))
          (λ _. buffered-Reads _ (
            subst
              (λ n.
                Read t.file (slot * page_size) n
                  (read_exact_at calls t.file (slot * page_size) 0 b))
              e (read_exact_at-Read calls t.file (slot * page_size) b)))

  read_of :
      (calls : List Syscall) (location : ℕ)
      → read calls t location b ≡ read_slot calls t location b (slot_for_location t location)
  unfolding read
  read_of calls location = ground arith

  module _ (v : IsTier t) (calls : List Syscall) (slot : ℕ)
      (inside : slot < t.state.slot_count) where
    read_on :
        t.state.allocated slot ≡ true
        → read calls t (slot * page_size) b ≡ read_page calls t (slot * page_size) b
    unfolding read_slot
    read_on on = read_of calls (slot * page_size) ∙ rw (slot_of_slot t slot v inside, on) refl

    read_off :
        t.state.allocated slot ≡ false → read calls t (slot * page_size) b ≡ some (b, err not_found)
    unfolding read_slot
    read_off off = read_of calls (slot * page_size) ∙ rw (slot_of_slot t slot v inside, off) refl

  read_outside :
      (calls : List Syscall) (location : ℕ)
      → IsOutside t location
      → read calls t location b ≡ some (b, err invalid_input)
  unfolding read_slot
  read_outside calls location h = read_of calls location ∙ rw (slot_outside t location h) refl

wrong_size :
    (calls : List Syscall) (t : FileTier) (location : ℕ) (b : Buffer)
    → b.size ≢ page_size
    → read calls t location b ≡ some (b, err invalid_input)
unfolding read
wrong_size calls t location b d = ground arith

-- A read of a well-formed tier, whatever its system calls do: a buffer of another size than a page
-- and a location that names no slot are refused, a slot that is not allocated is not found, and a
-- read of a slot that holds a page hands out that page if it succeeds.
read_lem :
    (calls : List Syscall) (t : FileTier) (b : Buffer)
    → IsTier t
    → (b.size ≢ page_size → (location : ℕ) → read calls t location b ≡ some (b, err invalid_input))
      × (b.size ≡ page_size
          → ((location : ℕ)
              → IsOutside t location
              → read calls t location b ≡ some (b, err invalid_input))
            × ((slot : ℕ)
                → slot < t.state.slot_count
                → t.state.allocated slot ≡ false
                → read calls t (slot * page_size) b ≡ some (b, err not_found))
            × ((slot : ℕ) (page : ℕ → ℕ)
                → Holds t slot page
                → Reads page (read calls t (slot * page_size) b)))
read_lem calls t b v = (
  (λ d location. wrong_size calls t location b d),
  (λ e. (
    (λ location h. read_outside t b e calls location h),
    (λ slot inside off. read_off t b e v calls slot inside off),
    (λ slot page h.
        rw (read_on t b e v calls slot h.inside h.on) (read_page-Reads t b e slot page h calls)),
  )),
)

module _ (t : FileTier) (b : Buffer) (e : b.size ≡ page_size) (calls : List Syscall)
    (slot : ℕ) where
  copied-Succeeds :
      (r : Option (Buffer × IoResult (Unit {0}))) → Succeeds r → Succeeds (copied_back b r)
  unfolding copied_back
  copied-Succeeds r (aligned, s) = rw s (record b { byte = aligned.byte }, refl)

  read_page-Succeeds :
      slot * page_size + page_size ≤ 2 ^ 64
      → All IsHealthy calls
      → page_size ≤ moves calls
      → Succeeds (read_page calls t (slot * page_size) b)
  unfolding read_page
  read_page-Succeeds fits well enough =
      if-cases Succeeds t.direct_io_active _ _
        (λ _.
          copied-Succeeds _
            (read_exact_at-Succeeds calls t.file (slot * page_size) zeroed_page fits well enough))
        (λ _.
          read_exact_at-Succeeds calls t.file (slot * page_size) b (omega arith) well (omega arith))

-- The page that a write stored is handed out by the next read of the location that the write
-- returned, which succeeds if its system calls move enough.
pub read-write :
    (calls calls' : List Syscall) (t t' : FileTier) (b b' : Buffer) (location : ℕ)
    → IsTier t
    → write calls t b ≡ some (t', ok location)
    → b'.size ≡ page_size
    → All IsHealthy calls'
    → page_size ≤ moves calls'
    → (r : Buffer) × (read calls' t' location b' ≡ some (r, ok tt))
      × ((i : ℕ) → i < page_size → r.byte i ≡ b.byte i)
read-write calls calls' t t' b b' location v wrote e well enough =
    let (slot, at, off, v', held, used, there, back) =
      subst (Writes t b) wrote (write-Writes calls t b v) in
    let (r, reads) =
      read_page-Succeeds t' b' e calls' slot (omega (arith, v'.sized, v'.fits, held.inside)) well
        enough in
    let same = read_on t' b' e v' calls' slot held.inside held.on ∙ reads in
    (
      r,
      ap (λ l. read calls' t' l b') at ∙ same,
      (subst (Reads b.byte) reads (read_page-Reads t' b' e slot b.byte held calls')).1,
    )
