-- ===== src/Tier/File/Tests.antt =====
-- The theorems of `Tier.File` at concrete inputs.
use tierbuf.Prelude.{ℕ, ◌*◌, ◌%◌, ◌≤◌, ◌<◌, ◌≡◌, refl, false, none, some, List, [], ◌∷◌, All, arith}
use tierbuf.Tier.Disk.{interrupted, Syscall, moved, failed, ok, Buffer}
use tierbuf.Tier.Disk.Progress.{IsHealthy, moves}
use tierbuf.Tier.File.{
  page_size, FileTier, is_valid_capacity, open_tier, choose_slot, take_slot, write, read,
}
use tierbuf.Tier.File.Slots.{choose_slot-Chosen, new-IsSlots}
use tierbuf.Tier.File.Pages.{IsTier}
use tierbuf.Tier.File.Writes.{Writes, write-Writes, write_room}
use tierbuf.Tier.File.Reads.{read-write}

abbrev blank : ℕ → ℕ
blank p = 0

-- A tier of two pages, opened without direct I/O.
abbrev two_pages : FileTier
two_pages = record {
  file = blank;
  capacity_bytes = 2 * page_size;
  direct_io_active = false;
  state = record {
    slot_count = 2;
    allocated = λ _. false;
    free_slots = [];
    next_slot = 0;
    used_slots = 0;
  };
}

two_pages_opened : open_tier blank (2 * page_size) false ≡ ok two_pages
unfolding open_tier is_valid_capacity
two_pages_opened = refl

two_pages-IsTier : IsTier two_pages
two_pages-IsTier = record { sized = refl; fits = omega arith; slots = new-IsSlots 2 }

abbrev page : Buffer
page = record { size = page_size; byte = λ i. i % 256 }

abbrev calls : List Syscall
calls = moved 4096 ∷ failed interrupted ∷ moved 61440 ∷ []

write-Writes_example : Writes two_pages page (write calls two_pages page)
write-Writes_example = write-Writes calls two_pages page two_pages-IsTier

wrote : (t' : FileTier) × (location : ℕ) × (write calls two_pages page ≡ some (t', ok location))
wrote =
    let room : two_pages.state.used_slots < two_pages.state.slot_count = omega arith in
    let well : All IsHealthy calls = omega arith in
    let enough : page_size ≤ moves calls = omega arith in
    (write_room calls two_pages page two_pages-IsTier refl).1 room well enough

read-write_example :
    (r : Buffer) × (read calls wrote.0 wrote.1 page ≡ some (r, ok tt))
    × ((i : ℕ) → i < page_size → r.byte i ≡ page.byte i)
read-write_example =
    read-write calls calls two_pages wrote.0 page page wrote.1 two_pages-IsTier wrote.2 refl
      (omega arith) (omega arith)

-- The first slot holds a page.
abbrev one_page : FileTier
one_page = record two_pages { file = λ p. p % 256; state = take_slot 0 none two_pages.state }

one_page-IsTier : IsTier one_page
unfolding choose_slot take_slot
one_page-IsTier = record {
  sized = refl;
  fits = omega arith;
  slots = (choose_slot-Chosen two_pages.state (new-IsSlots 2)).3;
}
