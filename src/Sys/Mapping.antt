-- ===== src/Sys/Mapping.antt =====
-- `AlignedPool` of crates/tierbuf/src/sys/mmap.rs: aligned frames inside one anonymous mapping. The
-- memory is a byte at each address; `mmap` is a parameter.
pub mod Bounds
pub mod Bytes
mod Tests
use tierbuf.Prelude.{
  ℕ, ◌+◌, ◌-◌, ◌*◌, ◌/◌, ◌%◌, ◌^◌, Bool, not, ◌&&◌, Option, none, some, ltb, leb, ◌==◌,
  if◌then◌else◌, Run, done, panicked, ◌>>=◌, ◌>>◌, assert,
}
use tierbuf.Tier.Disk.{IoKind, invalid_input, IoResult, ok, err, Buffer}
use tierbuf.Tier.File.{page_size}

pub record AlignedPool : Type 0 where
  pub mapping : ℕ
  pub mapping_len : ℕ
  pub aligned_start : ℕ
  pub frame_count : ℕ

-- The pool in the mapping at `base`.
unfoldable pub pool_at : (bytes mapping_len base : ℕ) → Run (IoResult AlignedPool)
pool_at bytes mapping_len base = do
  let alignment_offset = (page_size - base % page_size) % page_size
  let aligned_start = (base + alignment_offset) % 2 ^ 64
  assert (leb (alignment_offset + bytes) mapping_len)
  assert (aligned_start % page_size == 0)
  done (
      ok (record {
        mapping = base;
        mapping_len = mapping_len;
        aligned_start = aligned_start;
        frame_count = bytes / page_size;
      }))

unfoldable pub mapped : (bytes mapping_len : ℕ) → IoResult ℕ → Run (IoResult AlignedPool)
mapped bytes mapping_len (err kind) = done (err kind)
mapped bytes mapping_len (ok base) = pool_at bytes mapping_len base

-- `mmap` answers with an address or with the last error of the system.
unfoldable pub new_pool : (mmap : ℕ → IoResult ℕ) → (bytes : ℕ) → Run (IoResult AlignedPool)
new_pool mmap bytes =
    if bytes == 0
    then done (err invalid_input)
    else if not (bytes % page_size == 0)
    then done (err invalid_input)
    else if leb (2 ^ 64) (bytes + (page_size - 1))
    then done (err invalid_input)
    else mapped bytes (bytes + (page_size - 1)) (mmap (bytes + (page_size - 1)))

unfoldable pub frame_ptr : AlignedPool → (index : ℕ) → Run ℕ
frame_ptr p index = do
  assert (ltb index p.frame_count)
  done ((p.aligned_start + index * page_size) % 2 ^ 64)

-- The page that the closure of `read_frame_with` is given.
unfoldable pub read_frame : AlignedPool → (index : ℕ) → (memory : ℕ → ℕ) → Run Buffer
read_frame p index memory = do
  frame ← frame_ptr p index
  done (record { size = page_size; byte = λ i. memory (frame + i) })

-- The memory after the closure of `write_frame_with` made `page` of the frame.
unfoldable pub write_frame :
    AlignedPool → (index : ℕ) → (page : ℕ → ℕ) → (memory : ℕ → ℕ) → Run (ℕ → ℕ)
write_frame p index page memory = do
  frame ← frame_ptr p index
  done (λ a. if leb frame a && ltb a (frame + page_size) then page (a - frame) else memory a)

-- `Drop::drop`, from what `munmap` answers.
unfoldable pub drop_pool : (munmap : ℕ → ℕ → Bool) → AlignedPool → Run (Unit {0})
drop_pool munmap p = assert (munmap p.mapping p.mapping_len)
