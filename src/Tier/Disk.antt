-- ===== src/Tier/Disk.antt =====
-- The transfer loops `read_exact_at` and `write_all_at` of crates/tierbuf/src/tier/file.rs.
pub mod Transfers
pub mod Progress
mod Tests
use tierbuf.Prelude.{
  ℕ, suc, zero, ◌+◌, ◌-◌, ◌^◌, min, Bool, true, false, not, ◌&&◌, Option, none, some, List, [], ◌∷◌,
  ltb, leb, ◌==◌, if◌then◌else◌,
}

-- `io::ErrorKind`, as far as the tiers tell the kinds apart.
pub data IoKind : Type 0 where
  invalid_input not_found storage_full unexpected_eof write_zero interrupted other : IoKind
  system : (code : ℕ) → IoKind

pub data IoResult (A : Type 0) : Type 0 where
  ok : A → IoResult A
  err : IoKind → IoResult A

-- What one system call does: it moves some bytes, or it fails.
pub data Syscall : Type 0 where
  moved : (bytes : ℕ) → Syscall
  failed : IoKind → Syscall

-- A slice of bytes; those from `size` on are not there.
pub record Buffer : Type 0 where
  pub size : ℕ
  pub byte : ℕ → ℕ

-- `write_at(&buffer[written..], offset)` of the file when it moves `n` bytes.
unfoldable pub write_at : (b : Buffer) → (offset written n : ℕ) → (disk : ℕ → ℕ) → ℕ → ℕ
write_at b offset written n disk p =
    if leb (offset + written) p && ltb p (offset + written + n) then b.byte (p - offset) else disk p

-- `read_at(&mut buffer[filled..], offset)` when it moves `n` bytes.
unfoldable pub read_at : (disk : ℕ → ℕ) → (offset filled n : ℕ) → Buffer → Buffer
read_at disk offset filled n b = record b {
  byte = λ i. if leb filled i && ltb i (filled + n) then disk (offset + i) else b.byte i;
}

-- The system calls are given in their order, and no call moves more than it was asked for. `none` is
-- a loop that has not returned when they are used up.
unfoldable pub write_all_at :
    List Syscall → Buffer → (offset written : ℕ) → (ℕ → ℕ) → Option ((ℕ → ℕ) × IoResult (Unit {0}))
write_all_at [] b offset written disk = if ltb written b.size then none else some (disk, ok tt)
write_all_at (failed interrupted ∷ cs) b offset written disk =
    let rest = write_all_at cs b offset written disk in
    if not (ltb written b.size)
    then some (disk, ok tt)
    else if leb (2 ^ 64) (offset + written)
    then some (disk, err other)
    else rest
write_all_at (failed kind ∷ cs) b offset written disk =
    if not (ltb written b.size)
    then some (disk, ok tt)
    else if leb (2 ^ 64) (offset + written)
    then some (disk, err other)
    else some (disk, err kind)
write_all_at (moved n ∷ cs) b offset written disk =
    let bytes = min n (b.size - written) in
    let rest = write_all_at cs b offset (written + bytes) (write_at b offset written bytes disk) in
    if not (ltb written b.size)
    then some (disk, ok tt)
    else if leb (2 ^ 64) (offset + written)
    then some (disk, err other)
    else if n == 0
    then some (disk, err write_zero)
    else rest

unfoldable pub read_exact_at :
    List Syscall
    → (disk : ℕ → ℕ) → (offset filled : ℕ) → Buffer
    → Option (Buffer × IoResult (Unit {0}))
read_exact_at [] disk offset filled b = if ltb filled b.size then none else some (b, ok tt)
read_exact_at (failed interrupted ∷ cs) disk offset filled b =
    let rest = read_exact_at cs disk offset filled b in
    if not (ltb filled b.size)
    then some (b, ok tt)
    else if leb (2 ^ 64) (offset + filled)
    then some (b, err other)
    else rest
read_exact_at (failed kind ∷ cs) disk offset filled b =
    if not (ltb filled b.size)
    then some (b, ok tt)
    else if leb (2 ^ 64) (offset + filled)
    then some (b, err other)
    else some (b, err kind)
read_exact_at (moved n ∷ cs) disk offset filled b =
    let bytes = min n (b.size - filled) in
    let rest = read_exact_at cs disk offset (filled + bytes) (read_at disk offset filled bytes b) in
    if not (ltb filled b.size)
    then some (b, ok tt)
    else if leb (2 ^ 64) (offset + filled)
    then some (b, err other)
    else if n == 0
    then some (b, err unexpected_eof)
    else rest
