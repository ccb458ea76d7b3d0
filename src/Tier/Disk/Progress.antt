-- ===== src/Tier/Disk/Progress.antt =====
-- The transfer loops return once the calls have made enough progress.
use tierbuf.Prelude.{
  ℕ, ◌+◌, ◌-◌, ◌^◌, ◌≤◌, ◌<◌, ◌≡◌, refl, min, Option, some, List, [], ◌∷◌, All, arith, dec_lt,
}
use tierbuf.Tier.Disk.{
  interrupted, IoResult, ok, Syscall, moved, failed, Buffer, write_at, read_at, write_all_at,
  read_exact_at,
}

-- A call that moves something, or is interrupted.
abbrev pub IsHealthy : Syscall → Type 0
IsHealthy (moved n) = 0 < n
IsHealthy (failed interrupted) = Unit
IsHealthy (failed _) = ⊥

-- The bytes that the calls can move.
abbrev pub moves : List Syscall → ℕ
moves [] = 0
moves (moved n ∷ cs) = n + moves cs
moves (failed _ ∷ cs) = moves cs

abbrev pub Succeeds {ℓ} : {A : Type ℓ} → Option (A × IoResult (Unit {0})) → Type ℓ
Succeeds {A = A} r = (a : A) × (r ≡ some (a, ok tt))

writing-Succeeds :
    (cs : List Syscall) (b : Buffer) (offset w : ℕ) (disk : ℕ → ℕ)
    → offset + b.size ≤ 2 ^ 64
    → All IsHealthy cs
    → b.size ≤ w + moves cs
    → Succeeds (write_all_at cs b offset w disk)
unfolding write_all_at
writing-Succeeds [] b offset w disk fits well enough = (disk, ground arith)
writing-Succeeds (failed interrupted ∷ cs) b offset w disk fits well enough =
    elim (dec_lt w b.size) [
      | no full ↦ (disk, ground arith)
      | yes more ↦
          let (end, returns) = writing-Succeeds cs b offset w disk fits well.1 enough in
          (end, ground (arith, returns))
    ]
writing-Succeeds (moved n ∷ cs) b offset w disk fits well enough = elim (dec_lt w b.size) [
  | no full ↦ (disk, ground arith)
  | yes more ↦
      let bytes = min n (b.size - w) in
      let (end, returns) =
        writing-Succeeds cs b offset (w + bytes) (write_at b offset w bytes disk) fits well.1
          (omega (arith, well.0)) in
      (end, ground (arith, returns, well.0))
]
writing-Succeeds (failed _ ∷ cs) b offset w disk fits well enough = absurd well.0

-- On a range inside the address space, calls that each move something or are interrupted, and which
-- may move as many bytes as the buffer has, let the write loop return with success.
pub write_all_at-Succeeds :
    (cs : List Syscall) (b : Buffer) (offset : ℕ) (disk : ℕ → ℕ)
    → offset + b.size ≤ 2 ^ 64
    → All IsHealthy cs
    → b.size ≤ moves cs
    → Succeeds (write_all_at cs b offset 0 disk)
write_all_at-Succeeds cs b offset disk fits well enough =
    writing-Succeeds cs b offset 0 disk fits well (omega arith)

size-read_at :
    (disk : ℕ → ℕ) (offset w n : ℕ) (b : Buffer) → (read_at disk offset w n b).size ≡ b.size
unfolding read_at
size-read_at disk offset w n b = refl

reading-Succeeds :
    (cs : List Syscall) (disk : ℕ → ℕ) (offset w : ℕ) (b : Buffer)
    → offset + b.size ≤ 2 ^ 64
    → All IsHealthy cs
    → b.size ≤ w + moves cs
    → Succeeds (read_exact_at cs disk offset w b)
unfolding read_exact_at
reading-Succeeds [] disk offset w b fits well enough = (b, ground arith)
reading-Succeeds (failed interrupted ∷ cs) disk offset w b fits well enough =
    elim (dec_lt w b.size) [
      | no full ↦ (b, ground arith)
      | yes more ↦
          let (end, returns) = reading-Succeeds cs disk offset w b fits well.1 enough in
          (end, ground (arith, returns))
    ]
reading-Succeeds (moved n ∷ cs) disk offset w b fits well enough = elim (dec_lt w b.size) [
  | no full ↦ (b, ground arith)
  | yes more ↦
      let bytes = min n (b.size - w) in
      let same = size-read_at disk offset w bytes b in
      let (end, returns) =
        reading-Succeeds cs disk offset (w + bytes) (read_at disk offset w bytes b)
          (omega (arith, same)) well.1 (omega (arith, well.0, same)) in
      (end, ground (arith, returns, well.0))
]
reading-Succeeds (failed _ ∷ cs) disk offset w b fits well enough = absurd well.0

-- On a range inside the address space, calls that each move something or are interrupted, and which
-- may move as many bytes as the buffer has, let the read loop return with success.
pub read_exact_at-Succeeds :
    (cs : List Syscall) (disk : ℕ → ℕ) (offset : ℕ) (b : Buffer)
    → offset + b.size ≤ 2 ^ 64
    → All IsHealthy cs
    → b.size ≤ moves cs
    → Succeeds (read_exact_at cs disk offset 0 b)
read_exact_at-Succeeds cs disk offset b fits well enough =
    reading-Succeeds cs disk offset 0 b fits well (omega arith)
