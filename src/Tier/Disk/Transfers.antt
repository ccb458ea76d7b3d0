-- ===== src/Tier/Disk/Transfers.antt =====
-- A transfer that succeeds moves the whole buffer and nothing else.
use tierbuf.Prelude.{
  ℕ, ◌+◌, ◌-◌, ◌^◌, ◌≤◌, ◌<◌, ◌≡◌, refl, ap, subst, min, not, if-cases, Option, none, some, List,
  [], ◌∷◌, arith, dec_lt, ltb, leb, ◌==◌, if◌then◌else◌,
}
use tierbuf.Tier.Disk.{
  interrupted, other, IoResult, ok, err, Syscall, moved, failed, Buffer, write_at, read_at,
  write_all_at, read_exact_at,
}

-- The bytes of the buffer up to `written` stand on the disk, and outside the range of the buffer
-- the disk is what it was at first.
pub record IsWritten (b : Buffer) (offset : ℕ) (before : ℕ → ℕ) (written : ℕ) (disk : ℕ → ℕ)
    : Type 0 where
  pub stored : (i : ℕ) → i < written → disk (offset + i) ≡ b.byte i
  pub below : (p : ℕ) → p < offset → disk p ≡ before p
  pub above : (p : ℕ) → offset + b.size ≤ p → disk p ≡ before p

abbrev pub Wrote :
    Buffer → (offset : ℕ) → (before : ℕ → ℕ) → Option ((ℕ → ℕ) × IoResult (Unit {0})) → Type 0
Wrote b offset before none = Unit
Wrote b offset before (some (disk, ok _)) = IsWritten b offset before b.size disk
Wrote b offset before (some (disk, err _)) = IsWritten b offset before 0 disk

module _ (b : Buffer) (offset : ℕ) (before : ℕ → ℕ) where
  forget :
      (w v : ℕ) (disk : ℕ → ℕ)
      → v ≤ w
      → IsWritten b offset before w disk
      → IsWritten b offset before v disk
  forget w v disk le h = record {
    stored = λ i lt. h.stored i (omega arith);
    below = h.below;
    above = h.above;
  }

  write_at-IsWritten :
      (w n : ℕ) (disk : ℕ → ℕ)
      → w + n ≤ b.size
      → IsWritten b offset before w disk
      → IsWritten b offset before (w + n) (write_at b offset w n disk)
  unfolding write_at
  write_at-IsWritten w n disk le h = record {
    stored = λ i lt. elim (dec_lt i w) [
      | yes old ↦ ground (arith, h.stored i old)
      | no new ↦ let same : offset + i - offset ≡ i = omega arith in ground (arith, ap b.byte same)
    ];
    below = λ p lt. ground (arith, h.below p lt);
    above = λ p far. ground (arith, h.above p far);
  }

  -- The tests that open each round of the loop, around what the round does.
  round-Wrote :
      (w : ℕ) (disk : ℕ → ℕ) (rest : Option ((ℕ → ℕ) × IoResult (Unit {0})))
      → w ≤ b.size
      → IsWritten b offset before w disk
      → (w < b.size → Wrote b offset before rest)
      → Wrote b offset before (
          if not (ltb w b.size)
          then some (disk, ok tt)
          else if leb (2 ^ 64) (offset + w)
          then some (disk, err other)
          else rest)
  round-Wrote w disk rest le h step =
      if-cases (Wrote b offset before) (not (ltb w b.size)) _ _
        (λ e.
          let full : w ≡ b.size = ground arith in
          subst (λ v. IsWritten b offset before v disk) full h)
        (λ e.
          if-cases (Wrote b offset before) (leb (2 ^ 64) (offset + w)) _ _
            (λ _. forget w 0 disk (omega arith) h) (λ _. step (ground arith)))

  writing-Wrote :
      (cs : List Syscall) (w : ℕ) (disk : ℕ → ℕ)
      → w ≤ b.size
      → IsWritten b offset before w disk
      → Wrote b offset before (write_all_at cs b offset w disk)
  unfolding write_all_at
  writing-Wrote [] w disk le h =
      if-cases (Wrote b offset before) (ltb w b.size) _ _ (λ _. tt)
        (λ e.
          let full : w ≡ b.size = ground arith in
          subst (λ v. IsWritten b offset before v disk) full h)
  writing-Wrote (failed interrupted ∷ cs) w disk le h =
      round-Wrote w disk _ le h (λ _. writing-Wrote cs w disk le h)
  writing-Wrote (moved n ∷ cs) w disk le h = round-Wrote w disk _ le h (λ lt.
      if-cases (Wrote b offset before) (n == 0) _ _ (λ _. forget w 0 disk (omega arith) h)
        (λ _.
          writing-Wrote cs (w + min n (b.size - w)) _ (omega arith)
            (write_at-IsWritten w (min n (b.size - w)) disk (omega arith) h)))
  writing-Wrote (failed _ ∷ cs) w disk le h =
      round-Wrote w disk _ le h (λ _. forget w 0 disk (omega arith) h)

-- The write loop writes the whole buffer at its offset if it succeeds, whatever the system calls
-- do, and whether it succeeds or fails, it changes no byte outside that range.
pub write_all_at-Wrote :
    (cs : List Syscall) (b : Buffer) (offset : ℕ) (disk : ℕ → ℕ)
    → Wrote b offset disk (write_all_at cs b offset 0 disk)
write_all_at-Wrote cs b offset disk =
    writing-Wrote b offset disk cs 0 disk (omega arith)
      (record { stored = λ i lt. absurd (omega arith); below = λ _ _. refl; above = λ _ _. refl })

-- The bytes of the disk up to `filled` stand in the buffer.
abbrev pub IsFilled : (disk : ℕ → ℕ) → (offset filled : ℕ) → Buffer → Type 0
IsFilled disk offset filled b = (i : ℕ) → i < filled → b.byte i ≡ disk (offset + i)

abbrev pub Read :
    (disk : ℕ → ℕ) → (offset size : ℕ) → Option (Buffer × IoResult (Unit {0})) → Type 0
Read disk offset size none = Unit
Read disk offset size (some (b, ok _)) = IsFilled disk offset size b × (b.size ≡ size)
Read disk offset size (some (b, err _)) = b.size ≡ size

module _ (disk : ℕ → ℕ) (offset size : ℕ) where
  read_at-IsFilled :
      (filled n : ℕ) (b : Buffer)
      → IsFilled disk offset filled b
      → IsFilled disk offset (filled + n) (read_at disk offset filled n b)
  unfolding read_at
  read_at-IsFilled filled n b h i lt = elim (dec_lt i filled) [
    | yes old ↦ ground (arith, h i old)
    | no new ↦ ground arith
  ]

  round-Read :
      (filled : ℕ) (b : Buffer) (rest : Option (Buffer × IoResult (Unit {0})))
      → b.size ≡ size
      → filled ≤ size
      → IsFilled disk offset filled b
      → (filled < size → Read disk offset size rest)
      → Read disk offset size (
          if not (ltb filled b.size)
          then some (b, ok tt)
          else if leb (2 ^ 64) (offset + filled)
          then some (b, err other)
          else rest)
  round-Read filled b rest same le h step =
      if-cases (Read disk offset size) (not (ltb filled b.size)) _ _
        (λ e.
          let full : filled ≡ size = ground arith in
          (subst (λ v. IsFilled disk offset v b) full h, same))
        (λ e.
          if-cases (Read disk offset size) (leb (2 ^ 64) (offset + filled)) _ _ (λ _. same)
            (λ _. step (ground arith)))

  size-read_at :
      (filled n : ℕ) (b : Buffer) → b.size ≡ size → (read_at disk offset filled n b).size ≡ size
  unfolding read_at
  size-read_at filled n b same = same

  reading-Read :
      (cs : List Syscall) (filled : ℕ) (b : Buffer)
      → b.size ≡ size
      → filled ≤ size
      → IsFilled disk offset filled b
      → Read disk offset size (read_exact_at cs disk offset filled b)
  unfolding read_exact_at
  reading-Read [] filled b same le h =
      if-cases (Read disk offset size) (ltb filled b.size) _ _ (λ _. tt)
        (λ e.
          let full : filled ≡ size = ground arith in
          (subst (λ v. IsFilled disk offset v b) full h, same))
  reading-Read (failed interrupted ∷ cs) filled b same le h =
      round-Read filled b _ same le h (λ _. reading-Read cs filled b same le h)
  reading-Read (moved n ∷ cs) filled b same le h = round-Read filled b _ same le h (λ lt.
      if-cases (Read disk offset size) (n == 0) _ _ (λ _. same)
        (λ _.
          reading-Read cs (filled + min n (b.size - filled)) _
            (size-read_at filled (min n (b.size - filled)) b same) (omega arith)
            (read_at-IsFilled filled (min n (b.size - filled)) b h)))
  reading-Read (failed _ ∷ cs) filled b same le h = round-Read filled b _ same le h (λ _. same)

-- The read loop fills the buffer with the bytes at its offset if it succeeds, whatever the system
-- calls do; it never changes the buffer's length.
pub read_exact_at-Read :
    (cs : List Syscall) (disk : ℕ → ℕ) (offset : ℕ) (b : Buffer)
    → Read disk offset b.size (read_exact_at cs disk offset 0 b)
read_exact_at-Read cs disk offset b =
    reading-Read disk offset b.size cs 0 b refl (omega arith) (λ i lt. absurd (omega arith))
