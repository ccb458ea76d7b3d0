-- ===== src/Sys/Mapping/Bounds.antt =====
-- Where the frames of a pool are: aligned, apart from each other, inside the mapping.
use tierbuf.Prelude.{
  ℕ, ◌+◌, ◌-◌, ◌*◌, ◌/◌, ◌%◌, ◌^◌, ◌≤◌, ◌<◌, ◌≡◌, ◌≢◌, refl, sym, subst, ◌⊎◌, inl, inr, not, arith,
  leb, ◌==◌, if-cases, Run, done, panicked, dec_lt,
}
use tierbuf.Tier.Disk.{invalid_input, IoResult, ok, err}
use tierbuf.Tier.File.{page_size}
use tierbuf.Sys.Mapping.{AlignedPool, pool_at, mapped, new_pool, frame_ptr}

-- A mapping of `len` bytes ends inside the address space.
abbrev pub IsMmap : (ℕ → IoResult ℕ) → Type 0
IsMmap mmap = (len base : ℕ) → mmap len ≡ ok base → base + len ≤ 2 ^ 64

-- The frames start at a page boundary and end inside the mapping.
pub record IsPool (p : AlignedPool) : Type 0 where
  pub aligned : p.aligned_start % page_size ≡ 0
  pub after : p.mapping ≤ p.aligned_start
  pub inside : p.aligned_start + p.frame_count * page_size ≤ p.mapping + p.mapping_len
  pub fits : p.mapping + p.mapping_len ≤ 2 ^ 64

abbrev pub IsBadSize : ℕ → Type 0
IsBadSize bytes = (bytes ≡ 0) ⊎ (bytes % page_size ≢ 0) ⊎ (2 ^ 64 ≤ bytes + (page_size - 1))

-- A refusal of the size, an error of `mmap`, or a pool of as many frames as the bytes hold in the
-- mapping that `mmap` gave.
abbrev pub Made : (mmap : ℕ → IoResult ℕ) → (bytes : ℕ) → Run (IoResult AlignedPool) → Type 0
Made mmap bytes panicked = ⊥
Made mmap bytes (done (err kind)) =
    (IsBadSize bytes × (kind ≡ invalid_input))
    ⊎ (¬ IsBadSize bytes × (mmap (bytes + (page_size - 1)) ≡ err kind))
Made mmap bytes (done (ok p)) =
    ¬ IsBadSize bytes
    × (mmap p.mapping_len ≡ ok p.mapping)
    × (p.mapping_len ≡ bytes + (page_size - 1))
    × (p.frame_count * page_size ≡ bytes)
    × IsPool p

-- The first page boundary from the base of the mapping on.
boundary :
    (bytes base : ℕ)
    → base + (bytes + (page_size - 1)) ≤ 2 ^ 64
    → 0 < bytes
    → bytes % page_size ≡ 0
    → pool_at bytes (bytes + (page_size - 1)) base
      ≡ done (
          ok (record {
            mapping = base;
            mapping_len = bytes + (page_size - 1);
            aligned_start = base + (page_size - base % page_size) % page_size;
            frame_count = bytes / page_size;
          }))
unfolding pool_at
boundary bytes base fits pos whole = ground arith

made :
    (mmap : ℕ → IoResult ℕ) (bytes : ℕ) (answer : IoResult ℕ)
    → IsMmap mmap
    → ¬ IsBadSize bytes
    → mmap (bytes + (page_size - 1)) ≡ answer
    → Made mmap bytes (mapped bytes (bytes + (page_size - 1)) answer)
unfolding mapped
made mmap bytes (err kind) h good e = inr (good, e)
made mmap bytes (ok base) h good e =
    let pos : 0 < bytes = ground arith in
    let whole : bytes % page_size ≡ 0 = ground arith in
    let fits = h (bytes + (page_size - 1)) base e in
    subst (Made mmap bytes) (sym (boundary bytes base fits pos whole)) (
      good,
      e,
      refl,
      omega arith,
      record { aligned = omega arith; after = omega arith; inside = omega arith; fits = fits },
    )

-- A pool of any number of bytes.
pub new_pool-Made :
    (mmap : ℕ → IoResult ℕ) (bytes : ℕ) → IsMmap mmap → Made mmap bytes (new_pool mmap bytes)
unfolding new_pool
new_pool-Made mmap bytes h =
    if-cases (Made mmap bytes) (bytes == 0) _ _ (λ e. inl (inl (ground arith), refl))
      (λ e.
        if-cases (Made mmap bytes) (not (bytes % page_size == 0)) _ _
          (λ e'. inl (inr (inl (ground arith)), refl))
          (λ e'.
            if-cases (Made mmap bytes) (leb (2 ^ 64) (bytes + (page_size - 1))) _ _
              (λ e''. inl (inr (inr (ground arith)), refl))
              (λ e''. made mmap bytes (mmap (bytes + (page_size - 1))) h (λ b. ground arith) refl)))

-- Both frames lie inside the mapping, aligned, and different frames share no byte.
abbrev pub Frames : AlignedPool → (i j : ℕ) → Type 0
Frames p i j =
    (a : ℕ) × (b : ℕ) × (frame_ptr p i ≡ done a)
    × (frame_ptr p j ≡ done b)
    × (a % page_size ≡ 0)
    × (p.mapping ≤ a)
    × (a + page_size ≤ p.mapping + p.mapping_len)
    × ((i ≢ j) → (a + page_size ≤ b) ⊎ (b + page_size ≤ a))

pub frame_ptr-Frames :
    (p : AlignedPool) (i j : ℕ) → IsPool p → i < p.frame_count → j < p.frame_count → Frames p i j
unfolding frame_ptr
frame_ptr-Frames p i j v lt lt' =
    let at : (k : ℕ)
        → k < p.frame_count
        → p.aligned_start + k * page_size + page_size
          ≤ p.aligned_start + p.frame_count * page_size =
      λ k l. omega arith in
    (
      p.aligned_start + i * page_size,
      p.aligned_start + j * page_size,
      ground (arith, at i lt, v.inside, v.fits),
      ground (arith, at j lt', v.inside, v.fits),
      omega (arith, v.aligned),
      omega (arith, v.after),
      omega (arith, v.inside),
      (λ d. elim (dec_lt i j) [ yes l ↦ inl (omega arith) | no g ↦ inr (omega arith) ]),
    )
