-- ===== src/Sys/Mapping/Bytes.antt =====
-- What the frames of a pool store.
use tierbuf.Prelude.{
  ℕ, ◌+◌, ◌-◌, ◌≤◌, ◌<◌, ◌≡◌, ◌≢◌, refl, sym, ap, ◌∙◌, ◌⊎◌, true, false, ◌&&◌, arith, leb, ltb,
  if◌then◌else◌, done,
}
use tierbuf.Tier.Disk.{Buffer}
use tierbuf.Tier.File.{page_size}
use tierbuf.Sys.Mapping.{AlignedPool, frame_ptr, read_frame, write_frame}
use tierbuf.Sys.Mapping.Bounds.{IsPool, frame_ptr-Frames}

-- The bytes of two pages agree.
abbrev pub SameBytes : (ℕ → ℕ) → (ℕ → ℕ) → Type 0
SameBytes p q = (k : ℕ) → k < page_size → p k ≡ q k

-- A page written to frame `i` and what is then read of frame `j`: the page, if they are one frame,
-- else what was there; no address outside the mapping changes.
pub record Stored (p : AlignedPool) (i j : ℕ) (page memory : ℕ → ℕ) : Type 0 where
  pub memory' : ℕ → ℕ
  pub old : Buffer
  pub new : Buffer
  pub wrote : write_frame p i page memory ≡ done memory'
  pub before : read_frame p j memory ≡ done old
  pub read : read_frame p j memory' ≡ done new
  pub whole : new.size ≡ page_size
  pub same : i ≡ j → SameBytes new.byte page
  pub apart : i ≢ j → SameBytes new.byte old.byte
  pub outside : (a : ℕ) → (a < p.mapping) ⊎ (p.mapping + p.mapping_len ≤ a) → memory' a ≡ memory a

pub write_frame-Stored :
    (p : AlignedPool) (i j : ℕ) (page memory : ℕ → ℕ)
    → IsPool p
    → i < p.frame_count
    → j < p.frame_count
    → Stored p i j page memory
unfolding read_frame write_frame
write_frame-Stored p i j page memory v lt lt' =
    let (a, b, at, at', _, low, high, apart) = frame_ptr-Frames p i j v lt lt' in
    let m' : ℕ → ℕ = λ x. if leb a x && ltb x (a + page_size) then page (x - a) else memory x in
    record {
      memory' = m';
      old = record { size = page_size; byte = λ k. memory (b + k) };
      new = record { size = page_size; byte = λ k. m' (b + k) };
      wrote = rw at refl;
      before = rw at' refl;
      read = rw at' refl;
      whole = refl;
      same = λ e k l.
          let one : a ≡ b =
            (let both : done a ≡ done b = sym at ∙ ap (frame_ptr p) e ∙ at' in cc) in
          let hit : (leb a (b + k) && ltb (b + k) (a + page_size)) ≡ true = ground arith in
          rw hit (ap page (omega arith));
      apart = λ d k l.
          let miss : (leb a (b + k) && ltb (b + k) (a + page_size)) ≡ false =
            ground (arith, apart d) in
          rw miss refl;
      outside = λ x o.
          let miss : (leb a x && ltb x (a + page_size)) ≡ false = ground arith in rw miss refl;
    }
