-- ===== src/Frame/Table/Addresses.antt =====
-- Resident addresses and frame indices are two names of one frame.
use tierbuf.Prelude.{
  ℕ, ◌+◌, ◌-◌, ◌*◌, ◌/◌, ◌%◌, ◌^◌, ◌<◌, ◌≡◌, ◌≢◌, ◌⊎◌, inl, inr, dec_lt, ℕ_discrete, refl, ap, ◌∙◌,
  Option, none, some, arith, Run, done, ◌>>=◌,
}
use tierbuf.Swip.{from_non_null}
use tierbuf.Swip.Words.{IsResident}
use tierbuf.Frame.Table.{Layout, resident_addr, index_of_resident, locate}

-- What the compiler and the allocator give: elements of some size, aligned to four bytes, that end
-- inside the address space.
pub record IsLaidOut (l : Layout) (frame_count : ℕ) : Type 0 where
  pub nonnull : 0 < l.base
  pub sized : 0 < l.element_size
  pub base_aligned : l.base % 4 ≡ 0
  pub size_aligned : l.element_size % 4 ≡ 0
  pub fits : l.base + l.element_size * frame_count < 2 ^ 64

mul_aligned : (i s : ℕ) → s % 4 ≡ 0 → i * s % 4 ≡ 0
mul_aligned i s h = let k = s / 4 in let e : s ≡ 4 * k = omega arith in rw e (omega (arith))

pub resident_addr-done :
    (l : Layout) (n i : ℕ)
    → IsLaidOut l n
    → i < n
    → resident_addr l n i ≡ done (l.base + i * l.element_size)
unfolding resident_addr from_non_null
resident_addr-done l n i h lt = ground (arith, mul_aligned i l.element_size h.size_aligned)

element_below :
    (l : Layout) (n i : ℕ) → 0 < l.element_size → i < n → i * l.element_size < l.element_size * n
element_below l n i s lt = grind arith

-- The address of a frame is one that a handle can hold.
pub element-IsResident :
    (l : Layout) (n i : ℕ) → IsLaidOut l n → i < n → IsResident (l.base + i * l.element_size)
element-IsResident l n i h lt =
    let a = mul_aligned i l.element_size h.size_aligned in
    let b = element_below l n i h.sized lt in
    record {
      nonzero = omega (arith, h.nonnull);
      aligned = omega (arith, a, h.base_aligned);
      fits = omega (arith, b, h.fits);
    }

div_element : (i s : ℕ) → 0 < s → i * s / s ≡ i
div_element i s pos = grind arith

mod_element : (i s : ℕ) → 0 < s → i * s % s ≡ 0
mod_element i s pos = grind arith

div_lt : (d n s : ℕ) → 0 < s → d < s * n → d / s < n
div_lt d n s pos lt = grind arith

div_exact : (d s : ℕ) → 0 < s → d % s ≡ 0 → d / s * s ≡ d
div_exact d s pos e = grind arith

-- What the lookup of `resident` may answer: the one frame whose address it is, or none if it is the
-- address of no frame.
abbrev pub Located : Layout → (frame_count resident : ℕ) → Run (Option ℕ) → Type 0
Located l n r result =
    ((i : ℕ) × (i < n) × (r ≡ l.base + i * l.element_size) × (result ≡ done (some i)))
    ⊎ ((result ≡ done none) × ((i : ℕ) → i < n → r ≢ l.base + i * l.element_size))

module _ (l : Layout) (n r : ℕ) (h : IsLaidOut l n) where
  abbrev end : ℕ
  end = l.base + l.element_size * n

  unchecked : index_of_resident l n r ≡ locate l n r end
  unfolding index_of_resident
  unchecked = ground (arith, h.fits)

  locate-Located : Located l n r (locate l n r end)
  unfolding locate
  locate-Located = elim (dec_lt r l.base) [
    | yes low ↦ inr (ground arith, λ i lt e. absurd (omega arith))
    | no above ↦ elim (dec_lt r end) [
      | no high ↦
          inr (ground arith, λ i lt e. absurd (omega (arith, element_below l n i h.sized lt)))
      | yes within ↦ elim (ℕ_discrete ((r - l.base) % l.element_size) 0) [
        | no between ↦ inr (
          ground arith,
          λ i lt e. between (
              let d : r - l.base ≡ i * l.element_size = omega arith in
              rw d (mod_element i l.element_size h.sized)),
        )
        | yes exact ↦
            let i = (r - l.base) / l.element_size in
            let lt = div_lt (r - l.base) n l.element_size h.sized (omega arith) in
            let same : l.base + i * l.element_size ≡ r =
              omega (arith, div_exact (r - l.base) l.element_size h.sized exact) in
            inl (i, lt, omega arith, ground (arith, resident_addr-done l n i h lt))
      ]
    ]
  ]

-- For a table that is laid out in the address space, the lookup of any address returns, and finds
-- exactly the frame whose resident address it is.
pub index_of_resident-Located :
    (l : Layout) (n r : ℕ) → IsLaidOut l n → Located l n r (index_of_resident l n r)
index_of_resident-Located l n r h = rw (unchecked l n r h) (locate-Located l n r h)

same_index : (b i j s : ℕ) → 0 < s → b + i * s ≡ b + j * s → j ≡ i
same_index b i j s pos e =
    let q : i * s ≡ j * s = omega arith in
    omega (arith, div_element i s pos, div_element j s pos, ap (λ (t : ℕ). t / s) q)

found_again :
    (l : Layout) (n i : ℕ)
    → IsLaidOut l n
    → i < n
    → index_of_resident l n (l.base + i * l.element_size) ≡ done (some i)
found_again l n i h lt = elim (index_of_resident-Located l n (l.base + i * l.element_size) h) [
  | inl (j, below, e, found) ↦
      found ∙ ap (λ k. done (some k)) (same_index l.base i j l.element_size h.sized e)
  | inr (missing, all) ↦ absurd (all i lt refl)
]

-- The resident address of each frame is found again as that frame.
pub index_of_resident-resident_addr :
    (l : Layout) (n i : ℕ)
    → IsLaidOut l n
    → i < n
    → (resident_addr l n i >>= index_of_resident l n) ≡ done (some i)
index_of_resident-resident_addr l n i h lt =
    rw (resident_addr-done l n i h lt) (found_again l n i h lt)
