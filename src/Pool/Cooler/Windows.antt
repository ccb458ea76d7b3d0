-- ===== src/Pool/Cooler/Windows.antt =====
-- The windows of successive searches pass over every frame.
use tierbuf.Prelude.{
  ℕ, suc, zero, ◌+◌, ◌-◌, ◌*◌, ◌/◌, ◌%◌, ◌^◌, ◌≤◌, ◌<◌, ◌≡◌, sym, ap, ◌∙◌, subst, inl, inr, min, In,
  arith, dec_lt,
}
use native.Mathlib.Nat.{mod-lt, mod-eq_of_lt, mod-add-mod, mul-le-mul_left, add-mod_right}
use tierbuf.Pool.Cooler.{sample_count, window, sample, windows}

-- The cursor after so many searches, by whichever threads: each takes the next window with one
-- `fetch_add`, and nothing else changes the cursor.
unfoldable pub cursor_after : (searches frame_count cursor : ℕ) → ℕ
cursor_after zero frame_count cursor = cursor
cursor_after (suc n) frame_count cursor = (sample frame_count (cursor_after n frame_count cursor)).1

window-In :
    (n offset start count o : ℕ)
    → offset ≤ o
    → o < offset + n
    → In ((start + o) % count) (window n offset start count)
unfolding window
window-In zero offset start count o le lt = absurd (omega arith)
window-In (suc n) offset start count o le lt = elim (dec_lt offset o) [
  | yes later ↦ inr (window-In n (offset + 1) start count o (omega arith) (omega arith))
  | no first ↦ let e : o ≡ offset = omega arith in inl (ap (λ k. (start + k) % count) e)
]

sample_count-le : (count : ℕ) → sample_count count ≤ 64
unfolding sample_count
sample_count-le count = omega arith

cursor_after-sum :
    (n count cursor : ℕ)
    → cursor + n * 64 < 2 ^ 64
    → cursor_after n count cursor ≡ cursor + n * sample_count count
unfolding cursor_after sample
cursor_after-sum zero count cursor h = omega arith
cursor_after-sum (suc n) count cursor h =
    let before = cursor_after-sum n count cursor (omega arith) in
    let le = sample_count-le count in
    let room : n * sample_count count ≤ n * 64 = mul-le-mul_left n le in
    let fits : cursor + n * sample_count count + sample_count count < 2 ^ 64 = omega arith in
    ap (λ c. (c + sample_count count) % 2 ^ 64) before ∙ (mod-eq_of_lt fits ∙ omega arith)

-- The offset at which the frame `i` comes after the frame `r`.
offset_to : (count r i : ℕ) → r < count → i < count → (d : ℕ) × d < count × (r + d) % count ≡ i
offset_to count r i in_r in_i = elim (dec_lt i r) [
  | no after ↦ (i - r, omega arith, ap (λ n. n % count) (omega arith) ∙ mod-eq_of_lt in_i)
  | yes before ↦ (
    i + count - r,
    omega arith,
    ap (λ n. n % count) (omega arith) ∙ (add-mod_right i count ∙ mod-eq_of_lt in_i),
  )
]

-- The search that looks at the offset `d`, and where in its window.
place_of :
    (count d : ℕ)
    → d < count
    → (k : ℕ) × k < windows count
      × (o : ℕ) × o < sample_count count
      × k * sample_count count + o ≡ d
unfolding windows sample_count
place_of count d lt = elim (dec_lt count 64) [
  | yes small ↦ (0, omega arith, d, omega arith, omega arith)
  | no big ↦
      let full : min count 64 ≡ 64 = omega arith in
      (d / 64, omega arith, d % 64, omega arith, ap (λ n. d / 64 * n + d % 64) full ∙ omega arith)
]

-- Of the next searches, by whichever threads, as many as there are windows, one looks at a given frame,
-- if the cursor does not wrap around during them.
pub sample-Covers :
    (count cursor i : ℕ)
    → i < count
    → cursor + windows count * 64 < 2 ^ 64
    → (k : ℕ) × k < windows count × In i (sample count (cursor_after k count cursor)).0
unfolding sample
sample-Covers count cursor i in_i room =
    let (d, in_d, meets) = offset_to count (cursor % count) i (mod-lt cursor (omega arith)) in_i in
    let (k, in_k, o, in_o, at) = place_of count d in_d in
    let moved = cursor_after-sum k count cursor (omega arith) in
    let there : (cursor_after k count cursor % count + o) % count ≡ i =
      ap (λ c. (c % count + o) % count) moved
      ∙ (mod-add-mod (cursor + k * sample_count count) count o
          ∙ (ap (λ n. n % count) (omega arith) ∙ (sym (mod-add-mod cursor count d) ∙ meets))) in
    (
      k,
      in_k,
      subst (λ j. In j (window (sample_count count) 0 (cursor_after k count cursor % count) count))
          there
          (window-In (sample_count count) 0 (cursor_after k count cursor % count) count o
            (omega arith) (omega arith)),
    )
