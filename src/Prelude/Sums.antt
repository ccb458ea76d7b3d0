-- ===== src/Prelude/Sums.antt =====
-- Families `ℕ → A` (one entry for each thread, slot or frame): a change at one index, and sums of a
-- weight over the first `n` indices.
use Prim.Native.Nat.{ℕ, zero, suc, ◌+◌, ◌≤◌, ◌<◌}
use mathlib.Core.Path.{◌≡◌, refl, ap}
use mathlib.Core.Bool.{Bool, true, false}
use mathlib.Core.Logic.{if_neg, if_pos, ite, ◌≢◌}
use native.Mathlib.Decide.{ℕ_discrete, dec_lt}
use native.Mathlib.Omega.{arith}

abbrev pub update {ℓ} : {A : Type ℓ} → (ℕ → A) → ℕ → A → ℕ → A
update f i a j = ite (ℕ_discrete i j) a (f j)

pub at_index {ℓ} : {A : Type ℓ} (f : ℕ → A) (i : ℕ) (a : A) (j : ℕ) → i ≡ j → update f i a j ≡ a
at_index f i a j e = if_pos (ℕ_discrete i j) e _ _

pub off_index {ℓ} : {A : Type ℓ} (f : ℕ → A) (i : ℕ) (a : A) (j : ℕ) → i ≢ j → update f i a j ≡ f j
off_index f i a j d = if_neg (ℕ_discrete i j) d _ _

module _ {ℓ} {A : Type ℓ} (weight : A → ℕ) where
  pub sum_to : ℕ → (ℕ → A) → ℕ
  sum_to zero f = 0
  sum_to (suc n) f = weight (f n) + sum_to n f

  sum_to-update_beyond :
      (n : ℕ) (f : ℕ → A) (i : ℕ) (a : A) → n ≤ i → sum_to n (update f i a) ≡ sum_to n f
  unfolding sum_to
  sum_to-update_beyond zero f i a h = refl
  sum_to-update_beyond (suc n) f i a h = ground (arith, sum_to-update_beyond n f i a)

  -- A change at one index moves the sum by the change of that entry's weight.
  pub sum_to-update :
      (n : ℕ) (f : ℕ → A) (i : ℕ) (a : A)
      → i < n
      → sum_to n (update f i a) + weight (f i) ≡ sum_to n f + weight a
  unfolding sum_to
  sum_to-update zero f i a h = absurd (omega arith)
  sum_to-update (suc n) f i a h = elim (dec_lt i n) [
    | yes below ↦ ground (arith, sum_to-update n f i a below)
    | no last ↦ ground (arith, sum_to-update_beyond n f i a)
  ]

  -- Each entry's weight is part of the sum.
  pub sum_to-ge : (n : ℕ) (f : ℕ → A) (i : ℕ) → i < n → weight (f i) ≤ sum_to n f
  unfolding sum_to
  sum_to-ge zero f i h = absurd (omega arith)
  sum_to-ge (suc n) f i h = elim (dec_lt i n) [
    | yes below ↦ omega (arith, sum_to-ge n f i below)
    | no last ↦ let e : i ≡ n = omega arith in ground arith
  ]

  sum_to-ge_ordered :
      (n : ℕ) (f : ℕ → A) (i j : ℕ) → i < j → j < n → weight (f i) + weight (f j) ≤ sum_to n f
  unfolding sum_to
  sum_to-ge_ordered zero f i j h k = absurd (omega arith)
  sum_to-ge_ordered (suc n) f i j h k = elim (dec_lt j n) [
    | yes below ↦ omega (arith, sum_to-ge_ordered n f i j h below)
    | no last ↦ let e : j ≡ n = omega arith in ground (arith, sum_to-ge n f i (omega arith))
  ]

  -- The weights of two different entries are both part of the sum.
  pub sum_to-ge_pair :
      (n : ℕ) (f : ℕ → A) (i j : ℕ)
      → i ≢ j
      → i < n
      → j < n
      → weight (f i) + weight (f j) ≤ sum_to n f
  sum_to-ge_pair n f i j d hi hj = elim (dec_lt i j) [
    | yes lt ↦ sum_to-ge_ordered n f i j lt hj
    | no ge ↦ omega (arith, sum_to-ge_ordered n f j i (omega arith) hi)
  ]

  -- A family of entries that weigh nothing.
  pub sum_to-zero : (n : ℕ) (f : ℕ → A) → ((i : ℕ) → weight (f i) ≡ 0) → sum_to n f ≡ 0
  unfolding sum_to
  sum_to-zero zero f h = refl
  sum_to-zero (suc n) f h = omega (arith, h n, sum_to-zero n f h)

  pub sum_to-le : ((a : A) → weight a ≤ 1) → (n : ℕ) (f : ℕ → A) → sum_to n f ≤ n
  unfolding sum_to
  sum_to-le small zero f = omega arith
  sum_to-le small (suc n) f = omega (arith, small (f n), sum_to-le small n f)

  -- A family whose first `n` entries weigh one each.
  pub sum_to-ones : (n : ℕ) (f : ℕ → A) → ((i : ℕ) → i < n → weight (f i) ≡ 1) → sum_to n f ≡ n
  unfolding sum_to
  sum_to-ones zero f h = refl
  sum_to-ones (suc n) f h =
      omega (arith, h n (omega arith), sum_to-ones n f (λ i lt. h i (omega arith)))

-- Where one weight counts nothing, a weight that is nothing wherever the first is counts nothing.
pub sum_to-none {ℓ} :
    {A : Type ℓ} (v w : A → ℕ) (n : ℕ) (f : ℕ → A)
    → ((a : A) → v a ≡ 0 → w a ≡ 0)
    → sum_to v n f ≡ 0
    → sum_to w n f ≡ 0
unfolding sum_to
sum_to-none v w zero f h e = refl
sum_to-none v w (suc n) f h e =
    omega (arith, h (f n) (omega arith), sum_to-none v w n f h (omega arith))

-- Marks, counted.
abbrev pub bit : Bool → ℕ
bit true = 1
bit false = 0

pub bit-le : (b : Bool) → bit b ≤ 1
bit-le b = ground arith

-- A missing mark leaves the count short.
pub sum_to-lt : (n : ℕ) (f : ℕ → Bool) (i : ℕ) → i < n → f i ≡ false → sum_to bit n f < n
sum_to-lt n f i lt e =
    omega
      (arith, sum_to-update bit n f i true lt, ap bit e, sum_to-le bit bit-le n (update f i true))
