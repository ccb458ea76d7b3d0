-- ===== src/Bench/Latency/Ranks.antt =====
-- A percentile is the sample at the nearest rank.
use tierbuf.Prelude.{
  ℕ, suc, zero, ◌+◌, ◌-◌, ◌*◌, ◌/◌, ◌^◌, ◌≤◌, ◌<◌, ◌≡◌, refl, sym, ap, ◌∙◌, subst, Bool, true,
  false, ◌&&◌, some, List, [], ◌∷◌, length, get_elem?, ltb, leb, ◌==◌, if◌then◌else◌, All, arith,
  done, Bool-cases, inl, inr,
}
use native.Mathlib.Nat.{mul-le-mul_left}
use tierbuf.Bench.Latency.{insert_sorted, sort, percentile}

-- How many entries pass a test.
abbrev pub count_if : (ℕ → Bool) → List ℕ → ℕ
count_if p [] = 0
count_if p (x ∷ xs) = (if p x then 1 else 0) + count_if p xs

abbrev IsSorted : List ℕ → Type 0
IsSorted [] = Unit
IsSorted (x ∷ xs) = All (λ y. x ≤ y) xs × IsSorted xs

count_if-insert :
    (p : ℕ → Bool) (a : ℕ) (xs : List ℕ) → count_if p (insert_sorted a xs) ≡ count_if p (a ∷ xs)
unfolding insert_sorted
count_if-insert p a [] = refl
count_if-insert p a (x ∷ xs) = ground (arith, count_if-insert p a xs)

count_if-sort : (p : ℕ → Bool) (xs : List ℕ) → count_if p (sort xs) ≡ count_if p xs
unfolding sort
count_if-sort p [] = refl
count_if-sort p (x ∷ xs) =
    count_if-insert p x (sort xs) ∙ ap (λ n. (if p x then 1 else 0) + n) (count_if-sort p xs)

All-insert :
    (b a : ℕ) (xs : List ℕ) → b ≤ a → All (λ y. b ≤ y) xs → All (λ y. b ≤ y) (insert_sorted a xs)
unfolding insert_sorted
All-insert b a [] h hs = (h, tt)
All-insert b a (x ∷ xs) h hs = elim (Bool-cases (leb a x)) [
  | inl e ↦ rw e (h, hs)
  | inr e ↦ rw e (hs.0, All-insert b a xs h hs.1)
]

All-le : (a b : ℕ) (xs : List ℕ) → a ≤ b → All (λ y. b ≤ y) xs → All (λ y. a ≤ y) xs
All-le a b [] h hs = tt
All-le a b (x ∷ xs) h hs = (omega (arith, hs.0), All-le a b xs h hs.1)

insert-IsSorted : (a : ℕ) (xs : List ℕ) → IsSorted xs → IsSorted (insert_sorted a xs)
unfolding insert_sorted
insert-IsSorted a [] s = (tt, tt)
insert-IsSorted a (x ∷ xs) s = elim (Bool-cases (leb a x)) [
  | inl e ↦ let le : a ≤ x = ground arith in rw e ((le, All-le a x xs le s.0), s)
  | inr e ↦
      let le : x ≤ a = ground arith in rw e (All-insert x a xs le s.0, insert-IsSorted a xs s.1)
]

sort-IsSorted : (xs : List ℕ) → IsSorted (sort xs)
unfolding sort
sort-IsSorted [] = tt
sort-IsSorted (x ∷ xs) = insert-IsSorted x (sort xs) (sort-IsSorted xs)

none_below : (v : ℕ) (xs : List ℕ) → All (λ y. v ≤ y) xs → count_if (λ y. ltb y v) xs ≡ 0
none_below v [] h = refl
none_below v (x ∷ xs) h = ground (arith, h.0, none_below v xs h.1)

length-count : (xs : List ℕ) → length xs ≡ count_if (λ y. true) xs
length-count [] = refl
length-count (x ∷ xs) = omega (arith, length-count xs)

All-get : (a v k : ℕ) (xs : List ℕ) → All (λ y. a ≤ y) xs → get_elem? xs k ≡ some v → a ≤ v
All-get a v k [] h e = cc
All-get a v zero (x ∷ xs) h e = ground (arith, h.0)
All-get a v (suc k) (x ∷ xs) h e = All-get a v k xs h.1 e

-- The entry at index `k` of a sorted list: more than `k` entries are at most it, and at most `k` are
-- below it.
rank_of :
    (k : ℕ) (xs : List ℕ)
    → IsSorted xs
    → k < length xs
    → (v : ℕ) × (get_elem? xs k ≡ some v)
      × (k < count_if (λ y. leb y v) xs)
      × (count_if (λ y. ltb y v) xs ≤ k)
rank_of k [] s lt = absurd (omega arith)
rank_of zero (x ∷ xs) s lt = (x, refl, ground arith, ground (arith, none_below x xs s.0))
rank_of (suc k) (x ∷ xs) s lt =
    let (v, e, above, below) = rank_of k xs s.1 (omega arith) in
    let head = All-get x v k xs s.0 e in (v, e, ground (arith, head), ground arith)

length-sort : (xs : List ℕ) → length (sort xs) ≡ length xs
length-sort xs = length-count (sort xs) ∙ count_if-sort (λ y. true) xs ∙ sym (length-count xs)

-- Of samples that are not empty, and few enough for the product, the percentile `p` from 1 to 100 is
-- the sample of nearest rank: at least `p` percent of the samples are at most it, and fewer than `p`
-- percent are below it.
pub percentile-ranks :
    (samples : List ℕ) (p : ℕ)
    → 0 < length samples
    → length samples * p < 2 ^ 64
    → 1 ≤ p
    → p ≤ 100
    → (v : ℕ) × (percentile samples p ≡ done (some v))
      × (length samples * p ≤ 100 * count_if (λ y. leb y v) samples)
      × (100 * count_if (λ y. ltb y v) samples < length samples * p)
unfolding percentile
percentile-ranks samples p held fits least most =
    let n = length samples * p in
    let positive : 0 < n = omega (arith, mul-le-mul_left (length samples) least) in
    let bound : n ≤ length samples * 100 = mul-le-mul_left (length samples) most in
    let k = (n + 99) / 100 - 1 in
    let (v, e, above, below) =
      rank_of k (sort samples) (sort-IsSorted samples) (omega (arith, length-sort samples)) in
    let above' = subst (λ c. k < c) (count_if-sort (λ y. leb y v) samples) above in
    let below' = subst (λ c. c ≤ k) (count_if-sort (λ y. ltb y v) samples) below in
    let given : (leb 1 p && leb p 100) ≡ true = ground arith in
    let nonempty : (length samples == 0) ≡ false = ground arith in
    let small : ltb n (2 ^ 64) ≡ true = ground arith in
    (v, rw given (rw nonempty (rw small (ap done e))), omega arith, omega arith)
