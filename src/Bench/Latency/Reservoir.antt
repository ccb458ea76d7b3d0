-- ===== src/Bench/Latency/Reservoir.antt =====
-- The reservoir keeps a sample of what was recorded, within its capacity.
use tierbuf.Prelude.{
  subst, ℕ, ◌+◌, ◌-◌, ◌%◌, ◌^◌, ◌≤◌, ◌≡◌, refl, ◌∙◌, min, List, [], ◌∷◌, ◌++◌, length,
  length-append, set, suc, zero, ltb, ◌==◌, if◌then◌else◌, if-cases, All, arith,
}
use tierbuf.Bench.Workload.{next_u64}
use tierbuf.Bench.Latency.{LatencySampler, new_sampler, record_latency}

unfoldable pub record_all : List ℕ → LatencySampler → LatencySampler
record_all [] s = s
record_all (x ∷ xs) s = record_all xs (record_latency x s)

module _ (P : ℕ → Type 0) where
  All-snoc : (xs : List ℕ) (a : ℕ) → All P xs → P a → All P (xs ++ a ∷ [])
  All-snoc [] a h p = (p, tt)
  All-snoc (x ∷ xs) a h p = (h.0, All-snoc xs a h.1 p)

  All-set : (xs : List ℕ) (i a : ℕ) → All P xs → P a → All P (set xs i a)
  All-set [] i a h p = tt
  All-set (x ∷ xs) zero a h p = (p, h.1)
  All-set (x ∷ xs) (suc i) a h p = (h.0, All-set xs i a h.1 p)

length-set : (xs : List ℕ) (i a : ℕ) → length (set xs i a) ≡ length xs
length-set [] i a = refl
length-set (x ∷ xs) zero a = refl
length-set (x ∷ xs) (suc i) a = omega (arith, length-set xs i a)

-- After `n` latencies, all with the property.
pub record IsSample (P : ℕ → Type 0) (n : ℕ) (s : LatencySampler) : Type 0 where
  pub seen : s.seen ≡ min n (2 ^ 64 - 1)
  pub filled : length s.values ≡ min n s.capacity
  pub taken : All P s.values

module _ (P : ℕ → Type 0) where
  record-IsSample :
      (n x : ℕ) (s : LatencySampler)
      → P x
      → IsSample P n s
      → IsSample P (n + 1) (record_latency x s)
  unfolding record_latency
  record-IsSample n x s p v =
      if-cases (IsSample P (n + 1)) (ltb (length s.values) s.capacity) _ _
        (λ room. record {
          seen = omega (arith, v.seen);
          filled =
              let more : length s.values + 1 ≤ s.capacity = ground arith in
              omega (arith, length-append s.values (x ∷ []), v.filled);
          taken = All-snoc P s.values x v.taken p;
        })
        (λ full.
          let at_most : s.capacity ≤ length s.values = ground arith in
          if-cases (IsSample P (n + 1)) (s.capacity == 0) _ _
            (λ empty. record {
              seen = omega (arith, v.seen);
              filled = omega (arith, v.filled);
              taken = v.taken;
            })
            (λ held.
              let i = next_u64 s.random % min (s.seen + 1) (2 ^ 64 - 1) in
              let same : length (if ltb i s.capacity then set s.values i x else s.values)
                  ≡ length s.values =
                if-cases (λ (l : List ℕ). length l ≡ length s.values) (ltb i s.capacity) _ _
                  (λ _. length-set s.values i x) (λ _. refl) in
              record {
                seen = omega (arith, v.seen);
                filled = same ∙ omega (arith, v.filled, at_most);
                taken =
                    if-cases (All P) (ltb i s.capacity) _ _ (λ _. All-set P s.values i x v.taken p)
                      (λ _. v.taken);
              }))

  all-IsSample :
      (xs : List ℕ) (n : ℕ) (s : LatencySampler)
      → All P xs
      → IsSample P n s
      → IsSample P (n + length xs) (record_all xs s)
  unfolding record_all
  all-IsSample [] n s h v = subst (λ m. IsSample P m s) (omega arith) v
  all-IsSample (x ∷ xs) n s h v =
      subst (λ m. IsSample P m (record_all xs (record_latency x s))) (omega arith)
        (all-IsSample xs (n + 1) (record_latency x s) h.1 (record-IsSample n x s h.0 v))

record-capacity : (x : ℕ) (s : LatencySampler) → (record_latency x s).capacity ≡ s.capacity
unfolding record_latency
record-capacity x s = ground arith

record_all-capacity : (xs : List ℕ) (s : LatencySampler) → (record_all xs s).capacity ≡ s.capacity
unfolding record_all
record_all-capacity [] s = refl
record_all-capacity (x ∷ xs) s = record_all-capacity xs (record_latency x s) ∙ record-capacity x s

-- After any latencies, a new sampler holds as many of them as its capacity allows, and only such.
pub record_all-samples :
    (P : ℕ → Type 0) (seed capacity : ℕ) (xs : List ℕ)
    → All P xs
    → (length (record_all xs (new_sampler seed capacity)).values ≡ min (length xs) capacity)
      × All P (record_all xs (new_sampler seed capacity)).values
unfolding new_sampler
record_all-samples P seed capacity xs h =
    let start = new_sampler seed capacity in
    let v =
      all-IsSample P xs 0 start h
        (record { seen = omega arith; filled = omega arith; taken = tt }) in
    (omega (arith, v.filled, record_all-capacity xs start), v.taken)
