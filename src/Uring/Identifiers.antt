-- ===== src/Uring/Identifiers.antt =====
-- The search for a free identifier ends: of one more candidate than there are reads in flight one is
-- free.
use tierbuf.Prelude.{
  ℕ, suc, zero, ◌+◌, ◌-◌, ◌%◌, ◌^◌, ◌≤◌, ◌<◌, ◌≡◌, ◌≢◌, refl, subst, true, false, not, ◌&&◌, Option,
  none, some, length, arith, ◌==◌, if-cases, HashMap, IsMap, get, remove, Option-cases, inl, inr,
  get-remove_other, length-remove_present, remove-IsMap,
}
use tierbuf.Uring.{ReadRequest, is_absent, next_data, allocate_user_data}

-- The candidate that is tried `i` steps after the first identifier, which is 1.
abbrev candidate : ℕ → ℕ
candidate i = i % (2 ^ 64 - 1) + 1

next_data-candidate : (i : ℕ) → next_data (candidate i) ≡ candidate (i + 1)
unfolding next_data
next_data-candidate i = ground arith

candidates_differ : (i j : ℕ) → i < j → j < i + (2 ^ 64 - 1) → candidate j ≢ candidate i
candidates_differ i j lt le e = absurd (omega arith)

-- An identifier that is in flight does not matter to a search that does not meet it again.
allocate_user_data-remove :
    (n i j : ℕ) (m : HashMap ReadRequest)
    → i < j
    → j + n ≤ i + (2 ^ 64 - 1)
    → allocate_user_data n (candidate j) (remove (candidate i) m)
      ≡ allocate_user_data n (candidate j) m
unfolding allocate_user_data
allocate_user_data-remove zero i j m lt le = refl
allocate_user_data-remove (suc n) i j m lt le =
    let same =
      get-remove_other (candidate i) (candidate j) m (candidates_differ i j lt (omega arith)) in
    let rest = allocate_user_data-remove n i (j + 1) m (omega arith) (omega arith) in
    rw (same, next_data-candidate j, rest) refl

abbrev Returns : Option (ℕ × ℕ) → Type 0
Returns none = ⊥
Returns (some _) = Unit

allocate_user_data-Returns :
    (n i : ℕ) (m : HashMap ReadRequest)
    → IsMap m
    → length m < n
    → n ≤ 2 ^ 64 - 1
    → Returns (allocate_user_data n (candidate i) m)
unfolding allocate_user_data
allocate_user_data-Returns zero i m v lt le = absurd (omega arith)
allocate_user_data-Returns (suc n) i m v lt le = elim (Option-cases (get (candidate i) m)) [
  | inl e ↦
      let free : (not (candidate i == 0) && is_absent (get (candidate i) m)) ≡ true =
        (let pos : (candidate i == 0) ≡ false = ground arith in rw (pos, e) refl) in
      rw free tt
  | inr (r, e) ↦
      let taken : (not (candidate i == 0) && is_absent (get (candidate i) m)) ≡ false =
        (let pos : (candidate i == 0) ≡ false = ground arith in rw (pos, e) refl) in
      let rest =
        allocate_user_data-Returns n (i + 1) (remove (candidate i) m)
          (remove-IsMap (candidate i) m v)
          (omega (arith, length-remove_present (candidate i) r m v e)) (omega arith) in
      rw (taken, next_data-candidate i)
        (subst Returns (allocate_user_data-remove n i (i + 1) m (omega arith) (omega arith)) rest)
]

-- What the search answers: an identifier that is free, and one that can be tried next.
abbrev pub Found : HashMap ReadRequest → Option (ℕ × ℕ) → Type 0
Found m none = ⊥
Found m (some (user_data, next)) =
    (get user_data m ≡ none) × (0 < user_data) × (0 < next) × (next < 2 ^ 64)

next_data-bound : (x : ℕ) → (0 < next_data x) × (next_data x < 2 ^ 64)
unfolding next_data
next_data-bound x = ground arith

absent : (o : Option ReadRequest) → is_absent o ≡ true → o ≡ none
absent none e = refl
absent (some r) e = let no_way : false ≡ true = e in cc

Returns-Found :
    (n next : ℕ) (m : HashMap ReadRequest)
    → Returns (allocate_user_data n next m)
    → Found m (allocate_user_data n next m)
unfolding allocate_user_data
Returns-Found zero next m = λ r. r
Returns-Found (suc n) next m =
    if-cases (λ o. Returns o → Found m o) (not (next == 0) && is_absent (get next m)) _ _
      (λ y r. (
        absent (get next m) (ground arith),
        ground arith,
        (next_data-bound next).0,
        (next_data-bound next).1,
      ))
      (λ y r. Returns-Found n (next_data next) m r)

-- Fewer reads than 2^64 - 1 are in flight, and the next identifier is a valid one: the search returns,
-- and what it returns is free.
pub allocate_user_data-Found :
    (next : ℕ) (m : HashMap ReadRequest)
    → 0 < next
    → next < 2 ^ 64
    → IsMap m
    → length m + 1 < 2 ^ 64
    → Found m (allocate_user_data (length m + 1) next m)
allocate_user_data-Found next m pos lt v small =
    let at : candidate (next - 1) ≡ next = omega arith in
    Returns-Found (length m + 1) next m (
      subst (λ c. Returns (allocate_user_data (length m + 1) c m)) at
        (allocate_user_data-Returns (length m + 1) (next - 1) m v (omega arith) (omega arith)))
