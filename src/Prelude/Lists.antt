-- ===== src/Prelude/Lists.antt =====
-- Lists measured and indexed by native numbers, under the library's names.
use Prim.Native.Nat.{ℕ, zero, suc, ◌+◌}
use mathlib.Core.Path.{◌≡◌, refl, sym, subst}
use mathlib.Core.Logic.{◌⊎◌, inl, inr}
use mathlib.Core.List.{List, [], ◌∷◌, ◌++◌}
use mathlib.Core.Option.{Option, none, some}
use native.Mathlib.Omega.{arith}

-- A predicate that holds of each entry.
abbrev pub All {ℓ κ} : {A : Type ℓ} → (A → Type κ) → List A → Type κ
All P [] = Unit
All P (x ∷ xs) = P x × All P xs

module _ {ℓ} {A : Type ℓ} where
  abbrev pub length : List A → ℕ
  length [] = 0
  length (x ∷ xs) = suc (length xs)

  abbrev pub get_elem? : List A → ℕ → Option A
  get_elem? [] i = none
  get_elem? (x ∷ xs) zero = some x
  get_elem? (x ∷ xs) (suc i) = get_elem? xs i

  -- A write out of bounds changes nothing.
  abbrev pub set : List A → ℕ → A → List A
  set [] i v = []
  set (x ∷ xs) zero v = v ∷ xs
  set (x ∷ xs) (suc i) v = x ∷ set xs i v

  pub length-append : (xs ys : List A) → length (xs ++ ys) ≡ length xs + length ys
  length-append [] ys = omega arith
  length-append (x ∷ xs) ys = omega (arith, length-append xs ys)

module _ {A : Type 0} where
  -- The entry is somewhere in the list.
  abbrev pub In : A → List A → Type 0
  In a [] = ⊥
  In a (x ∷ xs) = (a ≡ x) ⊎ In a xs

  -- No entry stands twice.
  abbrev pub Distinct : List A → Type 0
  Distinct [] = Unit
  Distinct (x ∷ xs) = ¬ In x xs × Distinct xs

  pub In-append : (a : A) (xs ys : List A) → In a (xs ++ ys) → In a xs ⊎ In a ys
  In-append a [] ys h = inr h
  In-append a (x ∷ xs) ys (inl e) = inl (inl e)
  In-append a (x ∷ xs) ys (inr h) = elim (In-append a xs ys h) [
    | inl left ↦ inl (inr left)
    | inr right ↦ inr right
  ]

  pub In-append_left : (a : A) (xs ys : List A) → In a xs → In a (xs ++ ys)
  In-append_left a (x ∷ xs) ys (inl e) = inl e
  In-append_left a (x ∷ xs) ys (inr h) = inr (In-append_left a xs ys h)
  In-append_left a [] ys h = elim h [ ]

  pub In-append_right : (a : A) (xs ys : List A) → In a ys → In a (xs ++ ys)
  In-append_right a [] ys h = h
  In-append_right a (x ∷ xs) ys h = inr (In-append_right a xs ys h)

  -- A new entry at the end keeps the entries distinct.
  pub Distinct-snoc : (a : A) (xs : List A) → Distinct xs → ¬ In a xs → Distinct (xs ++ a ∷ [])
  Distinct-snoc a [] d n = ((λ h. h), tt)
  Distinct-snoc a (x ∷ xs) d n = (
    (λ h. elim (In-append x xs (a ∷ []) h) [
      | inl old ↦ d.0 old
      | inr (inl e) ↦ n (inl (sym e))
      | inr (inr h) ↦ h
    ]),
    Distinct-snoc a xs d.1 (λ h. n (inr h)),
  )

module _ {κ} {A : Type 0} (P : A → Type κ) where
  pub All-In : (xs : List A) → ((a : A) → In a xs → P a) → All P xs
  All-In [] h = tt
  All-In (x ∷ xs) h = (h x (inl refl), All-In xs (λ a i. h a (inr i)))

  pub In-All : (xs : List A) (a : A) → All P xs → In a xs → P a
  In-All (x ∷ xs) a h (inl e) = subst P (sym e) h.0
  In-All (x ∷ xs) a h (inr i) = In-All xs a h.1 i
  In-All [] a h i = elim i [ ]
