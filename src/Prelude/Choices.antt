-- ===== src/Prelude/Choices.antt =====
-- The entries of a list that pass a test, and the first entry that is least in an order.
use mathlib.Core.Path.{◌≡◌, refl, sym, subst}
use mathlib.Core.Logic.{inl, inr}
use mathlib.Core.Bool.{Bool, true, false}
use mathlib.Core.List.{List, [], ◌∷◌}
use mathlib.Core.Option.{Option, none, some}
use tierbuf.Prelude.Tests.{if◌then◌else◌, Bool-cases}
use tierbuf.Prelude.Lists.{In}

module _ {A : Type 0} (p : A → Bool) where
  pub filter : List A → List A
  filter [] = []
  filter (x ∷ xs) = let rest = filter xs in if p x then x ∷ rest else rest

  pub In-filter : (a : A) (xs : List A) → In a (filter xs) → In a xs × (p a ≡ true)
  unfolding filter
  In-filter a (x ∷ xs) h = elim (Bool-cases (p x)) [
    | inl e ↦ elim (rw e at h) [
      | inl same ↦ (inl same, rw same e)
      | inr i ↦ let (there, holds) = In-filter a xs i in (inr there, holds)
    ]
    | inr e ↦ let (there, holds) = In-filter a xs (rw e at h) in (inr there, holds)
  ]
  In-filter a [] h = absurd h

  pub filter-In : (a : A) (xs : List A) → In a xs → p a ≡ true → In a (filter xs)
  unfolding filter
  filter-In a (x ∷ xs) (inl same) e = let e' : p x ≡ true = rw (sym same) e in rw e' (inl same)
  filter-In a (x ∷ xs) (inr i) e = elim (Bool-cases (p x)) [
    | inl e' ↦ rw e' (inr (filter-In a xs i e))
    | inr e' ↦ rw e' (filter-In a xs i e)
  ]
  filter-In a [] i e = absurd i

module _ {A : Type 0} (le : A → A → Bool) where
  -- `Iterator::min_by`: of entries that compare equal the first stays.
  least : A → List A → A
  least x [] = x
  least x (y ∷ ys) = least (if le x y then x else y) ys

  pub min_by : List A → Option A
  unfolding least
  min_by [] = none
  min_by (x ∷ xs) = some (least x xs)

  module _ (total : (a b : A) → le a b ≡ false → le b a ≡ true)
      (trans : (a b c : A) → le a b ≡ true → le b c ≡ true → le a c ≡ true) where
    same : (a : A) → le a a ≡ true
    same a = elim (Bool-cases (le a a)) [ inl e ↦ e | inr e ↦ total a a e ]

    least-le :
        (x : A) (xs : List A)
        → (le (least x xs) x ≡ true) × ((a : A) → In a xs → le (least x xs) a ≡ true)
    unfolding least
    least-le x [] = (same x, (λ a i. absurd i))
    least-le x (y ∷ ys) = elim (Bool-cases (le x y)) [
      | inl e ↦
          let (first, rest) = least-le x ys in
          rw e
            (first, (λ a i. elim i [ inl at ↦ rw at (trans _ _ _ first e) | inr i' ↦ rest a i' ]))
      | inr e ↦
          let (first, rest) = least-le y ys in
          rw e (
            trans _ _ _ first (total x y e),
            (λ a i. elim i [ inl at ↦ rw at first | inr i' ↦ rest a i' ]),
          )
    ]

    least-In : (x : A) (xs : List A) → In (least x xs) (x ∷ xs)
    unfolding least
    least-In x [] = inl refl
    least-In x (y ∷ ys) = elim (Bool-cases (le x y)) [
      | inl e ↦
          subst (λ b. In (least (if b then x else y) ys) (x ∷ y ∷ ys)) (sym e)
            (elim (least-In x ys) [ inl at ↦ inl at | inr i ↦ inr (inr i) ])
      | inr e ↦
          subst (λ b. In (least (if b then x else y) ys) (x ∷ y ∷ ys)) (sym e) (inr (least-In y ys))
    ]

    -- The entry found is one of the list, and no entry is less.
    pub min_by-some :
        (xs : List A) (a : A) → min_by xs ≡ some a → In a xs × ((b : A) → In b xs → le a b ≡ true)
    unfolding min_by
    min_by-some (x ∷ xs) a e =
        let at : least x xs ≡ a = cc in
        (
          subst (λ k. In k (x ∷ xs)) at (least-In x xs),
          (λ b i.
              subst (λ k. le k b ≡ true) at
                (elim i [
                  | inl same ↦ rw same (least-le x xs).0
                  | inr i' ↦ (least-le x xs).1 b i'
                ])),
        )
    min_by-some [] a e = absurd (let no_way : none ≡ some a = e in cc)

  pub min_by-none : (xs : List A) → min_by xs ≡ none → xs ≡ []
  unfolding min_by
  min_by-none [] e = refl
  min_by-none (x ∷ xs) e = absurd (let no_way : some (least x xs) ≡ none = e in cc)
