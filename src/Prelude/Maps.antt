-- ===== src/Prelude/Maps.antt =====
-- `HashMap` with numbers for keys, as an association list; `insert` and `remove` touch the one entry
-- of a key.
use Prim.Native.Nat.{ℕ, ◌+◌}
use mathlib.Core.Path.{◌≡◌, refl, sym, ap, subst, ◌∙◌}
use mathlib.Core.Logic.{if_pos, if_neg, ◌≢◌, ite}
use mathlib.Core.List.{List, [], ◌∷◌}
use mathlib.Core.Option.{Option, none, some}
use native.Mathlib.Omega.{arith}
use native.Mathlib.Decide.{ℕ_discrete}
use tierbuf.Prelude.Lists.{length}

abbrev pub HashMap : Type 0 → Type 0
HashMap V = List (ℕ × V)

module _ {V : Type 0} where
  unfoldable pub get : (k : ℕ) → HashMap V → Option V
  get k [] = none
  get k ((j, v) ∷ m) = ite (ℕ_discrete j k) (some v) (get k m)

  unfoldable pub remove : (k : ℕ) → HashMap V → HashMap V
  remove k [] = []
  remove k ((j, v) ∷ m) = ite (ℕ_discrete j k) (remove k m) ((j, v) ∷ remove k m)

  unfoldable pub insert : (k : ℕ) → V → HashMap V → HashMap V
  insert k v m = (k, v) ∷ remove k m

  -- No key stands twice.
  abbrev pub IsMap : HashMap V → Type 0
  IsMap [] = Unit
  IsMap ((k, v) ∷ m) = (get k m ≡ none) × IsMap m

  pub get-remove : (k : ℕ) (m : HashMap V) → get k (remove k m) ≡ none
  unfolding get remove
  get-remove k [] = refl
  get-remove k ((j, v) ∷ m) = ground (arith, get-remove k m)

  pub get-remove_other : (k j : ℕ) (m : HashMap V) → j ≢ k → get j (remove k m) ≡ get j m
  unfolding get remove
  get-remove_other k j [] d = refl
  get-remove_other k j ((i, v) ∷ m) d = ground (arith, get-remove_other k j m d)

  pub get-insert : (k : ℕ) (v : V) (m : HashMap V) → get k (insert k v m) ≡ some v
  unfolding get insert
  get-insert k v m = ground arith

  pub get-insert_other : (k j : ℕ) (v : V) (m : HashMap V) → j ≢ k → get j (insert k v m) ≡ get j m
  unfolding get insert
  get-insert_other k j v m d = ground (arith, get-remove_other k j m d)

  pub remove-IsMap : (k : ℕ) (m : HashMap V) → IsMap m → IsMap (remove k m)
  unfolding remove
  remove-IsMap k [] h = h
  remove-IsMap k ((j, v) ∷ m) h =
      elim (ℕ_discrete j k) as (λ d. IsMap (ite d (remove k m) ((j, v) ∷ remove k m))) [
        | yes e ↦ remove-IsMap k m h.1
        | no d ↦ (get-remove_other k j m d ∙ h.0, remove-IsMap k m h.1)
      ]

  pub insert-IsMap : (k : ℕ) (v : V) (m : HashMap V) → IsMap m → IsMap (insert k v m)
  unfolding insert
  insert-IsMap k v m h = (get-remove k m, remove-IsMap k m h)

  pub length-remove_absent :
      (k : ℕ) (m : HashMap V) → get k m ≡ none → length (remove k m) ≡ length m
  unfolding get remove
  length-remove_absent k [] e = refl
  length-remove_absent k ((j, v) ∷ m) e = ground (arith, length-remove_absent k m)

  pub length-remove_present :
      (k : ℕ) (v : V) (m : HashMap V)
      → IsMap m
      → get k m ≡ some v
      → length (remove k m) + 1 ≡ length m
  unfolding get remove
  length-remove_present k v ((j, w) ∷ m) h e =
      ground (arith, length-remove_present k v m h.1, length-remove_absent k m)
  length-remove_present k v [] h e = ground arith

  pub length-insert :
      (k : ℕ) (v : V) (m : HashMap V) → get k m ≡ none → length (insert k v m) ≡ length m + 1
  unfolding insert
  length-insert k v m e = omega (arith, length-remove_absent k m e)

  -- The weights of all values.
  unfoldable pub total : (V → ℕ) → HashMap V → ℕ
  total weight [] = 0
  total weight ((k, v) ∷ m) = weight v + total weight m

  pub total-remove_absent :
      (weight : V → ℕ) (k : ℕ) (m : HashMap V)
      → get k m ≡ none
      → total weight (remove k m) ≡ total weight m
  unfolding get remove total
  total-remove_absent weight k [] e = refl
  total-remove_absent weight k ((j, v) ∷ m) e = ground (arith, total-remove_absent weight k m)

  pub total-remove_present :
      (weight : V → ℕ) (k : ℕ) (v : V) (m : HashMap V)
      → IsMap m
      → get k m ≡ some v
      → total weight (remove k m) + weight v ≡ total weight m
  unfolding get remove total
  total-remove_present weight k v ((j, w) ∷ m) h e = elim (ℕ_discrete j k) [
    | yes same ↦
        let at : some w ≡ some v = sym (if_pos (ℕ_discrete j k) same _ _) ∙ e in
        let value : w ≡ v = cc in
        let gone : get k m ≡ none = subst (λ x. get x m ≡ none) same h.0 in
        rw (if_pos (ℕ_discrete j k) same)
          (omega (arith, total-remove_absent weight k m gone, ap weight value))
    | no d ↦ rw (if_neg (ℕ_discrete j k) d) (
        omega
          (arith, total-remove_present weight k v m h.1 (sym (if_neg (ℕ_discrete j k) d _ _) ∙ e)))
  ]
  total-remove_present weight k v [] h e = ground arith

  pub total-insert :
      (weight : V → ℕ) (k : ℕ) (v : V) (m : HashMap V)
      → get k m ≡ none
      → total weight (insert k v m) ≡ weight v + total weight m
  unfolding insert total
  total-insert weight k v m e = omega (arith, total-remove_absent weight k m e)
