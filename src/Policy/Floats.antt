-- ===== src/Policy/Floats.antt =====
-- `f64`, as far as the sources compute with it. The comparisons are false on NaN; `total_cmp` orders
-- all values.
use tierbuf.Prelude.{ℕ, ◌≡◌, Bool, true, false}

pub record F64 : Type 1 where
  pub F : Type 0
  pub of_nat : ℕ → F
  pub infinity : F
  pub is_finite : F → Bool
  pub less : F → F → Bool
  pub at_most : F → F → Bool
  pub total_le : F → F → Bool
  pub add : F → F → F
  pub mul : F → F → F
  pub div : F → F → F
  pub total_le-total : (a b : F) → total_le a b ≡ false → total_le b a ≡ true
  pub total_le-trans : (a b c : F) → total_le a b ≡ true → total_le b c ≡ true → total_le a c ≡ true
