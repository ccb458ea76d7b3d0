-- ===== src/Prelude/Outcomes.antt =====
-- How a Rust call ends: it returns a value, or an `assert!`, an `expect` or an index out of bounds
-- panics.
use mathlib.Core.Bool.{Bool, true, false}

pub data Run {ℓ} (A : Type ℓ) : Type ℓ where
  done : A → Run A
  panicked : Run A

infixl 5 ◌>>=◌ ◌>>◌
abbrev pub ◌>>=◌ {ℓ κ} : {A : Type ℓ} {B : Type κ} → Run A → (A → Run B) → Run B
done a >>= f = f a
panicked >>= f = panicked

abbrev pub ◌>>◌ {ℓ} : {B : Type ℓ} → Run (Unit {0}) → Run B → Run B
m >> k = m >>= λ _. k

abbrev pub assert : Bool → Run (Unit {0})
assert true = done tt
assert false = panicked
