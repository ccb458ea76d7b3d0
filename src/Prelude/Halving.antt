-- ===== src/Prelude/Halving.antt =====
-- Shifts right by a variable: `/ 2 ^ k`.
use Prim.Native.Nat.{ℕ, zero, suc, ◌+◌, ◌*◌, ◌/◌, ◌^◌, ◌≤◌, ◌<◌}
use mathlib.Core.Path.{◌≡◌}
use native.Mathlib.Nat.{
  pow-suc, pow-zero, div-one, div-lt_iff_lt-mul, div-mul-le_self, lt-div-mul-add,
}
use native.Mathlib.Omega.{arith}

pub pow-pos : (k : ℕ) → 0 < 2 ^ k
pow-pos zero = rw (pow-zero 2) (omega arith)
pow-pos (suc k) = rw (pow-suc 2 k) (omega (arith, pow-pos k))

mul_mono : (x y p : ℕ) → x ≤ y → x * p ≤ y * p
mul_mono x y p h = grind arith

div_double : (h p : ℕ) → 0 < p → h / (p * 2) ≡ h / p / 2
div_double h p pos =
    let a = h / p in
    let b = h / p / 2 in
    let above : h / (p * 2) < b + 1 =
      (div-lt_iff_lt-mul {k = p * 2} {x = h} {y = b + 1} (omega arith)).1 (
        omega (
          arith,
          lt-div-mul-add {a = h} {b = p} pos,
          mul_mono (a + 1) ((b + 1) * 2) p (omega arith),
        )) in
    let below : ¬ (h / (p * 2) < b) = λ small. absurd (
      omega (
        arith,
        (div-lt_iff_lt-mul {k = p * 2} {x = h} {y = b} (omega arith)).0 small,
        div-mul-le_self h p,
        mul_mono (b * 2) a p (omega arith),
      )) in
    omega arith

pub shift_suc : (h k : ℕ) → h / 2 ^ suc k ≡ h / 2 ^ k / 2
shift_suc h k = rw (pow-suc 2 k) (div_double h (2 ^ k) (pow-pos k))

pub shift_zero : (h : ℕ) → h / 2 ^ 0 ≡ h
shift_zero h = div-one h

pub shift-le : (h k : ℕ) → h / 2 ^ k ≤ h
shift-le h zero = omega (arith, shift_zero h)
shift-le h (suc k) = omega (arith, shift_suc h k, shift-le h k)
