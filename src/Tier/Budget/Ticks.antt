-- ===== src/Tier/Budget/Ticks.antt =====
-- The refill of a write budget loses no fraction of a byte.
use tierbuf.Prelude.{
  ℕ, ◌+◌, ◌-◌, ◌*◌, ◌/◌, ◌%◌, ◌≤◌, ◌<◌, min, ◌≡◌, sym, arith, leb, if◌then◌else◌, dec_lt, ◌⊎◌, inl,
  inr, ap, ◌∙◌,
}
use tierbuf.Tier.Budget.{
  nanos_per_day, WriteBudget, max_u64, refill, partial_credit, refill_bytes, new_remainder, tick,
}

-- A bucket never holds more than a day's allowance, nor a whole byte of fractional credit.
pub record IsBudget (b : WriteBudget) : Type 0 where
  pub allowance : b.daily_allowance_bytes ≤ max_u64
  pub bounded : b.available_bytes ≤ b.daily_allowance_bytes
  pub fraction : b.refill_remainder < nanos_per_day

-- What a tick is in numbers, with `x` for the day's allowance times the nanoseconds.
mul_lt : (e d : ℕ) → e < nanos_per_day → e * d ≤ (nanos_per_day - 1) * d
mul_lt e d h = grind arith

credit-le : (d e : ℕ) → partial_credit d e ≤ (nanos_per_day - 1) * d
unfolding partial_credit
credit-le d e = mul_lt (e % nanos_per_day) d (omega arith)

credit_none : (d : ℕ) → partial_credit d 0 ≡ 0
unfolding partial_credit
credit_none d = omega arith

credit_zero : (e : ℕ) → partial_credit 0 e ≡ 0
unfolding partial_credit
credit_zero e = omega arith

-- The tick without its early returns, which change nothing.
tick_lem :
    (e : ℕ) (b : WriteBudget)
    → IsBudget b
    → tick e b ≡ (
        let credit = partial_credit b.daily_allowance_bytes e + b.refill_remainder in
        record b {
          available_bytes =
              if leb nanos_per_day e
              then b.daily_allowance_bytes
              else min (b.available_bytes + credit / nanos_per_day) b.daily_allowance_bytes;
          refill_remainder = credit % nanos_per_day;
        })
unfolding tick refill_bytes new_remainder refill
tick_lem e b v =
    ground (
      arith,
      credit-le b.daily_allowance_bytes e,
      credit_none b.daily_allowance_bytes,
      credit_zero e,
    )

mul_add : (a b d : ℕ) → (a + b) * d ≡ a * d + b * d
mul_add a b d = grind arith

-- Credits of two ticks add up, but for a whole day's.
credit_sum :
    (d x y : ℕ)
    → ((x % nanos_per_day + y % nanos_per_day < nanos_per_day)
        × (partial_credit d (x + y) ≡ partial_credit d x + partial_credit d y))
      ⊎ ((nanos_per_day ≤ x % nanos_per_day + y % nanos_per_day)
          × (partial_credit d (x + y) + nanos_per_day * d
              ≡ partial_credit d x + partial_credit d y))
unfolding partial_credit
credit_sum d x y = elim (dec_lt (x % nanos_per_day + y % nanos_per_day) nanos_per_day) [
  | yes small ↦
      let e : (x + y) % nanos_per_day ≡ x % nanos_per_day + y % nanos_per_day = omega arith in
      inl (small, rw e (mul_add (x % nanos_per_day) (y % nanos_per_day) d))
  | no large ↦
      let e : x % nanos_per_day + y % nanos_per_day ≡ (x + y) % nanos_per_day + nanos_per_day =
        omega arith in
      inr (
        omega arith,
        omega (
          arith,
          mul_add (x % nanos_per_day) (y % nanos_per_day) d,
          mul_add ((x + y) % nanos_per_day) nanos_per_day d,
          ap (λ (t : ℕ). t * d) e,
        ),
      )
]

-- Every tick keeps the bucket well-formed.
pub tick-IsBudget : (e : ℕ) (b : WriteBudget) → IsBudget b → IsBudget (tick e b)
tick-IsBudget e b v = rw (tick_lem e b v) (ground arith)

abbrev filled : (d e a r : ℕ) → ℕ
filled d e a r =
    if leb nanos_per_day e then d else min (a + (partial_credit d e + r) / nanos_per_day) d

filled_twice :
    (d x y a r : ℕ)
    → a ≤ d
    → r < nanos_per_day
    → filled d y (filled d x a r) ((partial_credit d x + r) % nanos_per_day) ≡ filled d (x + y) a r
filled_twice d x y a r le lt = ground (arith, credit_sum d x y, small_credit d x, small_credit d y)
  where
    small_credit : (d e : ℕ) → partial_credit d e ≤ (nanos_per_day - 1) * d
    small_credit d e = credit-le d e

remainder_twice :
    (d x y r : ℕ)
    → (partial_credit d y + (partial_credit d x + r) % nanos_per_day) % nanos_per_day
      ≡ (partial_credit d (x + y) + r) % nanos_per_day
remainder_twice d x y r = elim (credit_sum d x y) [
  | inl (_, e) ↦ omega arith
  | inr (_, e) ↦ omega arith
]

after_tick : ℕ → WriteBudget → WriteBudget
after_tick e b = record b {
  available_bytes = filled b.daily_allowance_bytes e b.available_bytes b.refill_remainder;
  refill_remainder =
      (partial_credit b.daily_allowance_bytes e + b.refill_remainder) % nanos_per_day;
}

twice :
    (x y : ℕ) (b : WriteBudget) → IsBudget b → after_tick y (after_tick x b) ≡ after_tick (x + y) b
unfolding after_tick
twice x y b v =
    let d = b.daily_allowance_bytes in
    ap (λ (p : ℕ × ℕ). record b { available_bytes = p.0; refill_remainder = p.1 })
      (λ i. (
        filled_twice d x y b.available_bytes b.refill_remainder v.bounded v.fraction i,
        remainder_twice d x y b.refill_remainder i,
      ))

tick-after : (e : ℕ) (b : WriteBudget) → IsBudget b → tick e b ≡ after_tick e b
unfolding after_tick
tick-after e b v = tick_lem e b v

-- Two ticks refill exactly as one tick of the sum of their times: the bytes, the fraction that is
-- kept and the cap included.
tick-add : (x y : ℕ) (b : WriteBudget) → IsBudget b → tick y (tick x b) ≡ tick (x + y) b
tick-add x y b v =
    tick-after y (tick x b) (tick-IsBudget x b v)
    ∙ ap (after_tick y) (tick-after x b v)
    ∙ twice x y b v
    ∙ sym (tick-after (x + y) b v)
