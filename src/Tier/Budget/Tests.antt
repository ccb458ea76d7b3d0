-- ===== src/Tier/Budget/Tests.antt =====
-- The theorems of `Tier.Budget` at concrete inputs.
use tierbuf.Prelude.{ℕ, ◌/◌, ◌≡◌, refl, Bool, true, false, List, [], ◌∷◌, arith, ℕ_discrete}
use tierbuf.Tier.Budget.{
  nanos_per_day, WriteBudget, from_daily_allowance, try_update_once, consume, try_consume, refill,
  partial_credit, refill_bytes, new_remainder, tick,
}
use tierbuf.Tier.Budget.Ticks.{IsBudget}
use tierbuf.Tier.Budget.Rounds.{
  Update, consuming, refilling, Tally, budget_rounds, IsCovered, budget_rounds-IsCovered,
}

-- The test `budget_retains_fractional_refill_credit` of the source: one byte a day, half a day twice.
abbrev drained : WriteBudget
drained = record { daily_allowance_bytes = 1; available_bytes = 0; refill_remainder = 0 }

drained_result : try_consume 1 (from_daily_allowance 1) ≡ (drained, true)
unfolding try_consume from_daily_allowance try_update_once consume ℕ_discrete
drained_result = refl

half_days : (tick (nanos_per_day / 2) (tick (nanos_per_day / 2) drained)).available_bytes ≡ 1
unfolding tick refill_bytes new_remainder refill partial_credit
half_days = refl

drained-IsBudget : IsBudget drained
drained-IsBudget = record { allowance = omega arith; bounded = omega arith; fraction = omega arith }

-- Two consumers of 40 of 64 bytes, of which one is too late, and a refill.
abbrev three_rounds : List (Bool × ℕ × Update)
three_rounds = (false, 64, consuming 40) ∷ (false, 64, consuming 40) ∷ (false, 24, refilling 8) ∷ []

abbrev tally : Tally
tally = record { available = 64; granted = 0; added = 0 }

budget_rounds-IsCovered_example : IsCovered 64 64 (budget_rounds 64 three_rounds tally)
budget_rounds-IsCovered_example = budget_rounds-IsCovered 64 64 three_rounds tally (record {
  allowance = omega arith;
  covered = omega arith;
  bounded = omega arith;
  exact = λ e. refl;
})
