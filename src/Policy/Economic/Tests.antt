-- ===== src/Policy/Economic/Tests.antt =====
-- The economic policy on a small model of the numbers.
use tierbuf.Prelude.{ℕ, ◌+◌, ◌*◌, ◌/◌, none, some, [], ◌∷◌, arith, ltb, leb}
use tierbuf.Frame.{new_frame}
use tierbuf.Policy.Floats.{F64}
use tierbuf.Policy.Economic.{EconomicConfig, TierInfo, demotion_target}
use tierbuf.Policy.Economic.Targets.{IsTarget, demotion_target-IsTarget}

-- Whole numbers; those from 10^15 on stand for infinity.
abbrev whole : F64
whole = record {
  F = ℕ;
  of_nat = λ n. n;
  infinity = 1000000000000000;
  is_finite = λ n. ltb n 1000000000000000000000;
  less = ltb;
  at_most = leb;
  total_le = leb;
  add = λ a b. a + b;
  mul = λ a b. a * b;
  div = λ a b. a / b;
  total_le-total = λ a b e. ground arith;
  total_le-trans = λ a b c e e'. ground arith;
}

abbrev config : EconomicConfig whole
config = record {
  dram_price_gb_month = 200000000000;
  epoch_seconds = 1;
  cpu_cost_usd_per_us = 1;
  read_opportunity_cost_usd = 2;
}

abbrev fast : TierInfo whole
fast = record {
  index = 7;
  price_gb_month = 10;
  read_latency_us = 1;
  write_budget_remaining_bytes = none;
}

abbrev cheap : TierInfo whole
cheap = record {
  index = 11;
  price_gb_month = 1;
  read_latency_us = 20;
  write_budget_remaining_bytes = some 65536;
}

demotion_target-IsTarget_example :
    IsTarget whole config 0 new_frame
      (fast ∷ cheap ∷ [])
      (demotion_target whole config 0 new_frame (fast ∷ cheap ∷ []))
demotion_target-IsTarget_example =
    demotion_target-IsTarget whole config 0 new_frame (fast ∷ cheap ∷ [])
