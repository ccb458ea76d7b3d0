-- ===== src/Policy/Economic.antt =====
-- crates/tierbuf/src/policy/economic.rs, with the interface of crates/tierbuf/src/policy/mod.rs: the
-- placement of pages by their price in DRAM and the cost of reading them again.
pub mod Targets
mod Tests
use tierbuf.Prelude.{
  ℕ, ◌*◌, ◌^◌, ◌≤◌, ◌≡◌, Bool, true, false, not, ◌&&◌, ◌||◌, Option, none, some, List, [], ◌∷◌, leb,
  ◌==◌, if◌then◌else◌, filter, min_by,
}
use tierbuf.Heat.{current_heat_raw, heat_one}
use tierbuf.Frame.{Frame}
use tierbuf.Tier.File.{page_size}
use tierbuf.Policy.Floats.{F64}

pub data AccessHint : Type 0 where
  normal scan prefetch : AccessHint

-- The checks of the configuration, in their order.
pub data ConfigError : Type 0 where
  bad_dram_price bad_epoch bad_cpu_cost bad_read_cost : ConfigError

abbrev pub has_budget : Option ℕ → Bool
has_budget none = true
has_budget (some remaining) = leb page_size remaining

abbrev pub is_some : {A : Type 0} → Option A → Bool
is_some none = false
is_some (some _) = true

module _ (f : F64) where
  pub record EconomicConfig : Type 0 where
    pub dram_price_gb_month : f.F
    pub epoch_seconds : f.F
    pub cpu_cost_usd_per_us : f.F
    pub read_opportunity_cost_usd : f.F

  pub record TierInfo : Type 0 where
    pub index : ℕ
    pub price_gb_month : f.F
    pub read_latency_us : f.F
    pub write_budget_remaining_bytes : Option ℕ

  -- `!x.is_finite() || x <= 0.0`
  unfoldable pub is_not_positive : f.F → Bool
  is_not_positive x = not (f.is_finite x) || f.at_most x (f.of_nat 0)

  -- `!x.is_finite() || x < 0.0`
  unfoldable pub is_negative : f.F → Bool
  is_negative x = not (f.is_finite x) || f.less x (f.of_nat 0)

  -- The first check that fails.
  unfoldable pub validate_config : EconomicConfig → Option ConfigError
  validate_config c =
      if is_not_positive c.dram_price_gb_month
      then some bad_dram_price
      else if is_not_positive c.epoch_seconds
      then some bad_epoch
      else if is_negative c.cpu_cost_usd_per_us
      then some bad_cpu_cost
      else if is_negative c.read_opportunity_cost_usd
      then some bad_read_cost
      else none

  -- `is_some_and(|break_even| reaccess_seconds >= break_even)`
  abbrev pub is_past : f.F → Option f.F → Bool
  is_past reaccess none = false
  is_past reaccess (some break_even) = f.at_most break_even reaccess

  abbrev pub target : Option TierInfo → Option TierInfo → Option ℕ
  target none cheapest = none
  target (some fastest) none = some fastest.index
  target (some fastest) (some cheapest) = some cheapest.index

  unfoldable pub gib_bytes : f.F
  gib_bytes = f.mul (f.mul (f.of_nat 1024) (f.of_nat 1024)) (f.of_nat 1024)

  unfoldable pub month_seconds : f.F
  month_seconds = f.mul (f.mul (f.mul (f.of_nat 30) (f.of_nat 24)) (f.of_nat 60)) (f.of_nat 60)

  module _ (c : EconomicConfig) where
    unfoldable pub dram_page_cost_per_second : f.F
    dram_page_cost_per_second =
        f.div (f.div (f.mul c.dram_price_gb_month (f.of_nat page_size)) gib_bytes) month_seconds

    unfoldable pub read_opportunity_cost : TierInfo → Option f.F
    read_opportunity_cost t =
        if is_negative t.read_latency_us
        then none
        else (let cost =
              f.add (f.mul t.read_latency_us c.cpu_cost_usd_per_us) c.read_opportunity_cost_usd in
            if f.is_finite cost then some cost else none)

    abbrev pub map_cost : Option f.F → Option f.F
    map_cost none = none
    map_cost (some read_cost) = some (f.div read_cost dram_page_cost_per_second)

    unfoldable pub break_even_seconds : TierInfo → Option f.F
    break_even_seconds t = map_cost (read_opportunity_cost t)

    unfoldable pub estimated_reaccess_seconds : (epoch : ℕ) → Frame → f.F
    estimated_reaccess_seconds epoch frame =
        let raw_heat = current_heat_raw epoch frame.heat_epoch in
        if raw_heat == 0
        then f.infinity
        else f.div (f.mul c.epoch_seconds (f.of_nat heat_one)) (f.of_nat raw_heat)

    unfoldable pub is_eligible : TierInfo → Bool
    is_eligible t =
        f.is_finite t.price_gb_month
        && (f.at_most (f.of_nat 0) t.price_gb_month
            && (is_some (read_opportunity_cost t) && has_budget t.write_budget_remaining_bytes))

    unfoldable pub demotion_target : (epoch : ℕ) → Frame → List TierInfo → Option ℕ
    demotion_target epoch frame tiers =
        let reaccess = estimated_reaccess_seconds epoch frame in
        target
          (min_by (λ l r. f.total_le l.read_latency_us r.read_latency_us)
            (filter is_eligible tiers))
          (min_by (λ l r. f.total_le l.price_gb_month r.price_gb_month)
            (filter (λ t. is_past reaccess (break_even_seconds t)) (filter is_eligible tiers)))

unfoldable pub admit_to_dram : (pid : ℕ) → AccessHint → Bool
admit_to_dram pid scan = false
admit_to_dram pid _ = true
