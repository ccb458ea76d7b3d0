-- ===== src/Policy/Economic/Targets.antt =====
-- The tier that the economic policy demotes a page to.
use tierbuf.Prelude.{
  ℕ, ◌≤◌, ◌≡◌, refl, ◌⊎◌, inl, inr, ◌↔◌, subst, Bool, true, false, Option, none, some, List, arith,
  In, filter, In-filter, filter-In, min_by, min_by-some, min_by-none,
}
use tierbuf.Frame.{Frame}
use tierbuf.Tier.File.{page_size}
use tierbuf.Policy.Floats.{F64}
use tierbuf.Policy.Economic.{
  EconomicConfig, TierInfo, is_negative, dram_page_cost_per_second, read_opportunity_cost,
  break_even_seconds, estimated_reaccess_seconds, is_eligible, has_budget, is_past, target,
  demotion_target,
}

abbrev pub HasBudget : Option ℕ → Type 0
HasBudget none = Unit
HasBudget (some remaining) = page_size ≤ remaining

has_budget_iff : (o : Option ℕ) → (has_budget o ≡ true) ↔ HasBudget o
has_budget_iff none = ground arith
has_budget_iff (some r) = ground arith

module _ (f : F64) (c : EconomicConfig f) where
  -- The cost of one read in the model.
  abbrev pub cost : TierInfo f → f.F
  cost t = f.add (f.mul t.read_latency_us c.cpu_cost_usd_per_us) c.read_opportunity_cost_usd

  -- A tier of a finite price and read cost, neither negative, that may take one more page.
  pub record IsEligible (t : TierInfo f) : Type 0 where
    pub price :
        (f.is_finite t.price_gb_month ≡ true) × (f.at_most (f.of_nat 0) t.price_gb_month ≡ true)
    pub latency :
        (f.is_finite t.read_latency_us ≡ true) × (f.less t.read_latency_us (f.of_nat 0) ≡ false)
    pub finite : f.is_finite (cost t) ≡ true
    pub budget : HasBudget t.write_budget_remaining_bytes

  -- The page is read again no sooner than keeping it in DRAM pays.
  abbrev pub IsPast : (epoch : ℕ) → Frame → TierInfo f → Type 0
  IsPast epoch frame t =
      f.at_most (f.div (cost t) (dram_page_cost_per_second f c))
        (estimated_reaccess_seconds f c epoch frame)
      ≡ true

  -- No tier, only if none is eligible. Else the tier is an eligible one of the list: the cheapest of
  -- those past their break-even, or the fastest of all if there is none past it.
  abbrev pub IsTarget : (epoch : ℕ) → Frame → List (TierInfo f) → Option ℕ → Type 0
  IsTarget epoch frame tiers none = (t : TierInfo f) → In t tiers → ¬ IsEligible t
  IsTarget epoch frame tiers (some index) =
      (t : TierInfo f) × (t.index ≡ index)
      × In t tiers
      × IsEligible t
      × ((IsPast epoch frame t
            × ((u : TierInfo f)
                → In u tiers
                → IsEligible u
                → IsPast epoch frame u
                → f.total_le t.price_gb_month u.price_gb_month ≡ true))
          ⊎ ((u : TierInfo f)
              → In u tiers
              → IsEligible u
              → ¬ IsPast epoch frame u × (f.total_le t.read_latency_us u.read_latency_us ≡ true)))

  cost_of :
      (t : TierInfo f)
      → f.is_finite t.read_latency_us ≡ true
      → f.less t.read_latency_us (f.of_nat 0) ≡ false
      → f.is_finite (cost t) ≡ true
      → read_opportunity_cost f c t ≡ some (cost t)
  unfolding read_opportunity_cost is_negative
  cost_of t a b d = ground arith

  eligible : (t : TierInfo f) → IsEligible t → is_eligible f c t ≡ true
  unfolding is_eligible
  eligible t h =
      rw (h.price.0, h.price.1, cost_of t h.latency.0 h.latency.1 h.finite)
        ((has_budget_iff t.write_budget_remaining_bytes).1 h.budget)

  is_eligible-IsEligible : (t : TierInfo f) → is_eligible f c t ≡ true → IsEligible t
  unfolding is_eligible read_opportunity_cost is_negative
  is_eligible-IsEligible t e = record {
    price = (ground arith, ground arith);
    latency = (ground arith, ground arith);
    finite = ground arith;
    budget = (has_budget_iff t.write_budget_remaining_bytes).0 (ground arith);
  }

  is_past_iff :
      (epoch : ℕ) (frame : Frame) (t : TierInfo f)
      → IsEligible t
      → (is_past f (estimated_reaccess_seconds f c epoch frame) (break_even_seconds f c t) ≡ true)
        ↔ IsPast epoch frame t
  unfolding break_even_seconds
  is_past_iff epoch frame t h = rw (cost_of t h.latency.0 h.latency.1 h.finite) ((λ e. e), (λ e. e))

  module _ (epoch : ℕ) (frame : Frame) (tiers : List (TierInfo f)) where
    abbrev able : List (TierInfo f)
    able = filter (is_eligible f c) tiers

    abbrev passes : TierInfo f → Bool
    passes t = is_past f (estimated_reaccess_seconds f c epoch frame) (break_even_seconds f c t)

    abbrev past : List (TierInfo f)
    past = filter passes able

    abbrev quicker : TierInfo f → TierInfo f → Bool
    quicker l r = f.total_le l.read_latency_us r.read_latency_us

    abbrev cheaper : TierInfo f → TierInfo f → Bool
    cheaper l r = f.total_le l.price_gb_month r.price_gb_month

    able-In : (t : TierInfo f) → In t tiers → IsEligible t → In t able
    able-In t i h = filter-In (is_eligible f c) t tiers i (eligible t h)

    past-In : (t : TierInfo f) → In t tiers → IsEligible t → IsPast epoch frame t → In t past
    past-In t i h p = filter-In passes t able (able-In t i h) ((is_past_iff epoch frame t h).1 p)

    target-IsTarget :
        (fastest cheapest : Option (TierInfo f))
        → min_by quicker able ≡ fastest
        → min_by cheaper past ≡ cheapest
        → IsTarget epoch frame tiers (target f fastest cheapest)
    target-IsTarget none cheapest e e' =
        λ t i h. absurd (subst (In t) (min_by-none quicker able e) (able-In t i h))
    target-IsTarget (some t) none e e' =
        let (there, least) =
          min_by-some quicker (λ a b. f.total_le-total _ _) (λ a b d. f.total_le-trans _ _ _) able t
            e in
        let (listed, ok) = In-filter (is_eligible f c) t tiers there in
        (
          t,
          refl,
          listed,
          is_eligible-IsEligible t ok,
          inr (λ u i h. (
            (λ p. subst (In u) (min_by-none cheaper past e') (past-In u i h p)),
            least u (able-In u i h),
          )),
        )
    target-IsTarget (some fastest) (some t) e e' =
        let (there, least) =
          min_by-some cheaper (λ a b. f.total_le-total _ _) (λ a b d. f.total_le-trans _ _ _) past t
            e' in
        let (on, p) = In-filter passes t able there in
        let (listed, ok) = In-filter (is_eligible f c) t tiers on in
        let h = is_eligible-IsEligible t ok in
        (
          t,
          refl,
          listed,
          h,
          inl ((is_past_iff epoch frame t h).0 p, (λ u i h' p'. least u (past-In u i h' p'))),
        )

  -- The policy demotes a page to no tier only if none is eligible, else to the cheapest eligible
  -- tier past its break-even time, or to the fastest eligible tier if none is past it.
  pub demotion_target-IsTarget :
      (epoch : ℕ) (frame : Frame) (tiers : List (TierInfo f))
      → IsTarget epoch frame tiers (demotion_target f c epoch frame tiers)
  unfolding demotion_target
  demotion_target-IsTarget epoch frame tiers =
      target-IsTarget epoch frame tiers
        (min_by (quicker epoch frame tiers) (able epoch frame tiers))
        (min_by (cheaper epoch frame tiers) (past epoch frame tiers)) refl refl
