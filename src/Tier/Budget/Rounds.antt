-- ===== src/Tier/Budget/Rounds.antt =====
-- Consumers and refills of a write budget, as interleaved rounds of their loops on the shared word.
use tierbuf.Prelude.{ℕ, ◌+◌, ◌≤◌, ◌≡◌, Bool, some, List, [], ◌∷◌, arith, if◌then◌else◌}
use tierbuf.Tier.Budget.{try_update_once, consume, refill, is_ok, max_u64}

pub data Update : Type 0 where
  consuming : (bytes : ℕ) → Update
  refilling : (added : ℕ) → Update

-- The available bytes, with the sums of the bytes that were granted and of those that were added.
pub record Tally : Type 0 where
  pub available : ℕ
  pub granted : ℕ
  pub added : ℕ

-- A round of some caller that saw `current` last, which may be out of date.
unfoldable pub budget_round : (daily : ℕ) → Bool × ℕ × Update → Tally → Tally
unfolding try_update_once consume
budget_round daily (spurious, current, consuming bytes) s =
    let (available, round) = try_update_once (consume bytes) spurious current s.available in
    record s {
      available = available;
      granted = if is_ok round then s.granted + bytes else s.granted;
    }
budget_round daily (spurious, current, refilling added) s =
    let (available, round) =
      try_update_once (λ available. some (refill daily added available)) spurious current
        s.available in
    record s { available = available; added = if is_ok round then s.added + added else s.added }

unfoldable pub budget_rounds : (daily : ℕ) → List (Bool × ℕ × Update) → Tally → Tally
budget_rounds daily [] s = s
budget_rounds daily (r ∷ rs) s = budget_rounds daily rs (budget_round daily r s)

-- No more was granted than the bucket held at first and was given since.
pub record IsCovered (daily first : ℕ) (s : Tally) : Type 0 where
  pub allowance : daily ≤ max_u64
  pub covered : s.granted + s.available ≤ first + s.added
  pub bounded : s.available ≤ daily
  pub exact : s.added ≡ 0 → s.granted + s.available ≡ first

round-IsCovered :
    (daily first : ℕ) (r : Bool × ℕ × Update) (s : Tally)
    → IsCovered daily first s
    → IsCovered daily first (budget_round daily r s)
unfolding budget_round try_update_once consume refill
round-IsCovered daily first (spurious, current, consuming bytes) s c = ground arith
round-IsCovered daily first (spurious, current, refilling added) s c = ground arith

-- Over any interleaved rounds of consumers and refills, the bytes granted and those still available
-- are together at most those at first and those added, and exactly those at first if none were
-- added; the bucket never exceeds the day's allowance.
pub budget_rounds-IsCovered :
    (daily first : ℕ) (rs : List (Bool × ℕ × Update)) (s : Tally)
    → IsCovered daily first s
    → IsCovered daily first (budget_rounds daily rs s)
unfolding budget_rounds
budget_rounds-IsCovered daily first [] s c = c
budget_rounds-IsCovered daily first (r ∷ rs) s c =
    budget_rounds-IsCovered daily first rs (budget_round daily r s)
      (round-IsCovered daily first r s c)
