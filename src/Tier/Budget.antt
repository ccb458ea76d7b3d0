-- ===== src/Tier/Budget.antt =====
-- `WriteBudget` of crates/tierbuf/src/tier/mod.rs, and the update loop of
-- crates/tierbuf/src/atomic.rs. The floating-point constructor `from_dwpd` is not modelled.
pub mod Ticks
pub mod Rounds
mod Tests
use tierbuf.Prelude.{
  ℕ, ◌+◌, ◌-◌, ◌*◌, ◌/◌, ◌%◌, ◌^◌, min, Bool, true, false, not, ◌&&◌, ◌||◌, Option, none, some, ltb,
  leb, ◌==◌, if◌then◌else◌,
}

abbrev pub nanos_per_day : ℕ
nanos_per_day = 86_400 * 1_000_000_000

-- How a round of `try_update` ends: the update declined, it stored its value, or the exchange
-- failed and hands on the value that it saw. The first two carry the value that the loop returns.
pub data Round : Type 0 where
  declined : (current : ℕ) → Round
  stored : (previous : ℕ) → Round
  retry : (observed : ℕ) → Round

abbrev update_with : (spurious : Bool) → (current value : ℕ) → Option ℕ → ℕ × Round
update_with spurious current value none = (value, declined current)
update_with spurious current value (some next) =
    if not spurious && (value == current) then (next, stored current) else (value, retry value)

-- One round of the loop of `try_update`, on the value that was observed last.
unfoldable pub try_update_once :
    (update : ℕ → Option ℕ) → (spurious : Bool) → (current value : ℕ) → ℕ × Round
try_update_once update spurious current value = update_with spurious current value (update current)

pub record WriteBudget : Type 0 where
  pub daily_allowance_bytes : ℕ
  pub available_bytes : ℕ
  pub refill_remainder : ℕ

unfoldable pub from_daily_allowance : ℕ → WriteBudget
from_daily_allowance bytes = record {
  daily_allowance_bytes = bytes;
  available_bytes = bytes;
  refill_remainder = 0;
}

-- `checked_sub`
unfoldable pub consume : (bytes available : ℕ) → Option ℕ
consume bytes available = if leb bytes available then some (available - bytes) else none

abbrev pub is_ok : Round → Bool
is_ok (stored _) = true
is_ok _ = false

-- A call of `try_consume` that nothing disturbs.
unfoldable pub try_consume : ℕ → WriteBudget → WriteBudget × Bool
unfolding try_update_once consume
try_consume bytes b =
    let (available, round) =
      try_update_once (consume bytes) false b.available_bytes b.available_bytes in
    (record b { available_bytes = available }, is_ok round)

abbrev pub max_u64 : ℕ
max_u64 = 2 ^ 64 - 1

-- `saturating_add(added).min(daily)`
unfoldable pub refill : (daily added available : ℕ) → ℕ
refill daily added available = min (min (available + added) max_u64) daily

-- The credit of `elapsed` nanoseconds, in bytes and a remainder.
unfoldable pub partial_credit : (daily elapsed : ℕ) → ℕ
partial_credit daily elapsed = elapsed % nanos_per_day * daily

unfoldable pub refill_bytes : (daily elapsed remainder : ℕ) → ℕ
refill_bytes daily elapsed remainder =
    let bytes = (partial_credit daily elapsed + remainder) / nanos_per_day in
    if leb nanos_per_day elapsed then daily else if leb bytes max_u64 then bytes else daily

unfoldable pub new_remainder : (daily elapsed remainder : ℕ) → ℕ
new_remainder daily elapsed remainder =
    (partial_credit daily elapsed + remainder) % nanos_per_day % 2 ^ 64

-- A call of `tick` that nothing disturbs.
unfoldable pub tick : ℕ → WriteBudget → WriteBudget
tick elapsed b =
    if b.daily_allowance_bytes == 0 || elapsed == 0
    then b
    else let added = refill_bytes b.daily_allowance_bytes elapsed b.refill_remainder in
      let remainder = new_remainder b.daily_allowance_bytes elapsed b.refill_remainder in
      if added == 0 then record b { refill_remainder = remainder } else record b {
        available_bytes = refill b.daily_allowance_bytes added b.available_bytes;
        refill_remainder = remainder;
      }
