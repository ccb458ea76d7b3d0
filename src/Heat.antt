-- ===== src/Heat.antt =====
-- crates/tierbuf/src/policy/heat.rs, and the packed heat word of crates/tierbuf/src/frame.rs: 8.24
-- fixed-point heat in the low 32 bits, its epoch in the high 32.
pub mod Decay
pub mod Rounds
mod Tests
use tierbuf.Prelude.{
  ℕ, ◌+◌, ◌-◌, ◌*◌, ◌/◌, ◌%◌, ◌^◌, Bool, true, false, leb, ltb, ◌==◌, if◌then◌else◌,
}

-- `1 << HEAT_FRACTION_BITS`
abbrev pub heat_one : ℕ
heat_one = 2 ^ 24

abbrev pub max_heat : ℕ
max_heat = 2 ^ 32 - 1

abbrev pub max_decay_shift : ℕ
max_decay_shift = 32

unfoldable pub pack_heat_epoch : ℕ → ℕ → ℕ
pack_heat_epoch heat epoch = epoch * 2 ^ 32 + heat

unfoldable pub unpack_heat_epoch : ℕ → ℕ × ℕ
unpack_heat_epoch packed = (packed % 2 ^ 32, packed / 2 ^ 32 % 2 ^ 32)

unfoldable pub decay : ℕ → ℕ → ℕ
decay heat elapsed = if leb max_decay_shift elapsed then 0 else heat / 2 ^ elapsed

-- `u32::wrapping_sub`
unfoldable pub epochs_since : ℕ → ℕ → ℕ
epochs_since epoch last = (epoch + 2 ^ 32 - last) % 2 ^ 32

-- `on_epoch`: the new value of the global counter, which is also its result.
unfoldable pub on_epoch : ℕ → ℕ
on_epoch epoch = (epoch + 1) % 2 ^ 32

unfoldable pub current_heat_raw : ℕ → ℕ → ℕ
current_heat_raw epoch packed =
    let (heat, last) = unpack_heat_epoch packed in decay heat (epochs_since epoch last)

-- `u32::saturating_add`
abbrev pub saturating_add : ℕ → ℕ → ℕ
saturating_add a b = if ltb max_heat (a + b) then max_heat else a + b

-- The pair that one access at `epoch` wants to store over `observed`.
unfoldable pub accessed : ℕ → ℕ × ℕ → ℕ × ℕ
accessed epoch (heat, last) =
    (saturating_add (decay heat (epochs_since epoch last)) heat_one, epoch)

-- `compare_exchange_heat_and_epoch`, whose weak exchange may fail spuriously: the word, whether the
-- exchange was done, and the pair that was there.
unfoldable pub compare_exchange_heat_and_epoch :
    (spurious : Bool) → (current replacement : ℕ × ℕ) → ℕ → ℕ × Bool × (ℕ × ℕ)
compare_exchange_heat_and_epoch true current replacement word =
    (word, false, unpack_heat_epoch word)
compare_exchange_heat_and_epoch false (heat, epoch) (heat', epoch') word =
    if word == pack_heat_epoch heat epoch
    then (pack_heat_epoch heat' epoch', true, unpack_heat_epoch word)
    else (word, false, unpack_heat_epoch word)

-- One round of the loop in `on_access`, at the epoch that the call loaded and with the pair that
-- it observed last: the word, whether the call returns, and the pair observed next.
unfoldable pub on_access_once :
    (spurious : Bool) → (epoch : ℕ) → (observed : ℕ × ℕ) → ℕ → ℕ × Bool × (ℕ × ℕ)
unfolding compare_exchange_heat_and_epoch accessed
on_access_once spurious epoch observed word =
    compare_exchange_heat_and_epoch spurious observed (accessed epoch observed) word

-- A call of `on_access` whose load and first exchange nothing disturbs: the word and the result.
unfoldable pub on_access : ℕ → ℕ → ℕ × ℕ
unfolding on_access_once
on_access epoch word =
    let observed = unpack_heat_epoch word in
    ((on_access_once false epoch observed word).0, (accessed epoch observed).0)
