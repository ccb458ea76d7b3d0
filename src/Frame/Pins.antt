-- ===== src/Frame/Pins.antt =====
-- Pins and eviction claims of many threads on one control word, in any interleaving.
use mathlib.Core.Logic.{if_pos, if_neg}
use tierbuf.Prelude.{
  ℕ, ◌+◌, ◌≤◌, ◌<◌, ◌≡◌, ◌≢◌, ◌↔◌, refl, sym, ◌⊎◌, inl, Bool, true, false, Option, none, some, List,
  [], ◌∷◌, arith, All, update, sum_to, sum_to-update, sum_to-ge, sum_to-ge_pair, sum_to-zero,
  ℕ_discrete, Run, done, panicked,
}
use tierbuf.Frame.{
  evicting, pin_count_mask, PinRound, refused, pinned, retry, try_pin_once, unpin_once, pin_count,
  is_evicting, try_claim_eviction, release_eviction, publish_reserved_pin,
}

-- Where a thread stands. `crashed` follows a panic.
pub data Place : Type 0 where
  outside : Place
  pin_read : (current : ℕ) → Place  -- in `try_pin`
  pinning : Place  -- owns one pin
  unpin_read : (current : ℕ) → Place  -- in `unpin`, still owns its pin
  claiming : Place  -- owns the eviction reservation
  crashed : Place

pub data Act : Type 0 where
  begin_pin begin_unpin claim release publish : Act
  attempt : (spurious : Bool) → Act

abbrev after_pin : ℕ × PinRound → ℕ × Place
after_pin (w, refused) = (w, outside)
after_pin (w, pinned) = (w, pinning)
after_pin (w, retry c) = (w, pin_read c)

abbrev after_unpin : ℕ → Run (ℕ × Option ℕ) → ℕ × Place
after_unpin w panicked = (w, crashed)
after_unpin w (done (w', none)) = (w', outside)
after_unpin w (done (w', some c)) = (w', unpin_read c)

abbrev after_claim : ℕ × Bool → ℕ × Place
after_claim (w, true) = (w, claiming)
after_claim (w, false) = (w, outside)

abbrev after_release : ℕ → Place → Run ℕ → ℕ × Place
after_release w to panicked = (w, crashed)
after_release w to (done w') = (w', to)

-- One access of a thread: the load that opens a call, or an exchange. An act that does not fit the
-- thread's place does nothing.
unfoldable pub pin_move : Act → ℕ → Place → ℕ × Place
pin_move begin_pin w outside = (w, pin_read w)
pin_move (attempt b) w (pin_read c) = after_pin (try_pin_once b c w)
pin_move begin_unpin w pinning = (w, unpin_read w)
pin_move (attempt b) w (unpin_read c) = after_unpin w (unpin_once b c w)
pin_move claim w outside = after_claim (try_claim_eviction w)
pin_move release w claiming = after_release w outside (release_eviction w)
pin_move publish w claiming = after_release w pinning (publish_reserved_pin w)
pin_move _ w p = (w, p)

abbrev pub owns_pin : Place → ℕ
owns_pin pinning = 1
owns_pin (unpin_read _) = 1
owns_pin _ = 0

abbrev pub owns_claim : Place → ℕ
owns_claim claiming = 1
owns_claim _ = 0

pub record Pins : Type 0 where
  pub word : ℕ
  pub place : ℕ → Place

unfoldable pub pin_turn : ℕ × Act → Pins → Pins
pin_turn (i, act) s =
    let (word', place') = pin_move act s.word (s.place i) in
    record { word = word'; place = update s.place i place' }

unfoldable pub pin_run : List (ℕ × Act) → Pins → Pins
pin_run [] s = s
pin_run (t ∷ ts) s = pin_run ts (pin_turn t s)

abbrev pub unused : Pins
unused = record { word = 0; place = λ _. outside }

abbrev pub IsSchedule : ℕ → List (ℕ × Act) → Type 0
IsSchedule n = All (λ t. t.0 < n)

-- The word counts the pins that are out, or marks the one reservation.
abbrev Counts : (word pins claims : ℕ) → Type 0
Counts w p c = ((c ≡ 0) × (w ≡ p) × (p ≤ pin_count_mask)) ⊎ ((c ≡ 1) × (p ≡ 0) × (w ≡ evicting))

-- What a thread has loaded could be true when it did.
abbrev IsSane : Place → Type 0
IsSane (unpin_read c) = (0 < c) × (c ≤ pin_count_mask)
IsSane (pin_read c) = c ≤ evicting
IsSane crashed = ⊥
IsSane _ = Unit

module _ (w p c : ℕ) where
  record Before (h : Place) : Type 0 where
    counts : Counts w p c
    pin_here : owns_pin h ≤ p
    claim_here : owns_claim h ≤ c
    sane : IsSane h

  record After (h : Place) (r : ℕ × Place) : Type 0 where
    counts :
        (p' c' : ℕ)
        → p' + owns_pin h ≡ p + owns_pin r.1
        → c' + owns_claim h ≡ c + owns_claim r.1
        → Counts r.0 p' c'
    sane : IsSane r.1

  move-After : (a : Act) (h : Place) → Before h → After h (pin_move a w h)
  unfolding pin_move try_pin_once unpin_once try_claim_eviction release_eviction
      publish_reserved_pin
  move-After begin_pin outside b = ground arith
  move-After (attempt s) (pin_read x) b = ground arith
  move-After begin_unpin pinning b = ground arith
  move-After (attempt s) (unpin_read x) b = ground arith
  move-After claim outside b = ground arith
  move-After release claiming b = ground arith
  move-After publish claiming b = ground arith
  move-After _ _ b = ground arith

abbrev pub pins_out : ℕ → Pins → ℕ
pins_out n s = sum_to owns_pin n s.place

abbrev pub claims_out : ℕ → Pins → ℕ
claims_out n s = sum_to owns_claim n s.place

record Inv (n : ℕ) (s : Pins) : Type 0 where
  counts : Counts s.word (pins_out n s) (claims_out n s)
  sane : (i : ℕ) → i < n → IsSane (s.place i)

module _ (n : ℕ) (s : Pins) (inv : Inv n s) (i : ℕ) (lt : i < n) (a : Act) where
  abbrev after : ℕ × Place
  after = pin_move a s.word (s.place i)

  moved : After s.word (pins_out n s) (claims_out n s) (s.place i) after
  moved = move-After s.word (pins_out n s) (claims_out n s) a (s.place i) (record {
    counts = inv.counts;
    pin_here = sum_to-ge owns_pin n s.place i lt;
    claim_here = sum_to-ge owns_claim n s.place i lt;
    sane = inv.sane i lt;
  })

  update-IsSane : (j : ℕ) → j < n → IsSane (update s.place i after.1 j)
  update-IsSane j ltj = elim (ℕ_discrete i j) [
    | yes e ↦ rw (if_pos _ e) moved.sane
    | no d ↦ rw (if_neg _ d) (inv.sane j ltj)
  ]

  pin_turn-Inv : Inv n (pin_turn (i, a) s)
  unfolding pin_turn
  pin_turn-Inv = record {
    counts =
        moved.counts _ _ (sum_to-update owns_pin n s.place i after.1 lt)
          (sum_to-update owns_claim n s.place i after.1 lt);
    sane = update-IsSane;
  }

unused-Inv : (n : ℕ) → Inv n unused
unused-Inv n = record {
  counts = inl (
    sum_to-zero owns_claim n _ (λ _. refl),
    sym (sum_to-zero owns_pin n _ (λ _. refl)),
    omega (arith, sum_to-zero owns_pin n (λ _. outside) (λ _. refl)),
  );
  sane = λ _ _. tt;
}

pin_run-Inv :
    (n : ℕ) (ts : List (ℕ × Act)) (s : Pins) → IsSchedule n ts → Inv n s → Inv n (pin_run ts s)
unfolding pin_run
pin_run-Inv n [] s h inv = inv
pin_run-Inv n (t ∷ ts) s h inv =
    pin_run-Inv n ts (pin_turn t s) h.1 (pin_turn-Inv n s inv t.0 h.0 t.1)

-- Every state that `n` threads can reach on an unused frame.
module _ (n : ℕ) (ts : List (ℕ × Act)) (fair : IsSchedule n ts) where
  abbrev reached : Pins
  reached = pin_run ts unused

  inv : Inv n reached
  inv = pin_run-Inv n ts unused fair (unused-Inv n)

  -- While one thread owns the eviction reservation, no other owns a pin or the reservation.
  pub claim-excludes :
      (i j : ℕ)
      → i < n
      → j < n
      → i ≢ j
      → owns_claim (reached.place i) ≡ 1
      → (owns_pin (reached.place j) ≡ 0) × (owns_claim (reached.place j) ≡ 0)
  claim-excludes i j lti ltj d o =
      let pair = sum_to-ge_pair owns_claim n reached.place i j d lti ltj in
      let part = sum_to-ge owns_pin n reached.place j ltj in
      (omega (arith, inv.counts), omega (arith, inv.counts))

  -- The pin count of the word is the number of pins that are out, and the word is the eviction mark
  -- exactly if a reservation is out; no pin is out then, and a reservation can be claimed exactly
  -- if neither is.
  pin_word :
      (pin_count reached.word ≡ pins_out n reached)
      × ((is_evicting reached.word ≡ true) ↔ (claims_out n reached ≡ 1))
      × (claims_out n reached ≡ 1 → pins_out n reached ≡ 0)
      × (((try_claim_eviction reached.word).1 ≡ true)
          ↔ (pins_out n reached + claims_out n reached ≡ 0))
  unfolding pin_count is_evicting try_claim_eviction
  pin_word = (
    ground (arith, inv.counts),
    (ground (arith, inv.counts), ground (arith, inv.counts)),
    ground (arith, inv.counts),
    (ground (arith, inv.counts), ground (arith, inv.counts)),
  )

  -- No assertion or expectation of `unpin`, `release_eviction` and `publish_reserved_pin` fails.
  place-ne-crashed : (i : ℕ) → i < n → reached.place i ≢ crashed
  place-ne-crashed i lt e = ground (arith, inv.sane i lt)
