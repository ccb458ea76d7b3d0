-- ===== src/Metrics/Gate.antt =====
-- Updates and snapshots of many threads on one recorder, in any interleaving.
use tierbuf.Prelude.{
  ℕ, ◌+◌, ◌-◌, Bool, true, false, not, ◌&&◌, List, [], ◌∷◌, ◌==◌, if◌then◌else◌, update, Run, done,
}
use tierbuf.Metrics.{Counter, Event, counter_eq, add_to, zeroed, snapshot_fields}

-- Where a thread stands. `updating` holds the read guard of the gate, with what its event still has
-- to add; `snapping` holds the write guard, with the fields to load and the values it has.
pub data Place : Type 0 where
  idle : Place
  updating : (event left : Event) → Place
  snapping : (left : List Counter) → (taken : List (Counter × ℕ)) → Place

-- The guard of the event is taken first, so that an index out of bounds panics under it.
pub data Act : Type 0 where
  begin_update : Run Event → Act
  begin_snapshot proceed : Act

-- `log` is what updates have added to the end, the last first.
pub record Shared : Type 0 where
  pub counters : Counter → ℕ
  pub readers : ℕ
  pub writer : Bool
  pub log : List Event

module _ (tiers : ℕ) where
  -- One atomic access of a thread. A guard that is not granted is asked for again.
  unfoldable pub step : Act → Shared → Place → Shared × Place
  step (begin_update (done event)) s idle =
      if s.writer then (s, idle) else (record s { readers = s.readers + 1 }, updating event event)
  step begin_snapshot s idle =
      if not s.writer && (s.readers == 0)
      then (record s { writer = true }, snapping (snapshot_fields tiers) [])
      else (s, idle)
  step proceed s (updating event ((c, amount) ∷ left)) =
      (record s { counters = add_to c amount s.counters }, updating event left)
  step proceed s (updating event []) =
      (record s { readers = s.readers - 1; log = event ∷ s.log }, idle)
  step proceed s (snapping (c ∷ left) taken) = (s, snapping left ((c, s.counters c) ∷ taken))
  step proceed s (snapping [] taken) = (record s { writer = false }, idle)
  step _ s p = (s, p)

  unfoldable pub turn : ℕ × Act → Shared × (ℕ → Place) → Shared × (ℕ → Place)
  turn (i, act) (s, place) = let (s', p) = step act s (place i) in (s', update place i p)

  unfoldable pub run : List (ℕ × Act) → Shared × (ℕ → Place) → Shared × (ℕ → Place)
  run [] w = w
  run (t ∷ ts) w = run ts (turn t w)

-- `StatsRecorder::new`
abbrev pub unused : Shared × (ℕ → Place)
unused = (record { counters = zeroed; readers = 0; writer = false; log = [] }, λ _. idle)

-- What an event adds to a counter.
unfoldable pub amount : Counter → Event → ℕ
amount c [] = 0
amount c ((d, n) ∷ e) = (if counter_eq d c then n else 0) + amount c e

unfoldable pub logged : Counter → List Event → ℕ
logged c [] = 0
logged c (e ∷ es) = amount c e + logged c es
