-- ===== src/Pool/Background.antt =====
-- `background_cooling_step` of crates/tierbuf/src/pool.rs, the step of the cooler thread. What other
-- threads do meanwhile shows in the number of free frames that each attempt sees and in the result of
-- its eviction; they are arguments, by the number of the attempt. Nothing else is queued during the
-- attempts.
pub mod Attempts
mod Tests
use tierbuf.Prelude.{
  ℕ, suc, zero, ◌+◌, Bool, true, false, not, ◌&&◌, ◌||◌, Option, none, some, List, length, ltb, leb,
  ◌==◌, if◌then◌else◌, Run, done, panicked, ◌>>=◌,
}
use tierbuf.Cooling.{CoolingTicket, push_unique, pop}
use tierbuf.Pool.Backend.{Result, ok, err}
use tierbuf.Pool.Eviction.{EvictionOutcome, freed, busy, stale}
use tierbuf.Pool.Fix.{World}
use tierbuf.Pool.Cooler.{enqueue_cold}

abbrev pub is_busy : Result EvictionOutcome → Bool
is_busy (ok busy) = true
is_busy _ = false

pub data EvictionMode : Type 0 where
  demand watermark : EvictionMode

abbrev pub is_demand : EvictionMode → Bool
is_demand demand = true
is_demand watermark = false

module _ (plenty : ℕ → Bool) (evict_ticket : ℕ → CoolingTicket → Result EvictionOutcome) where
  -- The loop over the attempts, of which the next has number `k`. `plenty` is whether the free frames
  -- reach the low watermark.
  unfoldable pub attempts : (left k : ℕ) → List CoolingTicket → List CoolingTicket
  attempts zero k entries = entries
  attempts (suc n) k entries =
      let (popped, ticket) = pop entries in
      if plenty k then entries else elim ticket [
        | none ↦ popped
        | some t ↦
            attempts n (k + 1) (if is_busy (evict_ticket k t) then push_unique t popped else popped)
      ]

-- The fields that the step reads, at its start.
pub record Pressure : Type 0 where
  pub stopping : Bool
  pub free_count : ℕ
  pub low_watermark : ℕ
  pub cooling_target : ℕ
  pub eviction_mode : EvictionMode
  pub fault_ins_this_epoch : ℕ
  pub exhausted_frame_request : Bool

unfoldable pub is_relaxed : Pressure → Bool
is_relaxed p = p.stopping || (leb p.low_watermark p.free_count || p.cooling_target == 0)

unfoldable pub is_idle_demand : Pressure → Bool
is_idle_demand p =
    is_demand p.eviction_mode && (p.fault_ins_this_epoch == 0 && not p.exhausted_frame_request)

module _ (others : ℕ → World → World) where
  unfoldable pub refill_queue : (cooling_target cursor : ℕ) → World → Run (World × ℕ)
  refill_queue cooling_target cursor w =
      if ltb (length w.cooling) cooling_target
      then enqueue_cold others false cooling_target cursor w
      else done (w, cursor)

module _ (others : ℕ → World → World) (plenty : ℕ → Bool)
    (evict_ticket : ℕ → CoolingTicket → Result EvictionOutcome) where
  -- The world, the cursor and the flag `exhausted_frame_request` after the step.
  unfoldable pub background_cooling_step : Pressure → (cursor : ℕ) → World → Run (World × ℕ × Bool)
  background_cooling_step p cursor w =
      if is_relaxed p
      then done (w, cursor, p.exhausted_frame_request)
      else if is_idle_demand p
      then done (w, cursor, false)
      else (do
        (w', cursor') ← refill_queue others p.cooling_target cursor w
        let tried = attempts plenty evict_ticket (length w'.cooling) 0 w'.cooling
        done (record w' { cooling = tried }, cursor', false))
