-- ===== src/Pool/Background/Tests.antt =====
-- A step that tries two tickets, of which the first is busy.
use tierbuf.Prelude.{
  ℕ, ◌≡◌, refl, ap, false, none, List, [], ◌∷◌, inl, inr, arith, ◌==◌, if◌then◌else◌, done,
}
use tierbuf.Frame.{new_frame}
use tierbuf.Cooling.{CoolingTicket, push_unique, contains, ticket_eq, pop}
use tierbuf.Pool.Backend.{Result, ok}
use tierbuf.Pool.Eviction.{EvictionOutcome, freed, busy}
use tierbuf.Pool.Fix.{World}
use tierbuf.Pool.Background.{Pressure, watermark, attempts, background_cooling_step}
use tierbuf.Pool.Background.Attempts.{Passed, background_cooling_step-Passes}

abbrev ticket_at : ℕ → CoolingTicket
ticket_at index = record { frame_index = index; pid = index; generation = 1; resident = 64 }

abbrev two_queued : World
two_queued = record {
  view = record {
    id = 1;
    layout = record { base = 4096; element_size = 64 };
    frame_count = 2;
    frames = λ i. new_frame;
    cells = λ c. record { pid = 0; owner_id = 1; word = 4096 };
    pages = λ p. none;
  };
  cooling = ticket_at 0 ∷ ticket_at 1 ∷ [];
  prefetched = [];
  stats = [];
}

abbrev few_free : Pressure
few_free = record {
  stopping = false;
  free_count = 0;
  low_watermark = 1;
  cooling_target = 2;
  eviction_mode = watermark;
  fault_ins_this_epoch = 0;
  exhausted_frame_request = false;
}

abbrev first_busy : ℕ → CoolingTicket → Result EvictionOutcome
first_busy k t = if k == 0 then ok busy else ok freed

background_cooling_step-Passes_example :
    (queue : List CoolingTicket) × (background_cooling_step
        (λ i w. w)
        (λ k. false)
        first_busy
        few_free
        9
        two_queued
      ≡ done (record two_queued { cooling = queue }, 9, false))
    × Passed (λ k. false) first_busy two_queued.cooling [] 0 queue
unfolding tierbuf.Pool.Background.is_relaxed tierbuf.Pool.Background.is_idle_demand
    tierbuf.Pool.Background.refill_queue
background_cooling_step-Passes_example =
    background_cooling_step-Passes (λ i w. w) (λ k. false) first_busy few_free 9 two_queued
      two_queued 9 refl refl refl
      (
        (λ h. elim h [
          | inl e ↦ (let bad : 0 ≡ 1 = ap (λ (t : CoolingTicket). t.frame_index) e in omega arith)
          | inr n ↦ n
        ]),
        ((λ h. h), tt),
      )

tried : attempts (λ k. false) first_busy 2 0 two_queued.cooling ≡ ticket_at 0 ∷ []
unfolding attempts pop push_unique contains ticket_eq
tried = refl
