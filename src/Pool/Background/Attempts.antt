-- ===== src/Pool/Background/Attempts.antt =====
-- The attempts pass over the queue once, in order, and put the busy tickets back in order.
use mathlib.Core.List.{append_assoc, append-nil}
use tierbuf.Prelude.{
  ℕ, suc, ◌+◌, ◌≡◌, refl, sym, ap, ◌∙◌, subst, ◌⊎◌, inl, inr, Bool, true, false, List, [], ◌∷◌,
  ◌++◌, length, Distinct, Bool-cases, arith, if◌then◌else◌, done,
}
use tierbuf.Cooling.{CoolingTicket, push_unique, pop}
use tierbuf.Cooling.Fifo.{push_unique_lem}
use tierbuf.Pool.Backend.{Result}
use tierbuf.Pool.Eviction.{EvictionOutcome}
use tierbuf.Pool.Background.{
  is_busy, attempts, Pressure, is_relaxed, is_idle_demand, refill_queue, background_cooling_step,
}
use tierbuf.Pool.Fix.{World}

module _ (plenty : ℕ → Bool) (evict_ticket : ℕ → CoolingTicket → Result EvictionOutcome) where
  -- The tickets whose evictions, from attempt `k` on, find a frame busy.
  unfoldable pub busy_of : ℕ → List CoolingTicket → List CoolingTicket
  busy_of k [] = []
  busy_of k (t ∷ ts) =
      let rest = busy_of (k + 1) ts in if is_busy (evict_ticket k t) then t ∷ rest else rest

  busy_again :
      (k : ℕ) (t : CoolingTicket) (ts : List CoolingTicket)
      → is_busy (evict_ticket k t) ≡ true
      → t ∷ busy_of (k + 1) ts ≡ busy_of k (t ∷ ts)
  unfolding busy_of
  busy_again k t ts e = rw e refl

  busy_gone :
      (k : ℕ) (t : CoolingTicket) (ts : List CoolingTicket)
      → is_busy (evict_ticket k t) ≡ false
      → busy_of (k + 1) ts ≡ busy_of k (t ∷ ts)
  unfolding busy_of
  busy_gone k t ts e = rw e refl

  -- Of the queue `entries ++ kept`, the first of `entries` were tried, each once, and the busy ones of
  -- them are last.
  pub Passed : (entries kept : List CoolingTicket) → ℕ → List CoolingTicket → Type 0
  Passed entries kept k left =
      (tried rest : List CoolingTicket) × (entries ≡ tried ++ rest)
      × (left ≡ rest ++ (kept ++ busy_of k tried))
      × ((rest ≡ []) ⊎ (plenty (k + length tried) ≡ true))

  later :
      (rest : List CoolingTicket) (k n : ℕ)
      → (rest ≡ []) ⊎ (plenty (k + 1 + n) ≡ true)
      → (rest ≡ []) ⊎ (plenty (k + suc n) ≡ true)
  later rest k n (inl nil) = inl nil
  later rest k n (inr p) = let e : k + suc n ≡ k + 1 + n = omega arith in inr (ap plenty e ∙ p)

  attempts-Passed :
      (entries kept : List CoolingTicket) (k : ℕ)
      → Distinct (entries ++ kept)
      → Passed entries kept k (attempts plenty evict_ticket (length entries) k (entries ++ kept))
  unfolding attempts Passed pop busy_of
  attempts-Passed [] kept k d = ([], [], refl, sym (append-nil kept), inl refl)
  attempts-Passed (t ∷ ts) kept k d = elim (Bool-cases (plenty k)) [
    | inl enough ↦
        let at_once : plenty (k + 0) ≡ true =
          let zeroth : k + 0 ≡ k = omega arith in ap plenty zeroth ∙ enough in
        rw enough ([], t ∷ ts, refl, ap (λ l. t ∷ (ts ++ l)) (sym (append-nil kept)), inr at_once)
    | inr low ↦ elim (Bool-cases (is_busy (evict_ticket k t))) [
      | inl again ↦
          let pushed = push_unique_lem t (ts ++ kept) d.1 in
          let last : push_unique t (ts ++ kept) ≡ ts ++ (kept ++ t ∷ []) =
            pushed.3 d.0 ∙ append_assoc ts kept (t ∷ []) in
          let (tried, rest, e, left, ended) =
            attempts-Passed ts (kept ++ t ∷ []) (k + 1) (subst Distinct last pushed.0) in
          rw low (
            rw again (
              rw last (
                t ∷ tried,
                rest,
                ap (λ l. t ∷ l) e,
                left
                    ∙ ap (λ l. rest ++ l)
                        (append_assoc kept (t ∷ []) _
                          ∙ ap (λ l. kept ++ l) (busy_again k t tried again)),
                later rest k (length tried) ended,
              )))
      | inr gone ↦
          let (tried, rest, e, left, ended) = attempts-Passed ts kept (k + 1) d.1 in
          rw low (
            rw gone (
              t ∷ tried,
              rest,
              ap (λ l. t ∷ l) e,
              left ∙ ap (λ l. rest ++ (kept ++ l)) (busy_gone k t tried gone),
              later rest k (length tried) ended,
            ))
    ]
  ]

-- When the step is called for and the queue, with what the search for cold frames adds to it, holds no
-- ticket twice, a part of the queue from its front is tried, each ticket once; the tickets that were
-- not busy are gone, and the busy ones are last, in order. Tickets are left untried only if the free
-- frames had reached the low watermark. The flag of a request for a frame is then cleared.
pub background_cooling_step-Passes :
    (others : ℕ → World → World) (plenty : ℕ → Bool)
    (evict_ticket : ℕ → CoolingTicket → Result EvictionOutcome) (p : Pressure) (cursor : ℕ)
    (w found : World) (cursor' : ℕ)
    → is_relaxed p ≡ false
    → is_idle_demand p ≡ false
    → refill_queue others p.cooling_target cursor w ≡ done (found, cursor')
    → Distinct found.cooling
    → (queue : List CoolingTicket) × (background_cooling_step others plenty evict_ticket p cursor w
        ≡ done (record found { cooling = queue }, cursor', false))
      × Passed plenty evict_ticket found.cooling [] 0 queue
unfolding background_cooling_step
background_cooling_step-Passes others plenty evict_ticket p cursor w found cursor' busy_now asked
      refills d =
    let nil = append-nil found.cooling in
    let passed =
      attempts-Passed plenty evict_ticket found.cooling [] 0 (subst Distinct (sym nil) d) in
    (
      attempts plenty evict_ticket (length found.cooling) 0 found.cooling,
      rw (busy_now, asked) (rw refills refl),
      subst
          (λ l.
            Passed plenty evict_ticket found.cooling [] 0
              (attempts plenty evict_ticket (length found.cooling) 0 l))
          nil passed,
    )
