-- ===== src/Tier/Mock/Reads.antt =====
-- Reads of a mock tier, on every branch, with the countdown to the injected failure.
use tierbuf.Prelude.{
  ℕ, suc, zero, ◌+◌, ◌-◌, ◌*◌, ◌%◌, ◌^◌, ◌<◌, ◌≡◌, refl, ap, inl, inr, true, false, not, ◌&&◌,
  Option, none, some, List, length, arith, HashMap, get, ltb, ◌==◌, if-cases, done, min, ℕ_discrete,
}
use tierbuf.Tier.Disk.{IoResult, Buffer}
use tierbuf.Tier.File.{page_size}
use tierbuf.Tier.Mock.{
  MockState, MockTier, with_state, is_attempt, validate_location, saturating_inc, copied,
  read_attempt, read, free,
}
use tierbuf.Tier.Mock.Slots.{state_of}
use tierbuf.Tier.Mock.Device.{
  IsArmed, IsMock, read_call, read_reply, serve, fuse_of, burnt, delivered, Served,
}
use tierbuf.Tier.Mock.Answers.{rearmed}

-- What one attempt leaves of the countdown, and what it delivers.
abbrev Attempted :
    (l : ℕ) → Buffer → MockState → MockState × (Buffer × IoResult (Unit {0})) → Type 0
Attempted l b s (s', r) =
    (s'.pages ≡ s.pages)
    × (s'.free_slots ≡ s.free_slots)
    × (s'.next_slot ≡ s.next_slot)
    × IsArmed s'.fail_read_at s'.read_attempts
    × (fuse_of s'.fail_read_at s'.read_attempts ≡ burnt (fuse_of s.fail_read_at s.read_attempts))
    × (r ≡ delivered (fuse_of s.fail_read_at s.read_attempts) b (get l s.pages))

copied-none : (b : Buffer) (o : Option Buffer) → copied b o ≡ delivered none b o
unfolding copied
copied-none b none = refl
copied-none b (some p) = refl

copied-later :
    (n : ℕ) (b : Buffer) (o : Option Buffer) → copied b o ≡ delivered (some (suc (suc n))) b o
unfolding copied
copied-later n b none = refl
copied-later n b (some p) = refl

-- The attempt that the failure was set for, and an earlier one.
module _ (l : ℕ) (b : Buffer) (pages : HashMap Buffer) (free : List ℕ) (next a n : ℕ) where
  attempt_last :
      n ≡ a + 1
      → n < 2 ^ 64
      → Attempted l b
          (state_of pages free next a (some n))
          (read_attempt l b (state_of pages free next a (some n)))
  unfolding read_attempt is_attempt saturating_inc
  attempt_last e lt =
      let hit : (n == min (a + 1) (2 ^ 64 - 1)) ≡ true = ground arith in
      let one : n - a ≡ suc zero = omega arith in rw (hit, one) (refl, refl, refl, tt, refl, refl)

  attempt_earlier :
      a + 1 < n
      → n < 2 ^ 64
      → Attempted l b
          (state_of pages free next a (some n))
          (read_attempt l b (state_of pages free next a (some n)))
  unfolding read_attempt is_attempt saturating_inc
  attempt_earlier below lt =
      let miss : (n == min (a + 1) (2 ^ 64 - 1)) ≡ false = ground arith in
      let more : n - a ≡ suc (suc (n - a - 2)) = omega arith in
      rw (miss, more)
        (
          refl,
          refl,
          refl,
          (omega arith, lt),
          ap some (omega arith),
          copied-later (n - a - 2) b (get l pages),
        )

attempt-Attempted :
    (l : ℕ) (b : Buffer) (pages : HashMap Buffer) (free : List ℕ) (next a : ℕ) (fail : Option ℕ)
    → IsArmed fail a
    → Attempted l b
        (state_of pages free next a fail)
        (read_attempt l b (state_of pages free next a fail))
unfolding read_attempt is_attempt
attempt-Attempted l b pages free next a none h =
    (refl, refl, refl, tt, refl, copied-none b (get l pages))
attempt-Attempted l b pages free next a (some n) h = elim (ℕ_discrete n (a + 1)) [
  | yes e ↦ attempt_last l b pages free next a n e h.1
  | no d ↦ attempt_earlier l b pages free next a n (omega (arith, h.0)) h.1
]

attempted-Served :
    (l : ℕ) (b : Buffer) (t : MockTier)
    → IsMock t
    → b.size ≡ page_size
    → l % page_size ≡ 0
    → l < t.slot_count * page_size
    → (r : MockState × (Buffer × IoResult (Unit {0}))) → Attempted l b t.state r
    → Served (read_call l b) t (done (with_state t r.0, read_reply r.1))
attempted-Served l b t v size aligned below (s, r) (pages, free, next, armed, fuse, reply) = (
  refl,
  rearmed t s v (rw (pages, free, next) v.state) (rw next v.next_le) armed,
  (((λ k. ap (get k) pages), ap length pages), inl (size, aligned, below, fuse, reply)),
)

pub read-Served :
    (l : ℕ) (b : Buffer) (t : MockTier)
    → IsMock t
    → Served (read_call l b) t (serve (read_call l b) t)
unfolding serve read validate_location
read-Served l b t v =
    let P : MockTier × (Buffer × IoResult (Unit {0})) → Type 0 =
      λ x. Served (read_call l b) t (done (x.0, read_reply x.1)) in
    if-cases P (not (b.size == page_size)) _ _
      (λ c. (refl, v, (((λ k. refl), refl), inr (inl (ground arith), refl, refl))))
      (λ c.
        let size : b.size ≡ page_size = ground arith in
        if-cases P (not (l % page_size == 0 && ltb l t.capacity_bytes)) _ _
          (λ c'. (refl, v, (((λ k. refl), refl), inr (inr (ground (arith, v.sized)), refl, refl))))
          (λ c'.
            attempted-Served l b t v size (ground arith) (ground (arith, v.sized))
              (read_attempt l b t.state)
              (attempt-Attempted l b t.state.pages t.state.free_slots t.state.next_slot
                t.state.read_attempts t.state.fail_read_at v.armed)))
