-- ===== src/Pool/Fix/Latched.antt =====
-- A round of a fix that holds the pin and the latch of a frame.
use tierbuf.Prelude.{
  ℕ, ◌-◌, ◌≤◌, ◌<◌, ◌^◌, ◌≡◌, refl, ap, inr, Bool, true, false, Option, none, some, at_index,
  off_index, arith, if-cases, Run, done, panicked, ◌>>=◌,
}
use tierbuf.Swip.{max_pid}
use tierbuf.Frame.{Frame, try_pin, unpin, unpin_once}
use tierbuf.Pool.Fix.{World, source_of, fixed, Progress, Seen, FixKind, access, account, latched}
use tierbuf.Pool.Fix.Kept.{Owned, Goes, Goes-bind, Goes-after}
use tierbuf.Pool.Fix.Effects.{access-Goes, count_hit-Goes, consume-Goes, settle-Goes}
use tierbuf.Pool.Fix.Meets.{IsTier, Ends}

unpin-pred : (word : ℕ) → 0 < word → word < 2 ^ 31 → unpin word ≡ done (word - 1)
unfolding unpin unpin_once
unpin-pred word pos lt = ground arith

module _ {tiers : ℕ} where
  tier_of : (o : Option ℕ) → IsTier tiers o → (i : ℕ) → o ≡ some i → i < tiers
  tier_of none t i e = let no_way : none ≡ some i = e in cc
  tier_of (some j) t i e = let same : j ≡ i = cc in omega arith

module _ (tiers : ℕ) (touch : ℕ → ℕ) (admit : Bool) (kind : FixKind) (pid cell : ℕ) where
  account-Goes :
      (p : Progress) (index r : ℕ) (w : World)
      → pid ≤ max_pid
      → IsTier tiers p.faulted_tier
      → Owned w.view pid cell index r
      → Goes pid cell index r w 1 (account tiers touch admit kind pid cell p index r w)
  unfolding account
  account-Goes p index r w small t o =
      if-cases (Goes pid cell index r w 1) p.faulted _ _
        (λ y.
          Goes-bind pid cell index r w 1 0 _ _
            (count_hit-Goes tiers touch admit kind pid cell index r small w p.faulted_tier
              (tier_of p.faulted_tier t) o)
            (λ w' o'. settle-Goes tiers touch admit kind pid cell index r small w' kind o'))
        (λ n.
          Goes-after pid cell index r w _ 0 1 _
            (consume-Goes tiers touch admit kind pid cell index r small w o).0
            (count_hit-Goes tiers touch admit kind pid cell index r small _ none
              (λ i (e : none ≡ some i). cc)
              (consume-Goes tiers touch admit kind pid cell index r small w o).1))

  guarded :
      (p : Progress) (s : Seen) (index r : ℕ) (run : Run World)
      → Goes pid cell index r s.world 1 run
      → Ends tiers pid cell p s (run >>= λ w. done (w, p, fixed index (source_of p.faulted_tier)))
  guarded p s index r panicked h = h
  guarded p s index r (done w) (kept, o) = (refl, refl, kept, (r, o))

  entered :
      (p : Progress) (s : Seen) (index r : ℕ) (run : Run World)
      → pid ≤ max_pid
      → IsTier tiers p.faulted_tier
      → Goes pid cell index r s.world 0 run
      → Ends tiers pid cell p s (
          run >>= λ a.
          (account tiers touch admit kind pid cell p index r a >>= λ w.
          done (w, p, fixed index (source_of p.faulted_tier))))
  entered p s index r panicked small t h = h
  entered p s index r (done a) small t (kept, o) =
      guarded p s index r (account tiers touch admit kind pid cell p index r a)
        (Goes-after pid cell index r s.world a 0 1 _ kept (account-Goes p index r a small t o))

  pub latched-Ends :
      (p : Progress) (s : Seen) (index r : ℕ) (exact : Bool)
      → pid ≤ max_pid
      → IsTier tiers p.faulted_tier
      → (try_pin s.control).1 ≡ true
      → 0 < (s.world.view.frames index).pin_control
      → (s.world.view.frames index).pin_control < 2 ^ 31
      → (exact ≡ true → Owned s.world.view pid cell index r)
      → Ends tiers pid cell p s (latched tiers touch admit kind pid cell p index r s.world exact)
  unfolding latched
  latched-Ends p s index r true small t taken pos lt o =
      entered p s index r (access tiers touch admit kind pid cell index r s.world) small t
        (access-Goes tiers touch admit kind pid cell index r small s.world (o refl))
  latched-Ends p s index r false small t taken pos lt o =
      rw (unpin-pred (s.world.view.frames index).pin_control pos lt) (
        t,
        refl,
        refl,
        inr (record {
          index = index;
          taken = taken;
          returned = omega (
            arith,
            ap (λ (g : Frame). g.pin_control)
                (at_index s.world.view.frames index
                  (record (s.world.view.frames index) {
                    pin_control = (s.world.view.frames index).pin_control - 1;
                  })
                  index refl),
          );
          pins =
              λ j d. ap (λ (g : Frame). g.pin_control) (off_index s.world.view.frames index _ j d);
        }),
      )
