-- ===== src/Pool/Fix/Trace.antt =====
-- What the variables of the loop of a fix hold, from what its rounds met.
use tierbuf.Prelude.{
  ℕ, ◌≡◌, refl, Bool, true, false, ◌||◌, Option, none, some, List, [], ◌∷◌, ◌++◌, ltb, ◌==◌,
  if◌then◌else◌, if-cases, Bool-cases, inl, inr, Run, done, panicked, ◌>>=◌, assert,
}
use tierbuf.Swip.{SwipState, hot, cooling, evicted, load}
use tierbuf.Frame.{unpin, try_pin}
use tierbuf.Frame.Table.{index_of_resident}
use tierbuf.Fault.{shutting_down}
use tierbuf.Pool.Backend.{Result, ok, err}
use tierbuf.Pool.Handles.{resident_is_exact}
use tierbuf.Pool.Fix.{
  World, Verdict, failed, Progress, Seen, FixKind, get_or_insert, faulted_in, access, account,
  latched, located, in_state, fix_round, recorded, first_fault,
}

-- The answer of the fault that a round asks for: it does if its handle names the page as evicted.
abbrev pub answer_in : (pid : ℕ) → Run SwipState → Result (Option ℕ) → Option (Result (Option ℕ))
answer_in pid (done (evicted named)) fault = if named == pid then some fault else none
answer_in pid _ fault = none

abbrev pub answer_of : (pid : ℕ) → Seen → Option (Result (Option ℕ))
answer_of pid s = if s.stopping then none else answer_in pid (load s.handle) s.fault

abbrev pub is_fault : Option (Result (Option ℕ)) → Bool
is_fault none = false
is_fault (some _) = true

-- The tier from which a fault read the page, if it did.
abbrev pub tier_read : Option (Result (Option ℕ)) → Option ℕ
tier_read (some (ok tier)) = tier
tier_read _ = none

abbrev pub first_of : Option ℕ → Option ℕ → Option ℕ
first_of (some tier) later = some tier
first_of none later = later

abbrev pub any_fault : (pid : ℕ) → List Seen → Bool
any_fault pid [] = false
any_fault pid (s ∷ ss) = is_fault (answer_of pid s) || any_fault pid ss

-- The first tier that a fault of the rounds named, after `tier`.
abbrev pub first_tier : (pid : ℕ) → (tier : Option ℕ) → List Seen → Option ℕ
first_tier pid tier [] = tier
first_tier pid tier (s ∷ ss) = first_tier pid (first_of tier (tier_read (answer_of pid s))) ss

-- Of the rounds `ss`, some were run, and the variables hold what the faults among them answered.
pub record Traced (pid : ℕ) (ss : List Seen) (p p' : Progress) : Type 0 where
  pub run : List Seen
  pub rest : List Seen
  pub split : ss ≡ run ++ rest
  pub faulted : p'.faulted ≡ (p.faulted || any_fault pid run)
  pub tier : p'.faulted_tier ≡ first_tier pid p.faulted_tier run

-- What a round with that answer leaves in the variables.
pub record Moved (answer : Option (Result (Option ℕ))) (p p' : Progress) : Type 0 where
  pub faulted : p'.faulted ≡ (p.faulted || is_fault answer)
  pub tier : p'.faulted_tier ≡ first_of p.faulted_tier (tier_read answer)

abbrev pub Moves : Option (Result (Option ℕ)) → Progress → Run (World × Progress × Verdict) → Type 0
Moves answer p panicked = Unit
Moves answer p (done (w, p', v)) = Moved answer p p'

pub or_false : (b : Bool) → b ≡ (b || false)
or_false true = refl
or_false false = refl

or_true : (b : Bool) → true ≡ (b || true)
or_true true = refl
or_true false = refl

first_of-none : (o : Option ℕ) → o ≡ first_of o none
first_of-none none = refl
first_of-none (some i) = refl

unmoved : (p : Progress) → Moved none p p
unmoved p = record { faulted = or_false p.faulted; tier = first_of-none p.faulted_tier }

Moves-bind :
    {A : Type 0} (answer : Option (Result (Option ℕ))) (p : Progress) (m : Run A)
    (k : A → Run (World × Progress × Verdict))
    → ((a : A) → Moves answer p (k a))
    → Moves answer p (m >>= k)
Moves-bind answer p (done a) k h = h a
Moves-bind answer p panicked k h = tt

faulted_in-Moves :
    (p : Progress) (w : World) (fault : Result (Option ℕ))
    → Moves (some fault) p (done (faulted_in p w fault))
unfolding faulted_in
faulted_in-Moves p w (ok tier) = record {
  faulted = or_true p.faulted;
  tier = inserted p.faulted_tier;
}
  where
    inserted : (o : Option ℕ) → get_or_insert o tier ≡ first_of o tier
    inserted none = refl
    inserted (some i) = refl
faulted_in-Moves p w (err e) = record {
  faulted = or_true p.faulted;
  tier = first_of-none p.faulted_tier;
}

module _ (tiers : ℕ) (touch : ℕ → ℕ) (admit : Bool) (kind : FixKind) (pid cell : ℕ)
    (p : Progress) where
  latched-Moves :
      (index resident : ℕ) (w : World) (exact : Bool)
      → Moves none p (latched tiers touch admit kind pid cell p index resident w exact)
  unfolding latched
  latched-Moves index resident w true =
      Moves-bind none p (access tiers touch admit kind pid cell index resident w) _ (λ accessed.
        Moves-bind none p (account tiers touch admit kind pid cell p index resident accessed) _
          (λ counted. unmoved p))
  latched-Moves index resident w false =
      Moves-bind none p (unpin (w.view.frames index).pin_control) _ (λ word. unmoved p)

  located-Moves :
      (s : Seen) (resident : ℕ) (found : Option ℕ)
      → Moves none p (located tiers touch admit kind pid cell p s resident found)
  unfolding located
  located-Moves s resident none = unmoved p
  located-Moves s resident (some index) =
      Moves-bind none p (assert (ltb index s.world.view.frame_count)) _ (λ _.
        if-cases (Moves none p) (try_pin s.control).1 _ _
          (λ _.
            Moves-bind none p
              (resident_is_exact s.world.view cell pid resident (s.world.view.frames index)) _
              (latched-Moves index resident s.world))
          (λ _. unmoved p))

  in_state-Moves :
      (s : Seen) (m : Run SwipState)
      → Moves (answer_in pid m s.fault) p (m >>= in_state tiers touch admit kind pid cell p s)
  unfolding in_state
  in_state-Moves s panicked = tt
  in_state-Moves s (done (hot r)) =
      Moves-bind none p (index_of_resident s.world.view.layout s.world.view.frame_count r) _
        (located-Moves s r)
  in_state-Moves s (done (cooling r)) =
      Moves-bind none p (index_of_resident s.world.view.layout s.world.view.frame_count r) _
        (located-Moves s r)
  in_state-Moves s (done (evicted named)) = elim (Bool-cases (named == pid)) [
    | inl same ↦ rw same (faulted_in-Moves p (recorded (first_fault p.faulted) s.world) s.fault)
    | inr other ↦ rw other (unmoved p)
  ]

  -- A round leaves in the variables what the answer of its fault says, if it asked for one.
  pub fix_round-Moves :
      (s : Seen) → Moves (answer_of pid s) p (fix_round tiers touch admit kind pid cell p s)
  unfolding fix_round
  fix_round-Moves s = by_flag s.stopping
    where
      by_flag :
          (b : Bool)
          → Moves (if b then none else answer_in pid (load s.handle) s.fault) p (
              if b
              then done (s.world, p, failed shutting_down)
              else (load s.handle >>= in_state tiers touch admit kind pid cell p s))
      by_flag true = unmoved p
      by_flag false = in_state-Moves s (load s.handle)
