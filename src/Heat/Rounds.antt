-- ===== src/Heat/Rounds.antt =====
-- Rounds of `on_access` by many threads on one frame, in the order of their exchanges.
use tierbuf.Prelude.{
  ℕ, suc, ◌+◌, ◌-◌, ◌*◌, ◌%◌, ◌^◌, ◌≤◌, ◌<◌, min, ◌≡◌, refl, ◌⊎◌, inl, inr, Bool, true, false, List,
  [], ◌∷◌, arith, All, ℕ_discrete, if◌then◌else◌, ap, ◌∙◌,
}
use tierbuf.Heat.{
  heat_one, max_heat, pack_heat_epoch, decay, epochs_since, saturating_add, on_access_once,
}
use tierbuf.Heat.Decay.{decay-zero}

-- The pair that the thread observed, and whether its weak exchange fails spuriously.
pub record Round : Type 0 where
  pub spurious : Bool
  pub observed : ℕ × ℕ

abbrev pub IsPair : ℕ × ℕ → Type 0
IsPair (heat, epoch) = (heat < 2 ^ 32) × (epoch < 2 ^ 32)

-- The word after all rounds, and how many of them were done, that is, how many calls returned.
unfoldable pub rounds : ℕ → List Round → ℕ → ℕ × ℕ
rounds epoch [] word = (word, 0)
rounds epoch (r ∷ rs) word =
    let (word', done, seen) = on_access_once r.spurious epoch r.observed word in
    let (last, count) = rounds epoch rs word' in (last, if done then suc count else count)

pack-injective :
    (h e h' e' : ℕ)
    → IsPair (h, e)
    → IsPair (h', e')
    → pack_heat_epoch h e ≡ pack_heat_epoch h' e'
    → (h ≡ h') × (e ≡ e')
unfolding pack_heat_epoch
pack-injective h e h' e' p q same = omega arith

-- What a round may do to the packed pair of `heat` and `epoch`.
abbrev Does : (heat epoch : ℕ) → ℕ × Bool × (ℕ × ℕ) → Type 0
Does heat epoch (word', done, seen) =
    ((done ≡ true) × (word' ≡ pack_heat_epoch (saturating_add heat heat_one) epoch))
    ⊎ ((done ≡ false) × (word' ≡ pack_heat_epoch heat epoch))

decay_now : (epoch heat : ℕ) → epoch < 2 ^ 32 → decay heat (epochs_since epoch epoch) ≡ heat
unfolding epochs_since
decay_now epoch heat h =
    let e : (epoch + 2 ^ 32 - epoch) % 2 ^ 32 ≡ 0 = omega arith in rw e (decay-zero heat)

once-Does :
    (spurious : Bool) (o : ℕ × ℕ) (heat epoch : ℕ)
    → IsPair o
    → IsPair (heat, epoch)
    → Does heat epoch (on_access_once spurious epoch o (pack_heat_epoch heat epoch))
unfolding on_access_once
once-Does true o heat epoch p q = inr (refl, refl)
once-Does false (h, e) heat epoch p q =
    elim (ℕ_discrete (pack_heat_epoch heat epoch) (pack_heat_epoch h e)) [
      | yes same ↦
          let (eh, ee) = pack-injective heat epoch h e q p same in
          ground (arith, decay_now epoch heat)
      | no n ↦ ground arith
    ]

-- Over any rounds at one epoch, whatever pairs their threads observed before and however often the
-- weak exchange fails, the frame's heat grows by one access for each call that returns, up to
-- saturation, and its epoch stays: no access is lost.
rounds_lem :
    (rs : List Round) (heat epoch : ℕ)
    → All (λ r. IsPair r.observed) rs
    → IsPair (heat, epoch)
    → let (word', count) = rounds epoch rs (pack_heat_epoch heat epoch) in
      word' ≡ pack_heat_epoch (min max_heat (heat + count * heat_one)) epoch
unfolding rounds
rounds_lem [] heat epoch p q =
    let e : min max_heat (heat + 0 * heat_one) ≡ heat = omega arith in rw e
rounds_lem (r ∷ rs) heat epoch p q = elim (once-Does r.spurious r.observed heat epoch p.0 q) [
  | inl d ↦
      rw (d.0, d.1)
        (rounds_lem rs (saturating_add heat heat_one) epoch p.1 (ground arith)
          ∙ ap (λ h. pack_heat_epoch h epoch) (ground arith))
  | inr d ↦ rw (d.0, d.1) (rounds_lem rs heat epoch p.1 q)
]

-- A call that loaded the counter before other threads stored a pair at a later epoch (by up to
-- 2^32 - 32 epochs) takes that pair for one of at least 32 epochs ago: it stores the heat of one
-- access, whatever the heat was, and sets the frame's epoch back.
pub on_access_once-stale :
    (heat epoch gap : ℕ)
    → IsPair (heat, epoch)
    → 0 < gap
    → gap ≤ 2 ^ 32 - 32
    → let later = (epoch + gap) % 2 ^ 32 in
      (on_access_once false epoch (heat, later) (pack_heat_epoch heat later)).0
      ≡ pack_heat_epoch heat_one epoch
unfolding on_access_once epochs_since decay
on_access_once-stale heat epoch gap p pos few = ground arith
