-- ===== src/Heat/Decay.antt =====
-- Lazy decay against the tracker that halves every heat at every epoch.
use tierbuf.Prelude.{
  ℕ, suc, ◌+◌, ◌-◌, ◌*◌, ◌/◌, ◌%◌, ◌^◌, ◌≤◌, ◌<◌, ◌≡◌, refl, ◌∙◌, List, [], ◌∷◌, arith, shift_suc,
  shift_zero, shift-le, ap, ℕ_discrete,
}
use tierbuf.Heat.{
  heat_one, pack_heat_epoch, unpack_heat_epoch, decay, epochs_since, on_epoch, current_heat_raw,
  saturating_add, on_access,
}

-- A word of the two halves gives them back.
pub unpack-pack :
    (heat epoch : ℕ)
    → heat < 2 ^ 32
    → epoch < 2 ^ 32
    → unpack_heat_epoch (pack_heat_epoch heat epoch) ≡ (heat, epoch)
unfolding unpack_heat_epoch pack_heat_epoch
unpack-pack heat epoch h e = ground arith

pub decay-zero : (h : ℕ) → decay h 0 ≡ h
unfolding decay
decay-zero h = shift_zero h

-- One more epoch halves the decayed heat, also where the shift reaches the width of the word.
pub decay-suc : (h k : ℕ) → h < 2 ^ 32 → decay h (suc k) ≡ decay h k / 2
unfolding decay
decay-suc h k lt = elim (ℕ_discrete k 31) [
  | yes e ↦ rw e (omega arith)
  | no n ↦ ground (arith, shift_suc h k)
]

pub decay-le : (h k : ℕ) → decay h k ≤ h
unfolding decay
decay-le h k = ground (arith, shift-le h k)

-- What happens to one frame: an access, or the end of an epoch.
pub data Event : Type 0 where
  access epoch_end : Event

-- The tracker's counter and the frame's packed word.
pub record Tracked : Type 0 where
  pub epoch : ℕ
  pub word : ℕ

unfoldable pub track : List Event → Tracked → Tracked
track [] t = t
track (access ∷ es) t = track es (record t { word = (on_access t.epoch t.word).0 })
track (epoch_end ∷ es) t = track es (record t { epoch = on_epoch t.epoch })

-- The tracker that scans every frame at every epoch.
unfoldable pub eager : List Event → ℕ → ℕ
eager [] heat = heat
eager (access ∷ es) heat = eager es (saturating_add heat heat_one)
eager (epoch_end ∷ es) heat = eager es (heat / 2)

abbrev pub epochs_in : List Event → ℕ
epochs_in [] = 0
epochs_in (access ∷ es) = epochs_in es
epochs_in (epoch_end ∷ es) = suc (epochs_in es)

-- `k` epochs have ended since the pair in the word was stored.
record Since (k : ℕ) (t : Tracked) : Type 0 where
  counter : t.epoch < 2 ^ 32
  fits : t.word < 2 ^ 64
  few : k < 2 ^ 32
  since : t.epoch ≡ (t.word / 2 ^ 32 + k) % 2 ^ 32

abbrev heat_now : Tracked → ℕ
heat_now t = current_heat_raw t.epoch t.word

Since-heat : (k : ℕ) (t : Tracked) → Since k t → heat_now t ≡ decay (t.word % 2 ^ 32) k
unfolding current_heat_raw unpack_heat_epoch epochs_since
Since-heat k t s = ap (decay (t.word % 2 ^ 32)) (omega arith)

epoch_end-Since :
    (k : ℕ) (t : Tracked)
    → suc k < 2 ^ 32
    → Since k t
    → Since (suc k) (record t { epoch = on_epoch t.epoch })
      × (heat_now (record t { epoch = on_epoch t.epoch }) ≡ heat_now t / 2)
unfolding on_epoch
epoch_end-Since k t few s =
    let t' : Tracked = record t { epoch = (t.epoch + 1) % 2 ^ 32 } in
    let s' : Since (suc k) t' = omega arith in
    (
      s',
      omega (
        arith,
        Since-heat k t s,
        Since-heat (suc k) t' s',
        decay-suc (t.word % 2 ^ 32) k (omega arith),
      ),
    )

-- An undisturbed access stores the saturated sum of the decayed heat and one access, at the epoch
-- of the counter, and returns that heat.
pub on_access_lem :
    (epoch word : ℕ)
    → word < 2 ^ 64
    → let heat = saturating_add (current_heat_raw epoch word) heat_one in
      on_access epoch word ≡ (pack_heat_epoch heat epoch, heat)
unfolding on_access current_heat_raw unpack_heat_epoch pack_heat_epoch
on_access_lem epoch word fits = ground arith

access-Since :
    (k : ℕ) (t : Tracked)
    → Since k t
    → let t' : Tracked = record t { word = (on_access t.epoch t.word).0 } in
      Since 0 t' × (heat_now t' ≡ saturating_add (heat_now t) heat_one)
unfolding pack_heat_epoch
access-Since k t s =
    let heat = saturating_add (heat_now t) heat_one in
    let t' : Tracked = record t { word = (on_access t.epoch t.word).0 } in
    let e : t'.word ≡ t.epoch * 2 ^ 32 + heat =
      ap (λ r. r.0) (on_access_lem t.epoch t.word s.fits) in
    let small : heat < 2 ^ 32 = ground arith in
    let s' : Since 0 t' = omega arith in
    (s', omega (arith, Since-heat 0 t' s', decay-zero (t'.word % 2 ^ 32)))

Since-eager :
    (es : List Event) (k : ℕ) (t : Tracked)
    → k + epochs_in es < 2 ^ 32
    → Since k t
    → heat_now (track es t) ≡ eager es (heat_now t)
unfolding track eager
Since-eager [] k t few s = refl
Since-eager (access ∷ es) k t few s =
    let (s', e) = access-Since k t s in Since-eager es 0 _ (omega arith) s' ∙ ap (eager es) e
Since-eager (epoch_end ∷ es) k t few s =
    let (s', e) = epoch_end-Since k t (omega arith) s in
    Since-eager es (suc k) _ (omega arith) s' ∙ ap (eager es) e

-- From any counter and any packed word, and over any accesses and ends of epochs that come one after
-- another, where fewer than 2^32 epochs end between the store of the word and the end of these calls,
-- the lazy tracker reports the heat of the eager one, which halves at every epoch and adds one access
-- with saturation.
pub track-eager :
    (es : List Event) (t : Tracked)
    → t.epoch < 2 ^ 32
    → t.word < 2 ^ 64
    → epochs_since t.epoch (unpack_heat_epoch t.word).1 + epochs_in es < 2 ^ 32
    → current_heat_raw (track es t).epoch (track es t).word
      ≡ eager es (current_heat_raw t.epoch t.word)
unfolding epochs_since unpack_heat_epoch
track-eager es t counter fits few =
    let k = (t.epoch + 2 ^ 32 - t.word / 2 ^ 32 % 2 ^ 32) % 2 ^ 32 in
    let s : Since k t = omega arith in Since-eager es k t few s
