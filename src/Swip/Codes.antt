-- ===== src/Swip/Codes.antt =====
-- The valid states of a handle and the words that decode are the same type.
use std.Equiv.{Iso, iso_to_equiv}
use std.Path.{transport, transport⁻¹}
use std.Univalence.{iso_to_path, ua-β, ua-β⁻¹}
use mathlib.Core.HLevel.{Σ_prop_path, ×_prop}
use native.Mathlib.Bridge.{le_prop}
use native.Mathlib.Nat.{ℕ_set}
use tierbuf.Prelude.{ℕ, ◌^◌, ◌<◌, ◌≡◌, ◌≢◌, refl, sym, ap, ◌∙◌, Run, done, panicked}
use tierbuf.Swip.{SwipState, hot, cooling, evicted, decode}
use tierbuf.Swip.Words.{
  IsResident, IsState, encode, encode-word_of, word_of, decode-word_of, word_of-decode,
  word_of-fits,
}

IsResident-prop : (r : ℕ) → IsProp (IsResident r)
IsResident-prop r a b = λ i. record {
  nonzero = le_prop a.nonzero b.nonzero i;
  aligned = ℕ_set _ _ a.aligned b.aligned i;
  fits = le_prop a.fits b.fits i;
}

IsState-prop : (s : SwipState) → IsProp (IsState s)
IsState-prop (hot r) = IsResident-prop r
IsState-prop (cooling r) = IsResident-prop r
IsState-prop (evicted pid) = le_prop

abbrev pub State : Type 0
State = (s : SwipState) × IsState s

abbrev pub Word : Type 0
Word = (w : ℕ) × ((w < 2 ^ 64) × (decode w ≢ panicked))

code_prop : (w : ℕ) → IsProp ((w < 2 ^ 64) × (decode w ≢ panicked))
code_prop w = ×_prop le_prop (hlevel)

state_of_run :
    (w : ℕ)
    → w < 2 ^ 64
    → (r : Run SwipState) → decode w ≡ r
    → r ≢ panicked
    → (s : SwipState) × IsState s × (decode w ≡ done s) × (word_of s ≡ w)
state_of_run w h panicked e n = absurd (n refl)
state_of_run w h (done s) e n = let (valid, same) = word_of-decode w h e in (s, valid, e, same)

state_of_word : (c : Word) → (s : SwipState) × IsState s × (decode c.0 ≡ done s) × (word_of s ≡ c.0)
state_of_word c = state_of_run c.0 c.1.0 (decode c.0) refl c.1.1

decoded : Word → State
decoded c = let (s, valid, _, _) = state_of_word c in (s, valid)

encoded : State → Word
encoded (s, valid) = (
  word_of s,
  (
    word_of-fits s valid,
    (λ e. let clash : done s ≡ panicked = sym (decode-word_of s valid) ∙ e in cc),
  ),
)

back : (a : State) → (decoded (encoded a)).0 ≡ a.0
unfolding decoded encoded
back (s, valid) =
    let (s', _, at, _) = state_of_word (encoded (s, valid)) in
    let both : done s' ≡ done s = sym at ∙ decode-word_of s valid in cc

code : Iso State Word
unfolding decoded encoded
code = record {
  fun = encoded;
  inv = decoded;
  rinv = λ c. Σ_prop_path code_prop (state_of_word c).3;
  linv = λ a. Σ_prop_path IsState-prop (back a);
}

-- The valid states and the words that fit 64 bits and decode are one type, by a path along which a
-- state is carried to the word that encodes it, and a word back to the state that it decodes to.
pub states_as_words :
    (p : State ≡ Word) × ((s : State) → encode s.0 ≡ done (transport p s).0)
    × ((c : Word) → decode c.0 ≡ done (transport⁻¹ p c).0)
unfolding code encoded decoded
states_as_words = (
  iso_to_path code,
  (λ (s : State).
      encode-word_of s.0 s.1 ∙ ap (λ (c : Word). done c.0) (sym (ua-β (iso_to_equiv code) s))),
  (λ (c : Word).
      (state_of_word c).2 ∙ ap (λ (s : State). done s.0) (sym (ua-β⁻¹ (iso_to_equiv code) c))),
)
