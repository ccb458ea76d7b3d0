-- ===== src/Swip/Words.antt =====
-- The tagged word of a handle against the state that it stands for.
use tierbuf.Prelude.{ℕ, ◌+◌, ◌*◌, ◌%◌, ◌^◌, ◌≤◌, ◌<◌, ◌≡◌, refl, ap, ◌∙◌, arith, Run, done}
use tierbuf.Swip.{
  max_pid, SwipState, hot, cooling, evicted, encode_evicted, encode_hot, encode_cooling, decode,
}

-- The addresses that `from_non_null` lets through, in a 64-bit word.
pub record IsResident (address : ℕ) : Type 0 where
  pub nonzero : 0 < address
  pub aligned : address % 4 ≡ 0
  pub fits : address < 2 ^ 64

abbrev pub IsState : SwipState → Type 0
IsState (hot r) = IsResident r
IsState (cooling r) = IsResident r
IsState (evicted pid) = pid ≤ max_pid

-- The word of each state, by the encoder that the transitions use.
unfoldable pub encode : SwipState → Run ℕ
unfolding encode_evicted encode_hot encode_cooling
encode (hot r) = done (encode_hot r)
encode (cooling r) = done (encode_cooling r)
encode (evicted pid) = encode_evicted pid

abbrev pub word_of : SwipState → ℕ
word_of (hot r) = r
word_of (cooling r) = r + 2
word_of (evicted pid) = pid * 4 + 1

pub encode-word_of : (s : SwipState) → IsState s → encode s ≡ done (word_of s)
unfolding encode
encode-word_of (hot r) h = refl
encode-word_of (cooling r) h = ground arith
encode-word_of (evicted pid) h = ground arith

pub decode-word_of : (s : SwipState) → IsState s → decode (word_of s) ≡ done s
unfolding decode
decode-word_of (hot r) h = ground arith
decode-word_of (cooling r) h = ground arith
decode-word_of (evicted pid) h = ground arith

pub word_of-fits : (s : SwipState) → IsState s → word_of s < 2 ^ 64
word_of-fits (hot r) h = omega arith
word_of-fits (cooling r) h = omega arith
word_of-fits (evicted pid) h = omega arith

pub word_of-decode :
    (w : ℕ) → w < 2 ^ 64 → {s : SwipState} → decode w ≡ done s → IsState s × (word_of s ≡ w)
unfolding decode
word_of-decode w h {s = hot r} e = ground arith
word_of-decode w h {s = cooling r} e = ground arith
word_of-decode w h {s = evicted pid} e = ground arith

-- The word of every valid state fits 64 bits and decodes to that state.
pub decode-encode :
    (s : SwipState) → IsState s → (w : ℕ) × (encode s ≡ done w) × (decode w ≡ done s) × (w < 2 ^ 64)
decode-encode s h = (word_of s, encode-word_of s h, decode-word_of s h, word_of-fits s h)

-- A 64-bit word that decodes at all decodes to a valid state, which encodes to that word.
pub encode-decode :
    (w : ℕ) → w < 2 ^ 64 → (s : SwipState) → decode w ≡ done s → IsState s × (encode s ≡ done w)
encode-decode w h s e =
    let (valid, same) = word_of-decode w h e in (valid, encode-word_of s valid ∙ ap done same)
