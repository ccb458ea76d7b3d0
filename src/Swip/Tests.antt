-- ===== src/Swip/Tests.antt =====
-- Runs of a handle, and the theorems of `Swip` at concrete inputs.
use tierbuf.Prelude.{ℕ, ◌≡◌, refl, All, List, [], ◌∷◌, arith, done}
use tierbuf.Swip.{
  hot, cooling, evicted, from_encoded, encode_evicted, is_valid, encode_hot, encode_cooling, decode,
  SwipInner, swapped, observed, compare_exchange, try_swizzle, try_mark_cooling, try_resurrect,
  try_unswizzle,
}
use tierbuf.Swip.Words.{IsResident, IsState}
use tierbuf.Swip.Machine.{
  Request, swizzle, mark_cooling, resurrect, unswizzle, serve, serve_all, next_all, IsCall,
}
use tierbuf.Swip.Refinement.{at, serve_all-next_all}
use tierbuf.Swip.Edges.{fresh}

abbrev frame_at : ℕ
frame_at = 0x1000

-- The test `exact_cas_rejects_stale_pid_and_resident_identities` of the source.
abbrev life : List Request
life =
    swizzle 22 0x2000
    ∷ swizzle 21 frame_at
    ∷ mark_cooling 0x2000
    ∷ unswizzle frame_at 21
    ∷ mark_cooling frame_at
    ∷ resurrect 0x2000
    ∷ unswizzle 0x2000 21
    ∷ unswizzle frame_at 21
    ∷ []

life_runs :
    serve_all life (fresh 21)
    ≡ done (
      fresh 21,
      observed (evicted 21)
          ∷ swapped
          ∷ observed (hot frame_at)
          ∷ observed (hot frame_at)
          ∷ swapped
          ∷ observed (cooling frame_at)
          ∷ observed (cooling frame_at)
          ∷ swapped
          ∷ [],
    )
unfolding serve_all serve try_swizzle try_mark_cooling try_resurrect try_unswizzle compare_exchange
    encode_evicted encode_hot encode_cooling decode is_valid from_encoded
life_runs = refl

frame_at-IsResident : IsResident frame_at
frame_at-IsResident = omega arith

life-IsCall : All IsCall life
life-IsCall = omega arith

serve_all-next_all_example :
    (serve_all life (fresh 21)
      ≡ done (at (fresh 21) (next_all life (evicted 21)).0, (next_all life (evicted 21)).1))
    × IsState (next_all life (evicted 21)).0
serve_all-next_all_example =
    serve_all-next_all life (fresh 21) (evicted 21) life-IsCall (omega arith) refl

abbrev bound : SwipInner
bound = record { pid = 3; owner_id = 5; word = 13 }
