-- ===== src/Pool/Fix/Exchanges.antt =====
-- Exchanges of a resident handle, and changes of a frame's heat, keep the frame exact.
use tierbuf.Prelude.{
  ℕ, ◌≤◌, ◌≡◌, refl, sym, ap, ◌∙◌, subst, ◌⊎◌, inl, inr, at_index, off_index, update, ℕ_discrete,
  done,
}
use tierbuf.Swip.{
  SwipState, hot, cooling, SwipInner, Swapped, swapped, observed, decode, load, max_pid,
}
use tierbuf.Swip.Words.{decode-word_of}
use tierbuf.Swip.Machine.{
  Request, next, serve, SwipState-discrete, advance, to_state, from_state, IsRequest,
}
use tierbuf.Swip.Refinement.{Shows, at, serve-next, next-Shows}
use tierbuf.Frame.{Frame, frame_pid}
use tierbuf.Metrics.{record_second_chance}
use tierbuf.Pool.Fix.{World, with_frame, with_cell, second_chance}
use tierbuf.Pool.Fix.Kept.{hits, misses, Owned}

-- Either exchange of a resident handle leaves it naming the same frame.
abbrev pub Names : (pid r : ℕ) → SwipInner → Type 0
Names pid r c = Shows pid c (hot r) ⊎ Shows pid c (cooling r)

stays :
    (pid r : ℕ) (c : SwipInner) (q : Request) (st : SwipState)
    → (st ≡ hot r) ⊎ (st ≡ cooling r)
    → (to_state q ≡ hot r) ⊎ (to_state q ≡ cooling r)
    → (d : Dec (st ≡ from_state q)) → Shows pid c (advance q st d).0
    → Names pid r c
stays pid r c q st (inl e) t (no _) sh = inl (subst (Shows pid c) e sh)
stays pid r c q st (inr e) t (no _) sh = inr (subst (Shows pid c) e sh)
stays pid r c q st h (inl t) (yes _) sh = inl (subst (Shows pid c) t sh)
stays pid r c q st h (inr t) (yes _) sh = inr (subst (Shows pid c) t sh)

pub exchange :
    (pid r : ℕ) (c : SwipInner) (q : Request)
    → pid ≤ max_pid
    → IsRequest pid q
    → (to_state q ≡ hot r) ⊎ (to_state q ≡ cooling r)
    → Names pid r c
    → (c' : SwipInner) × (out : Swapped) × (serve q c ≡ done (c', out)) × Names pid r c'
unfolding next
exchange pid r c q small v t (inl sh) = (
  at c (next q (hot r)).0,
  (next q (hot r)).1,
  serve-next pid q c (hot r) small v sh,
  stays pid r _ q (hot r) (inl refl) t (SwipState-discrete (hot r) (from_state q))
      (next-Shows pid q c (hot r) small v sh),
)
exchange pid r c q small v t (inr sh) = (
  at c (next q (cooling r)).0,
  (next q (cooling r)).1,
  serve-next pid q c (cooling r) small v sh,
  stays pid r _ q (cooling r) (inr refl) t (SwipState-discrete (cooling r) (from_state q))
      (next-Shows pid q c (cooling r) small v sh),
)

pub names_loads :
    (pid r : ℕ) (c : SwipInner) → Names pid r c → (st : SwipState) × (load c ≡ done st)
unfolding load
names_loads pid r c (inl sh) = (hot r, ap decode sh.word ∙ decode-word_of (hot r) sh.valid)
names_loads pid r c (inr sh) = (cooling r, ap decode sh.word ∙ decode-word_of (cooling r) sh.valid)

pub second_chance-quiet :
    (o : Swapped) → (hits (second_chance o) ≡ 0) × (misses (second_chance o) ≡ 0)
unfolding record_second_chance
second_chance-quiet swapped = (refl, refl)
second_chance-quiet (observed _) = (refl, refl)

-- A change of the handle that still names the frame.
pub moved-Owned :
    (pid cell index r : ℕ) (w : World) (c : SwipInner)
    → Owned w.view pid cell index r
    → Names pid r c
    → Owned (with_cell cell c w).view pid cell index r
moved-Owned pid cell index r w c o n = record {
  laid = o.laid;
  inside = o.inside;
  address = o.address;
  resident = o.resident;
  names = o.names;
  owned = o.owned;
  shows = subst (Names pid r) (sym (at_index w.view.cells cell c cell refl)) n;
}

same_pid : (f : Frame) (heat : ℕ) → frame_pid (record f { heat_epoch = heat }) ≡ frame_pid f
unfolding frame_pid
same_pid f heat = refl

-- A change of a frame that keeps its pins keeps all pins.
pub update-pin :
    (frames : ℕ → Frame) (index : ℕ) (f : Frame) (j : ℕ)
    → f.pin_control ≡ (frames index).pin_control
    → (update frames index f j).pin_control ≡ (frames j).pin_control
update-pin frames index f j e = elim (ℕ_discrete index j) [
  | yes same ↦
      ap (λ (g : Frame). g.pin_control) (at_index frames index f j same)
      ∙ e
      ∙ ap (λ k. (frames k).pin_control) same
  | no d ↦ ap (λ (g : Frame). g.pin_control) (off_index frames index f j d)
]

pub touched-Owned :
    (pid cell index r heat : ℕ) (w : World)
    → Owned w.view pid cell index r
    → Owned
        (with_frame index (record (w.view.frames index) { heat_epoch = heat }) w).view
        pid
        cell
        index
        r
touched-Owned pid cell index r heat w o = record {
  laid = o.laid;
  inside = o.inside;
  address = o.address;
  resident = o.resident;
  names =
      ap frame_pid (
        at_index w.view.frames index (record (w.view.frames index) { heat_epoch = heat }) index
          refl)
      ∙ same_pid (w.view.frames index) heat
      ∙ o.names;
  owned =
      ap (λ (g : Frame). g.owner_swip)
        (at_index w.view.frames index (record (w.view.frames index) { heat_epoch = heat }) index
          refl)
      ∙ o.owned;
  shows = o.shows;
}
