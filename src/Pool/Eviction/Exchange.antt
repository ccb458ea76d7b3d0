-- ===== src/Pool/Eviction/Exchange.antt =====
-- The exchanges at the end of `evict_exact` of crates/tierbuf/src/pool.rs, and what it owes to a page.
use tierbuf.Prelude.{
  ℕ, ◌≡◌, ◌≢◌, refl, ◌⊎◌, inl, inr, Bool, true, false, ◌||◌, Bool-cases, Option, none, some, arith,
  ◌==◌, Run, done, panicked,
}
use tierbuf.Swip.{
  invalid_pid, SwipState, evicted, SwipInner, Swapped, swapped, observed, decode, is_valid,
  encode_evicted, encode_hot, encode_cooling, compare_exchange, try_resurrect, try_unswizzle,
}
use tierbuf.Swip.Words.{word_of}
use tierbuf.Frame.{
  evicting, exclusive_section, Frame, clear_after_eviction, release_eviction, is_evicting,
}
use tierbuf.Pool.Backend.{TierBackend, ok, err, Location}
use tierbuf.Pool.Eviction.{freed, busy, stale, Storage, is_none, Evicted}
use tierbuf.Pool.Eviction.WriteBack.{At}

-- The page of `pid` is `page`, with the frame that holds it: its backing, if it is clean, is the
-- page.
abbrev pub IsBacked : (T : TierBackend) (pid : ℕ) → T.Page → Storage T → Frame → Type 0
IsBacked T pid page s f =
    f.dirty ≡ false → (l : Location) → s.directory pid ≡ some l → At T s l page

-- Each page has a location of its own.
abbrev pub IsUnshared : (T : TierBackend) (pid : ℕ) → Storage T → Type 0
IsUnshared T pid s =
    (other : ℕ) (l m : Location)
    → other ≢ pid
    → s.directory pid ≡ some l
    → s.directory other ≡ some m
    → m ≢ l

-- The other pages are where they were.
abbrev pub Spares : (T : TierBackend) (pid : ℕ) → (s s' : Storage T) → Type 0
Spares T pid s s' =
    (other : ℕ) (l : Location) (p : T.Page)
    → other ≢ pid
    → s.directory other ≡ some l
    → At T s l p
    → (s'.directory other ≡ some l) × At T s' l p

-- The frame has no page any more, and its last generation.
pub record IsVacant (last : ℕ) (f : Frame) : Type 0 where
  pub pid : f.pid ≡ invalid_pid
  pub owner : f.owner_swip ≡ none
  pub clean : f.dirty ≡ false
  pub generation : f.generation ≡ last
  pub unpinned : f.pin_control ≡ 0

-- A handle that cools at the address is hot there, and any other is as it was.
abbrev pub Resurrects : (resident : ℕ) → (c c' : SwipInner) → Type 0
Resurrects resident c c' =
    ((c.word ≡ encode_cooling resident) × (c' ≡ record c { word = resident }))
    ⊎ ((c.word ≢ encode_cooling resident) × (c' ≡ c))

-- The frame is as it was but for its reservation, which has ended, its backing is as it was, and its
-- handle is resurrected if it cools there.
abbrev pub IsHeld :
    (T : TierBackend) (pid resident : ℕ)
    → T.Page
    → Storage T
    → (seen : SwipInner) → Frame
    → Storage T
    → Frame
    → SwipInner
    → Type 0
IsHeld T pid resident page s seen f s' f' cell =
    Spares T pid s s'
    × (s'.directory pid ≡ s.directory pid)
    × (f' ≡ record f { pin_control = 0 })
    × IsBacked T pid page s' f'
    × Resurrects resident seen cell

-- The call returns and keeps the bytes of every page. If it freed the frame, the handle cooled at its
-- address and now names the page as evicted, the frame is vacant, and the directory names a location
-- that holds the page. Else the frame is held, and the call was stale because the handle did not cool
-- there, or it failed to write a page that is dirty or has no backing.
abbrev pub Evicts :
    (T : TierBackend) (pid resident : ℕ)
    → T.Page
    → Storage T
    → (seen : SwipInner) → Frame
    → Run (Evicted T)
    → Type 0
Evicts T pid resident page s seen f panicked = ⊥
Evicts T pid resident page s seen f (done (s', f', cell, ok freed)) =
    Spares T pid s s'
    × ((l : Location) × (s'.directory pid ≡ some l) × At T s' l page)
    × IsVacant f.generation f'
    × (seen.word ≡ encode_cooling resident)
    × (cell ≡ record seen { word = word_of (evicted pid) })
Evicts T pid resident page s seen f (done (s', f', cell, ok busy)) = ⊥
Evicts T pid resident page s seen f (done (s', f', cell, ok stale)) =
    IsHeld T pid resident page s seen f s' f' cell × (seen.word ≢ encode_cooling resident)
Evicts T pid resident page s seen f (done (s', f', cell, err e)) =
    IsHeld T pid resident page s seen f s' f' cell × ((f.dirty ≡ true) ⊎ (s.directory pid ≡ none))

pub exchanged :
    (expected replacement : ℕ) (seen : SwipInner) (state : SwipState)
    → decode seen.word ≡ done state
    → ((seen.word ≡ expected)
        × (compare_exchange expected replacement seen
            ≡ done (record seen { word = replacement }, swapped)))
      ⊎ ((seen.word ≢ expected)
          × (compare_exchange expected replacement seen ≡ done (seen, observed state)))
unfolding compare_exchange
exchanged expected replacement seen state e = elim (Bool-cases (seen.word == expected)) [
  | inl same ↦ inl (ground arith, rw same refl)
  | inr other ↦ inr (ground arith, rw (other, e) refl)
]

pub evicted_word :
    (pid : ℕ) → is_valid pid ≡ true → encode_evicted pid ≡ done (word_of (evicted pid))
unfolding encode_evicted is_valid
evicted_word pid valid = ground arith

pub unswizzled :
    (resident pid : ℕ) (seen : SwipInner) (state : SwipState)
    → is_valid pid ≡ true
    → decode seen.word ≡ done state
    → ((seen.word ≡ encode_cooling resident)
        × (try_unswizzle resident pid seen
            ≡ done (record seen { word = word_of (evicted pid) }, swapped)))
      ⊎ ((seen.word ≢ encode_cooling resident)
          × (try_unswizzle resident pid seen ≡ done (seen, observed state)))
unfolding try_unswizzle
unswizzled resident pid seen state valid e =
    rw (evicted_word pid valid) (exchanged _ _ seen state e)

pub resurrected :
    (resident : ℕ) (seen : SwipInner) (state : SwipState)
    → decode seen.word ≡ done state
    → (cell : SwipInner) × (r : Swapped) × (try_resurrect resident seen ≡ done (cell, r))
      × Resurrects resident seen cell
unfolding try_resurrect encode_hot
resurrected resident seen state e =
    elim (exchanged (encode_cooling resident) resident seen state e) [
      | inl (same, run) ↦ (record seen { word = resident }, swapped, run, inl (same, refl))
      | inr (other, run) ↦ (seen, observed state, run, inr (other, refl))
    ]

-- A reserved frame that is cleared, up to the end of its reservation.
pub cleared :
    (f : Frame)
    → f.pin_control ≡ evicting
    → (g : Frame) × (clear_after_eviction f ≡ done g)
      × (g.pin_control ≡ evicting)
      × IsVacant f.generation (record g { pin_control = 0 })
unfolding clear_after_eviction is_evicting
cleared f e =
    let test : (f.pin_control == evicting) ≡ true = ground arith in
    (
      record f {
        latch = exclusive_section f.latch;
        pid = invalid_pid;
        owner_swip = none;
        dirty = false;
        heat_epoch = 0;
      },
      rw test refl,
      e,
      record { pid = refl; owner = refl; clean = refl; generation = refl; unpinned = refl },
    )

pub releases : (word : ℕ) → word ≡ evicting → release_eviction word ≡ done 0
unfolding release_eviction
releases word e = ground arith

pub unbacked :
    (dirty : Bool) (o : Option Location) → (dirty || is_none o) ≡ true → dirty ≡ false → o ≡ none
unbacked true o y n = cc
unbacked false none y n = refl
unbacked false (some l) y n = let no_way : false ≡ true = y in cc
