-- ===== src/Latch/Invariant.antt =====
-- What the word of a latch says about the guards that are out, in every interleaving.
use tierbuf.Prelude.{
  ℕ, ◌+◌, ◌%◌, ◌^◌, ◌≤◌, ◌<◌, ◌≡◌, ◌≢◌, refl, sym, ◌⊎◌, inl, List, [], ◌∷◌, arith, All, update,
  sum_to, sum_to-update, sum_to-ge, sum_to-ge_pair, sum_to-zero, ℕ_discrete,
}
use mathlib.Core.Logic.{if_pos, if_neg}
use tierbuf.Latch.{
  exclusive_state, max_shared, state, version, new, try_lock_shared_once, lock_exclusive_once,
  try_upgrade, release_shared, release_exclusive,
}
use tierbuf.Latch.System.{
  Hold, idle, shared_read, exclusive_read, shared, upgrade_read, exclusive, release_read, Act,
  begin_shared, begin_exclusive, begin_upgrade, attempt, release, move, owns_exclusive, owns_shared,
  System, turn, run, start,
}

abbrev pub exclusives : ℕ → System → ℕ
exclusives n s = sum_to owns_exclusive n s.hold

abbrev pub shareds : ℕ → System → ℕ
shareds n s = sum_to owns_shared n s.hold

-- The lock state counts the shared guards, or marks the one exclusive guard.
abbrev pub Counts : (word exclusives shareds : ℕ) → Type 0
Counts w e s =
    ((e ≡ 0) × (state w ≡ s) × (s ≤ max_shared)) ⊎ ((e ≡ 1) × (s ≡ 0) × (state w ≡ exclusive_state))

-- A release that has loaded the word still sees it.
abbrev pub IsFresh : ℕ → Hold → Type 0
IsFresh w (release_read c) = c ≡ w
IsFresh w _ = Unit

-- The first `n` threads are the ones that run.
pub record Inv (n : ℕ) (s : System) : Type 0 where
  pub fits : s.word < 2 ^ 64
  pub counts : Counts s.word (exclusives n s) (shareds n s)
  pub held : s.released + exclusives n s ≡ s.acquired
  pub versioned : version s.word ≡ s.released % 2 ^ 48
  pub fresh : (i : ℕ) → i < n → IsFresh s.word (s.hold i)

-- One access of a thread that owns `h`, in a latch with `e` exclusive and `s` shared guards out.
module _ (w e s : ℕ) where
  record Before (h : Hold) : Type 0 where
    fits : w < 2 ^ 64
    counts : Counts w e s
    exclusive_here : owns_exclusive h ≤ e
    shared_here : owns_shared h ≤ s
    fresh : IsFresh w h

  record After (h : Hold) (r : ℕ × Hold) : Type 0 where
    fits : r.0 < 2 ^ 64
    counts :
        (e' s' : ℕ)
        → e' + owns_exclusive h ≡ e + owns_exclusive r.1
        → s' + owns_shared h ≡ s + owns_shared r.1
        → Counts r.0 e' s'
    fresh : IsFresh r.0 r.1
    version_kept : owns_exclusive h ≤ owns_exclusive r.1 → version r.0 ≡ version w
    version_next : owns_exclusive r.1 < owns_exclusive h → version r.0 ≡ (version w + 1) % 2 ^ 48
    word_kept : owns_exclusive h ≡ 0 → e ≡ 1 → r.0 ≡ w

  move-After : (a : Act) (h : Hold) → Before h → After h (move a w h)
  unfolding move try_lock_shared_once lock_exclusive_once try_upgrade release_shared
      release_exclusive state version
  move-After begin_shared idle p = ground arith
  move-After begin_exclusive idle p = ground arith
  move-After begin_upgrade shared p = ground arith
  move-After (attempt b) (shared_read c) p = ground arith
  move-After (attempt b) (exclusive_read c) p = ground arith
  move-After (attempt b) (upgrade_read c) p = ground arith
  move-After release shared p = ground arith
  move-After release exclusive p = ground arith
  move-After release (release_read c) p = ground arith
  move-After _ _ p = ground arith

module _ (n : ℕ) (s : System) (inv : Inv n s) (i : ℕ) (lt : i < n) (a : Act) where
  abbrev after : ℕ × Hold
  after = move a s.word (s.hold i)

  before : Before s.word (exclusives n s) (shareds n s) (s.hold i)
  before = record {
    fits = inv.fits;
    counts = inv.counts;
    exclusive_here = sum_to-ge owns_exclusive n s.hold i lt;
    shared_here = sum_to-ge owns_shared n s.hold i lt;
    fresh = inv.fresh i lt;
  }

  moved : After s.word (exclusives n s) (shareds n s) (s.hold i) after
  moved = move-After s.word (exclusives n s) (shareds n s) a (s.hold i) before

  exclusive_moved :
      sum_to owns_exclusive n (update s.hold i after.1) + owns_exclusive (s.hold i)
      ≡ exclusives n s + owns_exclusive after.1
  exclusive_moved = sum_to-update owns_exclusive n s.hold i after.1 lt

  shared_moved :
      sum_to owns_shared n (update s.hold i after.1) + owns_shared (s.hold i)
      ≡ shareds n s + owns_shared after.1
  shared_moved = sum_to-update owns_shared n s.hold i after.1 lt

  IsFresh-kept :
      (w w' : ℕ) (h : Hold) → (owns_exclusive h ≡ 1 → w' ≡ w) → IsFresh w h → IsFresh w' h
  IsFresh-kept w w' (release_read c) k f = omega (arith, k refl)
  IsFresh-kept w w' _ k f = tt

  -- While another thread owns the exclusive guard, this one cannot change the word.
  other_kept : (j : ℕ) → i ≢ j → j < n → owns_exclusive (s.hold j) ≡ 1 → after.0 ≡ s.word
  other_kept j d ltj o =
      let pair = sum_to-ge_pair owns_exclusive n s.hold i j d lt ltj in
      let one : exclusives n s ≤ 1 = omega (arith, inv.counts) in
      moved.word_kept (omega arith) (omega arith)

  fresh_after : (j : ℕ) → j < n → IsFresh after.0 (update s.hold i after.1 j)
  fresh_after j ltj = elim (ℕ_discrete i j) [
    | yes e ↦ rw (if_pos _ e) moved.fresh
    | no d ↦
        rw (if_neg _ d)
          (IsFresh-kept s.word after.0 (s.hold j) (other_kept j d ltj) (inv.fresh j ltj))
  ]

  -- An access of one of the threads keeps the invariant.
  pub turn-Inv : Inv n (turn (i, a) s)
  unfolding turn
  turn-Inv = record {
    fits = moved.fits;
    counts = moved.counts _ _ exclusive_moved shared_moved;
    held = ground (arith, exclusive_moved, inv.held);
    versioned = ground (arith, moved.version_kept, moved.version_next, inv.versioned);
    fresh = fresh_after;
  }

pub start-Inv : (n : ℕ) → Inv n start
unfolding start new version state
start-Inv n = record {
  fits = omega arith;
  counts = inl (
    sum_to-zero owns_exclusive n _ (λ _. refl),
    sym (sum_to-zero owns_shared n _ (λ _. refl)),
    omega (arith, sum_to-zero owns_shared n (λ _. idle) (λ _. refl)),
  );
  held = omega (arith, sum_to-zero owns_exclusive n (λ _. idle) (λ _. refl));
  versioned = refl;
  fresh = λ _ _. tt;
}

-- The schedules that name only the threads that run.
abbrev pub IsSchedule : ℕ → List (ℕ × Act) → Type 0
IsSchedule n = All (λ t. t.0 < n)

pub run-Inv :
    (n : ℕ) (ts : List (ℕ × Act)) (s : System) → IsSchedule n ts → Inv n s → Inv n (run ts s)
unfolding run
run-Inv n [] s h inv = inv
run-Inv n (t ∷ ts) s h inv = run-Inv n ts (turn t s) h.1 (turn-Inv n s inv t.0 h.0 t.1)
