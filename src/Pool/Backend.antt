-- ===== src/Pool/Backend.antt =====
-- `TierBackend` of crates/tierbuf/src/tier/mod.rs as the manager uses it, and the locations of pages.
use tierbuf.Prelude.{ℕ, ◌≡◌, ◌≢◌, Bool, ◌&&◌, ◌==◌}
use tierbuf.Fault.{BufError}

pub data Result (A : Type 0) : Type 0 where
  ok : A → Result A
  err : BufError → Result A

-- A tier with the state of its device, which decides how its calls end. `Holds` is what its
-- documentation promises: a page written at a location stays there until it is freed.
pub record TierBackend : Type 1 where
  pub Page : Type 0
  pub State : Type 0
  pub read : (location : ℕ) → State → State × Result Page
  pub write : Page → State → State × Result ℕ
  pub free : (location : ℕ) → State → State
  pub Holds : State → (location : ℕ) → Page → Type 0
  pub write-ok :
      (page : Page) (s s' : State) (l : ℕ)
      → write page s ≡ (s', ok l)
      → Holds s' l page
        × ((p : Page) → ¬ Holds s l p)
        × ((m : ℕ) (p : Page) → Holds s m p → Holds s' m p)
  pub write-err :
      (page : Page) (s s' : State) (e : BufError)
      → write page s ≡ (s', err e)
      → (m : ℕ) (p : Page) → Holds s m p
      → Holds s' m p
  pub read-ok :
      (l : ℕ) (s s' : State) (page p : Page) → read l s ≡ (s', ok page) → Holds s l p → page ≡ p
  pub read-keeps : (l m : ℕ) (s : State) (p : Page) → Holds s m p → Holds (read l s).0 m p
  pub free-keeps : (l m : ℕ) (s : State) (p : Page) → m ≢ l → Holds s m p → Holds (free l s) m p

pub record Location : Type 0 where
  pub tier_index : ℕ
  pub offset : ℕ

-- The derived `PartialEq`.
unfoldable pub location_eq : Location → Location → Bool
location_eq a b = a.tier_index == b.tier_index && (a.offset == b.offset)
