-- ===== src/Pool/Eviction/WriteBack.antt =====
-- The loop over the tiers stores the page or changes no stored page.
use mathlib.Core.Logic.{if_pos, if_neg}
use tierbuf.Prelude.{
  ℕ, suc, zero, ◌+◌, ◌≤◌, ◌<◌, ◌≡◌, refl, sym, ◌∙◌, subst, Bool, true, false, Option, none, some,
  List, arith, update, ℕ_discrete,
}
use tierbuf.Tier.Budget.{WriteBudget}
use tierbuf.Fault.{BufError, tier_exhausted}
use tierbuf.Pool.Backend.{TierBackend, Result, ok, err, Location}
use tierbuf.Pool.Eviction.{Storage, charge, Written, tried, charged, write_back}

-- The location holds the page.
abbrev pub At : (T : TierBackend) → Storage T → Location → T.Page → Type 0
At T s l page = T.Holds (s.tiers l.tier_index) l.offset page

-- Every page that is stored stays stored where it is, and the directory is as it was.
pub record Keeps (T : TierBackend) (s s' : Storage T) : Type 0 where
  pub pages : (l : Location) (p : T.Page) → At T s l p → At T s' l p
  pub directory : s'.directory ≡ s.directory

-- A new location lies in the range of the loop, holds the page, and held none before.
abbrev pub IsNew :
    (T : TierBackend) (first last : ℕ) → T.Page → (s s' : Storage T) → Option Location → Type 0
IsNew T first last page s s' none = Unit
IsNew T first last page s s' (some l) =
    (first ≤ l.tier_index) × (l.tier_index < last) × At T s' l page × ((p : T.Page) → ¬ At T s l p)

module _ (T : TierBackend) (count : ℕ) (name : ℕ → List ℕ) (page : T.Page) where
  abbrev Stores : (first last : ℕ) → Storage T → Written T → Type 0
  Stores first last s w = Keeps T s w.0 × IsNew T first last page s w.0 w.1

  held :
      (tiers : ℕ → T.State) (i : ℕ) (t : T.State)
      → ((m : ℕ) (p : T.Page) → T.Holds (tiers i) m p → T.Holds t m p)
      → (j m : ℕ) (p : T.Page) → T.Holds (tiers j) m p
      → T.Holds (update tiers i t j) m p
  held tiers i t keep j m p h = elim (ℕ_discrete i j) [
    | yes e ↦ rw (if_pos _ e) (keep m p (subst (λ k. T.Holds (tiers k) m p) (sym e) h))
    | no d ↦ rw (if_neg _ d) h
  ]

  here :
      (tiers : ℕ → T.State) (i : ℕ) (t : T.State) (m : ℕ) (p : T.Page)
      → T.Holds t m p
      → T.Holds (update tiers i t i) m p
  here tiers i t m p h = rw (if_pos (ℕ_discrete i i) refl) h

  pub replace-Keeps :
      (s : Storage T) (i : ℕ) (t : T.State) (budgets : ℕ → Option WriteBudget)
      → ((m : ℕ) (p : T.Page) → T.Holds (s.tiers i) m p → T.Holds t m p)
      → Keeps T s (record s { tiers = update s.tiers i t; budgets = budgets })
  replace-Keeps s i t budgets keep = record {
    pages = λ l p h. held s.tiers i t keep l.tier_index l.offset p h;
    directory = refl;
  }

  later :
      (first last : ℕ) (s m : Storage T) (w : Written T)
      → Keeps T s m
      → Stores (first + 1) last m w
      → Stores first last s w
  later first last s m (s', none, e) k (k', new) = (
    record {
      pages = λ l p h. k'.pages l p (k.pages l p h);
      directory = k'.directory ∙ k.directory;
    },
    tt,
  )
  later first last s m (s', some l, e) k (k', (lo, hi, there, fresh)) = (
    record {
      pages = λ l p h. k'.pages l p (k.pages l p h);
      directory = k'.directory ∙ k.directory;
    },
    (omega arith, hi, there, (λ p h. fresh p (k.pages l p h))),
  )

  abbrev Next : (first last : ℕ) → (Option BufError → Storage T → Written T) → Type 0
  Next first last next =
      (e : Option BufError) (m : Storage T) → Stores (first + 1) last m (next e m)

  tried-Stores :
      (i last : ℕ) (next : Option BufError → Storage T → Written T) (e : Option BufError)
      (s : Storage T) (budgets : ℕ → Option WriteBudget) (r : T.State × Result ℕ)
      → i < last
      → Next i last next
      → T.write page (s.tiers i) ≡ r
      → Stores i last s (tried T count name i next e (record s { budgets = budgets }) r)
  unfolding tried
  tried-Stores i last next e s budgets (t, ok offset) lt step wrote =
      let (there, fresh, keep) = T.write-ok page (s.tiers i) t offset wrote in
      (
        replace-Keeps s i t budgets keep,
        (omega arith, lt, here s.tiers i t offset page there, fresh),
      )
  tried-Stores i last next e s budgets (t, err x) lt step wrote =
      later i last s _ (next (some x) (record s { tiers = update s.tiers i t; budgets = budgets }))
        (replace-Keeps s i t budgets (T.write-err page (s.tiers i) t x wrote))
        (step (some x) (record s { tiers = update s.tiers i t; budgets = budgets }))

  charged-Stores :
      (i last : ℕ) (next : Option BufError → Storage T → Written T) (e : Option BufError)
      (s : Storage T) (c : Option WriteBudget × Bool)
      → i < last
      → Next i last next
      → Stores i last s (charged T count name i next page e s c)
  unfolding charged
  charged-Stores i last next e s (budget, false) lt step =
      later i last s _
        (next (some (tier_exhausted (name i))) (record s { budgets = update s.budgets i budget }))
        (record { pages = λ l p h. h; directory = refl })
        (step (some (tier_exhausted (name i))) (record s { budgets = update s.budgets i budget }))
  charged-Stores i last next e s (budget, true) lt step =
      tried-Stores i last next e s (update s.budgets i budget) (T.write page (s.tiers i)) lt step
        refl

  -- The loop keeps every stored page where it is; a new location lies in its range, holds the page
  -- and held none before.
  pub write_back-Stores :
      (n i last : ℕ) (e : Option BufError) (s : Storage T)
      → i + n ≡ last
      → Keeps T s (write_back T count name n i page e s).0
        × IsNew T i last page s
            (write_back T count name n i page e s).0
            (write_back T count name n i page e s).1
  unfolding write_back
  write_back-Stores zero i last e s total = (record { pages = λ l p h. h; directory = refl }, tt)
  write_back-Stores (suc n) i last e s total =
      charged-Stores i last (write_back T count name n (i + 1) page) e s (charge (s.budgets i))
        (omega arith) (λ e' m. write_back-Stores n (i + 1) last e' m (omega arith))
