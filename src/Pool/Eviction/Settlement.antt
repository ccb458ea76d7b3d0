-- ===== src/Pool/Eviction/Settlement.antt =====
-- How an eviction settles the directory and the tiers once the handle was exchanged, or was not.
use mathlib.Core.Logic.{if_pos, if_neg}
use tierbuf.Prelude.{
  ℕ, ◌≡◌, ◌≢◌, refl, sym, ap, ◌∙◌, subst, false, not, ◌&&◌, Option, none, some, List, arith, ltb,
  if-cases, update, ℕ_discrete,
}
use tierbuf.Pool.Backend.{TierBackend, Location, location_eq}
use tierbuf.Pool.Eviction.{Storage, free_at, restore, undo, retire, published}
use tierbuf.Pool.Eviction.WriteBack.{At}

location_ne : (a b : Location) → location_eq a b ≡ false → a ≢ b
unfolding location_eq
location_ne a b e = ground arith

module _ (T : TierBackend) (count : ℕ) (name : ℕ → List ℕ) (pid : ℕ) where
  same_place : (a b : Location) → a.tier_index ≡ b.tier_index → a.offset ≡ b.offset → a ≡ b
  same_place a b e d = λ i. record { tier_index = e i; offset = d i }

  -- Freeing a location keeps the pages of all others.
  free_at-keeps :
      (l m : Location) (s : Storage T) (p : T.Page)
      → m ≢ l
      → At T s m p
      → At T (free_at T count name l s) m p
  unfolding free_at
  free_at-keeps l m s p d h =
      holds_still s.tiers l.tier_index m.tier_index l.offset m.offset p
        (λ e o. d (same_place m l (sym e) o)) h
    where
      holds_still :
          (tiers : ℕ → T.State) (i j o m : ℕ) (p : T.Page)
          → (i ≡ j → m ≢ o)
          → T.Holds (tiers j) m p
          → T.Holds (update tiers i (T.free o (tiers i)) j) m p
      holds_still tiers i j o m p d h = elim (ℕ_discrete i j) [
        | yes e ↦
            rw (if_pos _ e)
              (T.free-keeps o m (tiers i) p (d e) (subst (λ k. T.Holds (tiers k) m p) (sym e) h))
        | no n ↦ rw (if_neg _ n) h
      ]

  restore-here :
      (o : Option Location) (s : Storage T) → (restore T count name pid o s).directory pid ≡ o
  unfolding restore
  restore-here o s = rw (if_pos (ℕ_discrete pid pid) refl)

  restore-other :
      (o : Option Location) (s : Storage T) (other : ℕ)
      → other ≢ pid
      → (restore T count name pid o s).directory other ≡ s.directory other
  unfolding restore
  restore-other o s other d = rw (if_neg (ℕ_discrete pid other) (λ e. d (sym e)))

  restore-tiers :
      (o : Option Location) (s : Storage T) → (restore T count name pid o s).tiers ≡ s.tiers
  unfolding restore
  restore-tiers o s = refl

  free_at-directory :
      (l : Location) (s : Storage T) → (free_at T count name l s).directory ≡ s.directory
  unfolding free_at
  free_at-directory l s = refl

  pub some_path : (a b : Location) → some a ≡ some b → a ≡ b
  some_path a b e = cc

  -- The storage after the directory was settled: what it says of the page and of others, and the
  -- locations `Lost` that may hold no page any more.
  pub record Settled (s s' : Storage T) (here : Option Location) (Lost : Location → Type 0)
      : Type 0 where
    pub at_page : s'.directory pid ≡ here
    pub at_other : (other : ℕ) → other ≢ pid → s'.directory other ≡ s.directory other
    pub pages : (m : Location) (p : T.Page) → ¬ Lost m → At T s m p → At T s' m p

  restore-Settled :
      (o : Option Location) (s : Storage T) → Settled s (restore T count name pid o s) o (λ _. ⊥)
  restore-Settled o s = record {
    at_page = restore-here o s;
    at_other = λ other d. restore-other o s other d;
    pages = λ m p _ h. subst (λ t. T.Holds (t m.tier_index) m.offset p) (sym (restore-tiers o s)) h;
  }

  free_after :
      (l : Location) (s s' : Storage T) (here : Option Location) (Lost : Location → Type 0)
      → Lost l
      → Settled s s' here (λ _. ⊥)
      → Settled s (free_at T count name l s') here Lost
  free_after l s s' here Lost lost h = record {
    at_page = ap (λ d. d pid) (free_at-directory l s') ∙ h.at_page;
    at_other = λ other d. ap (λ f. f other) (free_at-directory l s') ∙ h.at_other other d;
    pages = λ m p n held.
        free_at-keeps l m s' p (λ e. n (subst Lost (sym e) lost)) (h.pages m p (λ x. x) held);
  }

  widen :
      (s s' : Storage T) (here : Option Location) (Lost : Location → Type 0)
      → Settled s s' here (λ _. ⊥)
      → Settled s s' here Lost
  widen s s' here Lost h = record {
    at_page = h.at_page;
    at_other = h.at_other;
    pages = λ m p _ held. h.pages m p (λ x. x) held;
  }

  twice :
      (o o' : Option Location) (s : Storage T)
      → Settled s (restore T count name pid o' (restore T count name pid o s)) o' (λ _. ⊥)
  twice o o' s =
      let first = restore-Settled o s in
      let second = restore-Settled o' (restore T count name pid o s) in
      record {
        at_page = second.at_page;
        at_other = λ other d. second.at_other other d ∙ first.at_other other d;
        pages = λ m p n h. second.pages m p n (first.pages m p n h);
      }

  -- Locations that are in the first and not in the second option.
  abbrev pub Only : Option Location → Option Location → Location → Type 0
  Only a b m = (a ≡ some m) × (b ≢ some m)

  pub undo-Settled :
      (old new : Option Location) (s : Storage T)
      → s.directory pid ≡ old
      → Settled s
          (undo T count name pid old new (published T count name pid new s))
          old
          (Only new old)
  unfolding undo published
  undo-Settled old none s e = record { at_page = e; at_other = λ _ _. refl; pages = λ m p _ h. h }
  undo-Settled none (some l) s e =
      free_after l s _ none (Only (some l) none) (refl, (λ x. cc)) (twice (some l) none s)
  undo-Settled (some a) (some l) s e =
      if-cases (λ s'. Settled s s' (some a) (Only (some l) (some a))) (location_eq a l) _ _
        (λ _. widen s _ (some a) (Only (some l) (some a)) (twice (some l) (some a) s))
        (λ n.
          free_after l s _ (some a) (Only (some l) (some a))
            (refl, (λ x. location_ne a l n (some_path a l x))) (twice (some l) (some a) s))

  -- The old location, if a new one replaced it.
  abbrev pub Replaced : Option Location → Option Location → Location → Type 0
  Replaced old none m = ⊥
  Replaced old (some l) m = (old ≡ some m) × (l ≢ m)

  -- What the directory says of a page that was written, or not.
  abbrev pub newer : Option Location → Option Location → Option Location
  newer old none = old
  newer old (some l) = some l

  pub retire-Settled :
      (old new : Option Location) (s : Storage T)
      → s.directory pid ≡ old
      → Settled s
          (retire T count name old new (published T count name pid new s))
          (newer old new)
          (Replaced old new)
  unfolding retire published
  retire-Settled none none s e = record {
    at_page = e;
    at_other = λ _ _. refl;
    pages = λ m p _ h. h;
  }
  retire-Settled none (some l) s e =
      widen s _ (some l) (Replaced none (some l)) (restore-Settled (some l) s)
  retire-Settled (some a) none s e = record {
    at_page = e;
    at_other = λ _ _. refl;
    pages = λ m p _ h. h;
  }
  retire-Settled (some a) (some l) s e =
      if-cases (λ s'. Settled s s' (some l) (Replaced (some a) (some l)))
        (not (location_eq a l) && ltb a.tier_index count) _ _
        (λ y.
          free_after a s _ (some l) (Replaced (some a) (some l))
            (refl, (λ x. location_ne a l (ground arith) (sym x))) (restore-Settled (some l) s))
        (λ _. widen s _ (some l) (Replaced (some a) (some l)) (restore-Settled (some l) s))
