-- ===== src/Bench/Stats/Deltas.antt =====
-- The difference of two snapshots is told exactly if nothing has regressed.
use tierbuf.Prelude.{
  ℕ, ◌+◌, ◌-◌, ◌≤◌, ◌≡◌, refl, ap, true, List, [], ◌∷◌, leb, ltb, ◌^◌, arith, Bool-cases, inl, inr,
  if-cases, subst, ◌<◌, ◌∙◌,
}
use tierbuf.Metrics.{Counter, dram_hits}
use tierbuf.Bench.{Checked, ok, err, ◌>>=◌}
use tierbuf.Bench.Stats.{
  TierCounters, TierStats, name_eq, same_shape, delta, tier_delta, tier_deltas, tier_stats_delta,
  TierAdds, TiersAdd, Adds, TierGrows, TiersGrow, Grows, lower_hits, demand_hit_delta,
}

-- A result that is right, or a failure where `Q` does not hold.
abbrev pub Tells : {A : Type 0} → (A → Type 0) → Type 0 → Checked A → Type 0
Tells P Q (ok a) = P a
Tells P Q (err e) = ¬ Q

Tells-delta :
    {A : Type 0} (P : A → Type 0) (Q : Type 0) (c : Counter) (b a : ℕ) (k : ℕ → Checked A)
    → (Q → b ≤ a)
    → ((d : ℕ) → b + d ≡ a → Tells P Q (k d))
    → Tells P Q (delta c b a >>= k)
unfolding delta
Tells-delta P Q c b a k grows next =
    if-cases (λ r. Tells P Q (r >>= k)) (leb b a) _ _ (λ y. next (a - b) (ground arith))
      (λ n h. let le = grows h in ground arith)

Tells-bind :
    {A B : Type 0} (P : A → Type 0) (Q : Type 0) (P' : B → Type 0) (Q' : Type 0) (m : Checked A)
    (k : A → Checked B)
    → Tells P Q m
    → (Q' → Q)
    → ((a : A) → P a → Tells P' Q' (k a))
    → Tells P' Q' (m >>= k)
Tells-bind P Q P' Q' (ok a) k h weak next = next a h
Tells-bind P Q P' Q' (err e) k h weak next = λ q. h (weak q)

name_eq-eq : (l m : List ℕ) → name_eq l m ≡ true → l ≡ m
unfolding name_eq
name_eq-eq [] [] e = refl
name_eq-eq (x ∷ xs) (y ∷ ys) e = ground (arith, name_eq-eq xs ys)
name_eq-eq [] (y ∷ ys) e = cc
name_eq-eq (x ∷ xs) [] e = cc

tier_delta-Adds :
    (i : ℕ) (b a : TierCounters)
    → b.name ≡ a.name
    → Tells (λ d. TierAdds b d a) (TierGrows b a) (tier_delta i b a)
unfolding tier_delta
tier_delta-Adds i b a same =
    let P : TierCounters → Type 0 = λ d. TierAdds b d a in
    let Q : Type 0 = TierGrows b a in
    Tells-delta P Q _ _ _ _ (λ g. g.0)
      λ demand e0.
        Tells-delta P Q _ _ _ _ (λ g. g.1)
          λ read_pages e1.
            Tells-delta P Q _ _ _ _ (λ g. g.2)
              λ written_pages e2.
                Tells-delta P Q _ _ _ _ (λ g. g.3)
                  λ read_bytes e3.
                    Tells-delta P Q _ _ _ _ (λ g. g.4)
                      λ written_bytes e4. (same, refl, e0, e1, e2, e3, e4)

name_eq_refl : (l : List ℕ) → name_eq l l ≡ true
unfolding name_eq
name_eq_refl [] = refl
name_eq_refl (x ∷ xs) = ground (arith, name_eq_refl xs)

tier_deltas-Add :
    (i : ℕ) (bs as' : List TierCounters)
    → same_shape bs as' ≡ true
    → Tells (λ ds. TiersAdd bs ds as') (TiersGrow bs as') (tier_deltas i bs as')
unfolding tier_deltas same_shape
tier_deltas-Add i [] [] e = tt
tier_deltas-Add i (b ∷ bs) (a ∷ as') e =
    let rest = tier_deltas-Add (i + 1) bs as' (ground arith) in
    let same = name_eq-eq b.name a.name (ground arith) in
    Tells-bind (λ d. TierAdds b d a) (TierGrows b a) (λ ds. TiersAdd (b ∷ bs) ds (a ∷ as'))
      (TiersGrow (b ∷ bs) (a ∷ as')) (tier_delta i b a) _ (tier_delta-Adds i b a same) (λ g. g.1)
      λ d adds.
        Tells-bind (λ ds. TiersAdd bs ds as') (TiersGrow bs as')
          (λ ds. TiersAdd (b ∷ bs) ds (a ∷ as')) (TiersGrow (b ∷ bs) (a ∷ as'))
          (tier_deltas (i + 1) bs as') _ rest (λ g. g.2) λ ds add. (adds, add)
tier_deltas-Add i [] (a ∷ as') e = cc
tier_deltas-Add i (b ∷ bs) [] e = cc

grown-shape : (bs as' : List TierCounters) → TiersGrow bs as' → same_shape bs as' ≡ true
unfolding same_shape
grown-shape [] [] g = refl
grown-shape (b ∷ bs) (a ∷ as') (e, _, g) = rw (e, name_eq_refl a.name) (grown-shape bs as' g)
grown-shape [] (a ∷ as') g = absurd g
grown-shape (b ∷ bs) [] g = absurd g

-- If the tiers of both snapshots have the same names in the same order and no counter has fallen, the
-- difference is told, and with it each counter of the first snapshot makes up that of the second;
-- else it fails.
pub tier_stats_delta-Adds :
    (b a : TierStats) → Tells (λ d. Adds b d a) (Grows b a) (tier_stats_delta b a)
unfolding tier_stats_delta
tier_stats_delta-Adds b a =
    let P : TierStats → Type 0 = λ d. Adds b d a in
    let Q : Type 0 = Grows b a in
    elim (Bool-cases (same_shape b.tiers a.tiers)) [
      | inr changed ↦ rw changed (λ g. let bad = grown-shape b.tiers a.tiers g.0 in cc)
      | inl same ↦ rw same (
          Tells-bind (λ ds. TiersAdd b.tiers ds a.tiers) (TiersGrow b.tiers a.tiers) P Q
            (tier_deltas 0 b.tiers a.tiers) _ (tier_deltas-Add 0 b.tiers a.tiers same) (λ g. g.0)
            λ tiers adds.
              Tells-delta P Q _ _ _ _ (λ g. g.1)
                λ dram e1.
                  Tells-delta P Q _ _ _ _ (λ g. g.2)
                    λ faulted e2.
                      Tells-delta P Q _ _ _ _ (λ g. g.3)
                        λ evicted e3.
                          Tells-delta P Q _ _ _ _ (λ g. g.4)
                            λ second e4.
                              Tells-delta P Q _ _ _ _ (λ g. g.5)
                                λ submitted e5.
                                  Tells-delta P Q _ _ _ _ (λ g. g.6)
                                    λ prefetched e6.
                                      Tells-delta P Q _ _ _ _ (λ g. g.7)
                                        λ skipped e7.
                                          Tells-delta P Q _ _ _ _ (λ g. g.8)
                                            λ denied e8. record {
                                              dram = e1;
                                              faulted = e2;
                                              evicted = e3;
                                              second = e4;
                                              submitted = e5;
                                              prefetched = e6;
                                              skipped = e7;
                                              denied = e8;
                                              tiers = adds;
                                            })
    ]

-- The hits of all tiers.
abbrev pub tier_hits : List TierCounters → ℕ
tier_hits [] = 0
tier_hits (d ∷ ds) = d.demand + tier_hits ds

lower_hits-sum :
    (i total : ℕ) (bs ds as' : List TierCounters)
    → TiersAdd bs ds as'
    → total + tier_hits ds < 2 ^ 64
    → lower_hits i total bs as' ≡ ok (total + tier_hits ds)
unfolding lower_hits delta
lower_hits-sum i total [] [] [] add small = ap ok (omega arith)
lower_hits-sum i total (b ∷ bs) (d ∷ ds) (a ∷ as') (adds, add) small =
    let grows : leb b.demand a.demand ≡ true = ground (arith, adds.2) in
    let diff : a.demand - b.demand ≡ d.demand = omega (arith, adds.2) in
    let fits : ltb (total + d.demand) (2 ^ 64) ≡ true = ground (arith, small) in
    rw grows (
      rw diff (
        rw fits (
          lower_hits-sum (i + 1) (total + d.demand) bs ds as' add (omega arith)
          ∙ ap ok (omega arith))))
lower_hits-sum i total [] [] (a ∷ as') add small = absurd add
lower_hits-sum i total [] (d ∷ ds) as' add small = absurd add
lower_hits-sum i total (b ∷ bs) [] as' add small = absurd add
lower_hits-sum i total (b ∷ bs) (d ∷ ds) [] add small = absurd add

delta-told : (c : Counter) (b d a : ℕ) → b + d ≡ a → delta c b a ≡ ok d
unfolding delta
delta-told c b d a e = ground arith

told-shape : (b d a : TierStats) → tier_stats_delta b a ≡ ok d → same_shape b.tiers a.tiers ≡ true
unfolding tier_stats_delta
told-shape b d a e = elim (Bool-cases (same_shape b.tiers a.tiers)) [
  | inl same ↦ same
  | inr changed ↦ let bad = rw changed at e in cc
]

-- Where the difference is told and the hits of its tiers fit a word, the hits that the rows of the
-- benchmark count are those of the difference.
pub demand_hit_delta-agrees :
    (b d a : TierStats)
    → tier_stats_delta b a ≡ ok d
    → tier_hits d.tiers < 2 ^ 64
    → demand_hit_delta b a ≡ ok (d.dram, tier_hits d.tiers)
unfolding demand_hit_delta
demand_hit_delta-agrees b d a e small =
    let adds : Adds b d a =
      subst (Tells (λ d'. Adds b d' a) (Grows b a)) e (tier_stats_delta-Adds b a) in
    rw (told-shape b d a e) (
      rw (delta-told dram_hits b.dram d.dram a.dram adds.dram) (
        rw (lower_hits-sum 0 0 b.tiers d.tiers a.tiers adds.tiers (omega arith))
          (ap (λ n. ok (d.dram, n)) (omega arith))))
