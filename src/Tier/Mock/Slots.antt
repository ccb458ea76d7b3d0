-- ===== src/Tier/Mock/Slots.antt =====
-- The offsets of a mock tier: each below the next one holds a page or is on the free stack.
use tierbuf.Prelude.{
  ℕ, ◌+◌, ◌*◌, ◌%◌, ◌^◌, ◌≤◌, ◌<◌, ◌≡◌, ◌≢◌, refl, sym, ap, ◌∙◌, subst, inl, inr, false, Option,
  none, some, List, [], ◌∷◌, length, arith, In, Distinct, HashMap, IsMap, get, insert, remove,
  get-insert, get-insert_other, get-remove, get-remove_other, insert-IsMap, remove-IsMap,
  length-insert, length-remove_present, ltb, leb, if-cases, ℕ_discrete, Option-cases,
}
use tierbuf.Tier.Disk.{storage_full, IoResult, ok, err, Buffer}
use tierbuf.Tier.File.{page_size}
use tierbuf.Tier.Mock.{MockState, take_offset}

-- Two free offsets, or a free one and a stored one, are never the same; together they are the
-- offsets below the next slot.
pub record IsState (pages : HashMap Buffer) (free_slots : List ℕ) (next_slot : ℕ) : Type 0 where
  pub stored :
      (l : ℕ) (p : Buffer)
      → get l pages ≡ some p
      → (l % page_size ≡ 0) × (l < next_slot * page_size) × (p.size ≡ page_size)
  pub listed :
      (l : ℕ)
      → In l free_slots
      → (l % page_size ≡ 0) × (l < next_slot * page_size) × (get l pages ≡ none)
  pub distinct : Distinct free_slots
  pub keyed : IsMap pages
  pub counted : length pages + length free_slots ≡ next_slot

abbrev pub state_of : HashMap Buffer → List ℕ → (next attempts : ℕ) → (fail : Option ℕ) → MockState
state_of pages free next attempts fail = record {
  pages = pages;
  free_slots = free;
  next_slot = next;
  read_attempts = attempts;
  fail_read_at = fail;
}

-- The offset that a write takes is one below the capacity that holds no page, and storing the page
-- there keeps the state; there is none only if every slot holds a page.
abbrev pub Taken : (count : ℕ) → Buffer → MockState → MockState × IoResult ℕ → Type 0
Taken count b s (s', ok l) =
    (s'.pages ≡ s.pages)
    × (s'.read_attempts ≡ s.read_attempts)
    × (s'.fail_read_at ≡ s.fail_read_at)
    × (get l s.pages ≡ none)
    × (l % page_size ≡ 0)
    × (l < count * page_size)
    × (s'.next_slot ≤ count)
    × IsState (insert l b s'.pages) s'.free_slots s'.next_slot
Taken count b s (s', err storage_full) = (length s.pages ≡ count) × (s' ≡ s)
Taken count b s (s', err _) = ⊥

module _ (pages : HashMap Buffer) (next attempts : ℕ) (fail : Option ℕ) (b : Buffer) where
  -- A page at an offset that was vacant and is no longer free.
  placed :
      (l next' : ℕ) (free : List ℕ)
      → b.size ≡ page_size
      → ((k : ℕ) (p : Buffer)
          → get k pages ≡ some p
          → (k % page_size ≡ 0) × (k < next' * page_size) × (p.size ≡ page_size))
      → ((k : ℕ)
          → In k free
          → (k ≢ l) × (k % page_size ≡ 0) × (k < next' * page_size) × (get k pages ≡ none))
      → Distinct free
      → IsMap pages
      → length pages + length free + 1 ≡ next'
      → l % page_size ≡ 0
      → l < next' * page_size
      → get l pages ≡ none
      → IsState (insert l b pages) free next'
  placed l next' free size stored listed distinct keyed counted aligned below vacant = record {
    stored = λ k p e. elim (ℕ_discrete k l) [
      | yes same ↦
          let at : some b ≡ some p =
            sym (get-insert l b pages) ∙ ap (λ j. get j (insert l b pages)) (sym same) ∙ e in
          (
            omega arith,
            omega arith,
            ap (λ o. (elim o [ none ↦ 0 | some q ↦ q.size ])) (sym at) ∙ size,
          )
      | no d ↦ stored k p (sym (get-insert_other l k b pages d) ∙ e)
    ];
    listed =
        λ k h. let old = listed k h in (old.1, old.2, get-insert_other l k b pages old.0 ∙ old.3);
    distinct = distinct;
    keyed = insert-IsMap l b pages keyed;
    counted = omega (arith, counted, length-insert l b pages vacant);
  }

  -- No page stands beyond the next slot.
  unused : {free : List ℕ} → IsState pages free next → get (next * page_size) pages ≡ none
  unused v = elim (Option-cases (get (next * page_size) pages)) [
    | inl e ↦ e
    | inr (p, e) ↦
        let (_, below, _) = v.stored (next * page_size) p e in absurd (omega (arith, below))
  ]

  take_of :
      (count : ℕ) (free : List ℕ)
      → count * page_size < 2 ^ 64
      → next ≤ count
      → b.size ≡ page_size
      → IsState pages free next
      → Taken count b
          (state_of pages free next attempts fail)
          (take_offset count (state_of pages free next attempts fail))
  unfolding take_offset
  take_of count [] fits le size v =
      if-cases (Taken count b (state_of pages [] next attempts fail)) (ltb next count) _ _
        (λ e.
          let lt : next < count = ground arith in
          let small : leb (2 ^ 64) (next * page_size) ≡ false = ground arith in
          let vacant : get (next * page_size) pages ≡ none = unused v in
          rw small (
            refl,
            refl,
            refl,
            vacant,
            omega arith,
            omega arith,
            omega arith,
            placed (next * page_size) (next + 1) [] size
                (λ k p e. let (a, lt', s) = v.stored k p e in (a, omega (arith, lt'), s))
                (λ k h. absurd h) tt v.keyed (omega (arith, v.counted)) (omega arith) (omega arith)
                vacant,
          ))
        (λ e. let ge : count ≤ next = ground arith in (omega (arith, v.counted), refl))
  take_of count (x ∷ free) fits le size v =
      let (aligned, below, vacant) = v.listed x (inl refl) in
      (
        refl,
        refl,
        refl,
        vacant,
        aligned,
        omega (arith, below),
        le,
        placed x next free size v.stored
            (λ k h.
              let (aligned', below', vacant') = v.listed k (inr h) in
              ((λ e. v.distinct.0 (subst (λ j. In j free) e h)), aligned', below', vacant'))
            v.distinct.1 v.keyed (omega (arith, v.counted)) aligned below vacant,
      )

pub take_offset-Taken :
    (count : ℕ) (b : Buffer) (s : MockState)
    → count * page_size < 2 ^ 64
    → s.next_slot ≤ count
    → b.size ≡ page_size
    → IsState s.pages s.free_slots s.next_slot
    → Taken count b s (take_offset count s)
take_offset-Taken count b s fits le size v =
    take_of s.pages s.next_slot s.read_attempts s.fail_read_at b count s.free_slots fits le size v

-- A page that is freed moves its offset to the free stack.
pub release-IsState :
    (l : ℕ) (s : MockState) (p : Buffer)
    → get l s.pages ≡ some p
    → IsState s.pages s.free_slots s.next_slot
    → IsState (remove l s.pages) (l ∷ s.free_slots) s.next_slot
release-IsState l s p e v =
    let (aligned, below, size) = v.stored l p e in
    record {
      stored = λ k q at. elim (ℕ_discrete k l) [
        | yes same ↦
            let gone : none ≡ some q =
              sym (get-remove l s.pages) ∙ ap (λ j. get j (remove l s.pages)) (sym same) ∙ at in
            cc
        | no d ↦ v.stored k q (sym (get-remove_other l k s.pages d) ∙ at)
      ];
      listed = λ k h. elim h [
        | inl same ↦ (
          rw same aligned,
          rw same below,
          ap (λ j. get j (remove l s.pages)) same ∙ get-remove l s.pages,
        )
        | inr old ↦
            let (aligned', below', vacant) = v.listed k old in
            (
              aligned',
              below',
              (elim (ℕ_discrete k l) [
                | yes same ↦ ap (λ j. get j (remove l s.pages)) same ∙ get-remove l s.pages
                | no d ↦ get-remove_other l k s.pages d ∙ vacant
              ]),
            )
      ];
      distinct = (
        (λ h.
            let (_, _, vacant) = v.listed l h in let clash : none ≡ some p = sym vacant ∙ e in cc),
        v.distinct,
      );
      keyed = remove-IsMap l s.pages v.keyed;
      counted = omega (arith, v.counted, length-remove_present l p s.pages v.keyed e);
    }

pub empty-IsState : IsState [] [] 0
unfolding get
empty-IsState = record {
  stored = λ l p e. let no_way : none ≡ some p = e in cc;
  listed = λ l h. absurd h;
  distinct = tt;
  keyed = tt;
  counted = omega arith;
}
