-- ===== src/Tier/Mock/Answers.antt =====
-- Writes, frees and injections on a mock tier, on every branch.
use tierbuf.Prelude.{
  ℕ, suc, zero, ◌+◌, ◌%◌, ◌≤◌, ◌≡◌, refl, sym, ap, ◌∙◌, subst, inl, inr, false, not, ◌&&◌, Option,
  none, some, ◌∷◌, length, arith, get, insert, remove, get-insert, get-insert_other, get-remove,
  get-remove_other, length-insert, length-remove_present, ltb, ◌==◌, if-cases, Run, done, ◌>>=◌,
  Option-cases,
}
use tierbuf.Tier.Disk.{storage_full, IoResult, ok, err, Buffer}
use tierbuf.Tier.File.{page_size}
use tierbuf.Tier.Mock.{
  MockState, MockTier, take_offset, store, release, with_state, is_attempt, fail_nth_read,
  validate_location, write, free,
}
use tierbuf.Tier.Mock.Slots.{IsState, Taken, take_offset-Taken, release-IsState}
use tierbuf.Tier.Mock.Device.{
  IsArmed, IsMock, write_call, free_call, fail_call, write_reply, free_reply, serve, Served, IsCall,
}

-- A tier whose pages, free offsets and next slot are those of a well-formed one.
pub rearmed :
    (t : MockTier) (s : MockState)
    → IsMock t
    → IsState s.pages s.free_slots s.next_slot
    → s.next_slot ≤ t.slot_count
    → IsArmed s.fail_read_at s.read_attempts
    → IsMock (with_state t s)
rearmed t s v state le armed = record {
  sized = v.sized;
  fits = v.fits;
  next_le = le;
  state = state;
  armed = armed;
}

pub fail-Served :
    (nth : Option ℕ) (t : MockTier)
    → IsMock t
    → IsCall (fail_call nth)
    → Served (fail_call nth) t (serve (fail_call nth) t)
unfolding serve fail_nth_read is_attempt
fail-Served none t v w = (
  refl,
  rearmed t (record t.state { read_attempts = 0; fail_read_at = none }) v v.state v.next_le tt,
  (((λ l. refl), refl), inr ((λ e. let no_way : none ≡ some 0 = e in cc), refl, refl)),
)
fail-Served (some zero) t v w = (refl, v, (((λ l. refl), refl), inl (refl, refl, refl)))
fail-Served (some (suc n)) t v w =
    let set : (suc n == 0) ≡ false = ground arith in
    rw set (
      refl,
      rearmed t (record t.state { read_attempts = 0; fail_read_at = some (suc n) }) v v.state
          v.next_le (omega arith, w),
      (((λ l. refl), refl), inr ((λ (e : some (suc n) ≡ some 0). cc), ap some (omega arith), refl)),
    )

stored-Served :
    (b : Buffer) (t : MockTier) (r : MockState × IoResult ℕ)
    → IsMock t
    → b.size ≡ page_size
    → Taken t.slot_count b t.state r
    → Served
        (write_call b)
        t
        (store b t r >>= λ (w : MockTier × IoResult ℕ). done (w.0, write_reply w.1))
unfolding store
stored-Served b t (s, ok l) v size (same, attempts, fail, vacant, aligned, below, le, state) =
    let free_there : get l s.pages ≡ none = ap (get l) same ∙ vacant in
    rw free_there (
      refl,
      rearmed t (record s { pages = insert l b s.pages }) v state le
          (subst (λ f. IsArmed f s.read_attempts) (sym fail)
            (subst (IsArmed t.state.fail_read_at) (sym attempts) v.armed)),
      (
        size,
        aligned,
        below,
        vacant,
        get-insert l b s.pages,
        (λ k d. get-insert_other l k b s.pages d ∙ ap (get k) same),
        length-insert l b s.pages free_there ∙ ap (λ m. length m + 1) same,
        rw (fail, attempts) refl,
      ),
    )
stored-Served b t (s, err storage_full) v size (full, same) =
    subst (λ s. Served (write_call b) t (done (with_state t s, write_reply (err storage_full))))
      (sym same) (refl, v, (size, full, refl))
stored-Served b t (s, err _) v size h = absurd h

pub write-Served :
    (b : Buffer) (t : MockTier) → IsMock t → Served (write_call b) t (serve (write_call b) t)
unfolding serve write
write-Served b t v =
    if-cases
      (λ (r : Run (MockTier × IoResult ℕ)).
        Served (write_call b) t (r >>= λ (w : MockTier × IoResult ℕ). done (w.0, write_reply w.1)))
      (not (b.size == page_size)) _ _ (λ e. (refl, v, (ground arith, refl)))
      (λ e.
        let size : b.size ≡ page_size = ground arith in
        stored-Served b t (take_offset t.slot_count t.state) v size (
          take_offset-Taken t.slot_count b t.state (omega (arith, v.fits, v.sized)) v.next_le size
            v.state))

pub free-Served : (l : ℕ) (t : MockTier) → IsMock t → Served (free_call l) t (serve (free_call l) t)
unfolding serve free release validate_location
free-Served l t v = elim (Option-cases (get l t.state.pages)) [
  | inl e ↦
      if-cases (λ t'. Served (free_call l) t (done (t', free_reply)))
        (not (l % page_size == 0 && ltb l t.capacity_bytes)) _ _
        (λ c. (refl, v, (e, (λ k d. refl), inl (e, refl), refl)))
        (λ c. rw e (refl, v, (e, (λ k d. refl), inl (refl, refl), refl)))
  | inr (p, e) ↦
      let (aligned, below, size) = v.state.stored l p e in
      let valid : not (l % page_size == 0 && ltb l t.capacity_bytes) ≡ false =
        ground (arith, v.sized, v.next_le) in
      rw (valid, e)
        (
          refl,
          rearmed t
              (record t.state {
                pages = remove l t.state.pages;
                free_slots = l ∷ t.state.free_slots;
              })
              v (release-IsState l t.state p e v.state) v.next_le v.armed,
          (
            get-remove l t.state.pages,
            (λ k d. get-remove_other l k t.state.pages d),
            inr (
              (λ (gone : some p ≡ none). cc),
              length-remove_present l p t.state.pages v.state.keyed e,
            ),
            refl,
          ),
        )
]
