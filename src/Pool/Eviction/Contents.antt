-- ===== src/Pool/Eviction/Contents.antt =====
-- An eviction never loses the bytes of a page.
use tierbuf.Prelude.{
  ℕ, ◌+◌, ◌-◌, ◌≡◌, ◌≢◌, refl, sym, ap, ◌∙◌, subst, inl, inr, ◌⊎◌, Bool-cases, true, false, ◌||◌,
  Option, none, some, List, arith, if-cases, done,
}
use tierbuf.Swip.{SwipState, evicted, SwipInner, decode, is_valid, encode_cooling}
use tierbuf.Swip.Words.{word_of}
use tierbuf.Frame.{evicting, Frame}
use tierbuf.Fault.{BufError}
use tierbuf.Pool.Backend.{TierBackend, ok, err, Location}
use tierbuf.Pool.Eviction.{
  freed, stale, Storage, is_none, Written, write_back, first_tier, undo, retire, published, publish,
  last_or, evict_written, evict_exact,
}
use tierbuf.Pool.Eviction.Settlement.{
  Settled, Only, Replaced, newer, some_path, undo-Settled, retire-Settled,
}
use tierbuf.Pool.Eviction.WriteBack.{At, Keeps, IsNew, write_back-Stores}
use tierbuf.Pool.Eviction.Exchange.{
  IsBacked, IsUnshared, Spares, IsVacant, Resurrects, Evicts, unswizzled, resurrected, cleared,
  releases, unbacked,
}

module _ (T : TierBackend) (count : ℕ) (name : ℕ → List ℕ) (pid resident : ℕ) (page : T.Page) where
  not-Replaced :
      (old new : Option Location) (l : Location)
      → newer T count name pid old new ≡ some l
      → ¬ Replaced T count name pid old new l
  not-Replaced old none l e h = h
  not-Replaced old (some a) l e h = h.1 (some_path T count name pid a l e)

  -- What the storage `s`, after the write, must give for the exchange to keep all pages of `s0`.
  record IsReady (s0 s : Storage T) (f : Frame) (old new : Option Location) : Type 0 where
    directory : s.directory ≡ s0.directory
    was : s0.directory pid ≡ old
    final : (l : Location) × (newer T count name pid old new ≡ some l) × At T s l page
    clean : f.dirty ≡ false → (l : Location) → old ≡ some l → At T s l page
    spared :
        (other : ℕ) (m : Location) (p : T.Page)
        → other ≢ pid
        → s0.directory other ≡ some m
        → At T s0 m p
        → At T s m p × (old ≢ some m) × (new ≢ some m)

  module _ (s0 s : Storage T) (f : Frame) (old new : Option Location)
      (r : IsReady s0 s f old new) where
    spares :
        (s' : Storage T) (here : Option Location) (Lost : Location → Type 0)
        → Settled T count name pid s s' here Lost
        → ((m : Location) → old ≢ some m → new ≢ some m → ¬ Lost m)
        → Spares T pid s0 s'
    spares s' here Lost h none_lost other m p d e held =
        let (there, no_old, no_new) = r.spared other m p d e held in
        (
          h.at_other other d ∙ ap (λ g. g other) r.directory ∙ e,
          h.pages m p (none_lost m no_old no_new) there,
        )

    was_here : s.directory pid ≡ old
    was_here = ap (λ g. g pid) r.directory ∙ r.was

    not_lost :
        (o n : Option Location) (m : Location) → o ≢ some m → ¬ Replaced T count name pid o n m
    not_lost o none m d h = h
    not_lost o (some l) m d h = d h.0

    freed-Evicts :
        (seen : SwipInner) (g : Frame)
        → IsVacant f.generation g
        → seen.word ≡ encode_cooling resident
        → Evicts T pid resident page s0 seen f (
            done (
              retire T count name old new (published T count name pid new s),
              g,
              record seen { word = word_of (evicted pid) },
              ok freed,
            ))
    freed-Evicts seen g vacant cooled =
        let h = retire-Settled T count name pid old new s was_here in
        let (l, e, there) = r.final in
        (
          spares _ _ (Replaced T count name pid old new) h
              (λ m no_old _. not_lost old new m no_old),
          (l, h.at_page ∙ e, h.pages l page (not-Replaced old new l e) there),
          vacant,
          cooled,
          refl,
        )

    stale-Evicts :
        (seen cell : SwipInner)
        → Resurrects resident seen cell
        → seen.word ≢ encode_cooling resident
        → Evicts T pid resident page s0 seen f (
            done (
              undo T count name pid old new (published T count name pid new s),
              record f { pin_control = 0 },
              cell,
              ok stale,
            ))
    stale-Evicts seen cell again other =
        let h = undo-Settled T count name pid old new s was_here in
        (
          (
            spares _ _ (Only T count name pid new old) h (λ m _ no_new lost. no_new lost.0),
            h.at_page ∙ sym r.was,
            refl,
            (λ dirty l e.
                let was_l : old ≡ some l = sym h.at_page ∙ e in
                h.pages l page (λ lost. lost.1 was_l) (r.clean dirty l was_l)),
            again,
          ),
          other,
        )

    publish-Evicts :
        (seen : SwipInner) (state : SwipState)
        → f.pin_control ≡ evicting
        → is_valid pid ≡ true
        → decode seen.word ≡ done state
        → Evicts T pid resident page s0 seen f (publish T count name pid resident old new seen f s)
    unfolding publish
    publish-Evicts seen state pin valid tagged =
        elim (unswizzled resident pid seen state valid tagged) [
          | inl (cooled, e) ↦
              let (g, clears, still, vacant) = cleared (record f { dirty = false }) pin in
              rw (e, clears, releases g.pin_control still)
                (freed-Evicts seen (record g { pin_control = 0 }) vacant cooled)
          | inr (other, e) ↦
              let (cell, res, run, again) = resurrected resident seen state tagged in
              rw (e, run, releases f.pin_control pin) (stale-Evicts seen cell again other)
        ]

  module _ (seen : SwipInner) (state : SwipState) (f : Frame) (s : Storage T)
      (pin : f.pin_control ≡ evicting) (valid : is_valid pid ≡ true)
      (tagged : decode seen.word ≡ done state) (backed : IsBacked T pid page s f)
      (unshared : IsUnshared T pid s) where
    own :
        (old : Option Location)
        → s.directory pid ≡ old
        → (other : ℕ) (m : Location) → other ≢ pid
        → s.directory other ≡ some m
        → old ≢ some m
    own old was other m d e same = unshared other m m d (was ∙ same) e refl

    kept-Evicts :
        (s' : Storage T) (cell : SwipInner) (e : BufError)
        → Keeps T s s'
        → Resurrects resident seen cell
        → (f.dirty ≡ true) ⊎ (s.directory pid ≡ none)
        → Evicts T pid resident page s seen f (done (s', record f { pin_control = 0 }, cell, err e))
    kept-Evicts s' cell e k again need = (
      (
        (λ other l p d there held. (ap (λ h. h other) k.directory ∙ there, k.pages l p held)),
        ap (λ h. h pid) k.directory,
        refl,
        (λ dirty l there.
            k.pages l page (backed dirty l (sym (ap (λ h. h pid) k.directory) ∙ there))),
        again,
      ),
      need,
    )

    written-Evicts :
        (first last : ℕ) (old : Option Location) (w : Written T)
        → s.directory pid ≡ old
        → (f.dirty ≡ false → old ≡ none)
        → Keeps T s w.0 × IsNew T first last page s w.0 w.1
        → Evicts T pid resident page s seen f
            (evict_written T count name pid resident true seen f old w)
    unfolding evict_written
    written-Evicts first last old (s', none, e) was unbacked (k, new) =
        let (cell, res, run, again) = resurrected resident seen state tagged in
        rw (run, releases f.pin_control pin)
          (kept-Evicts s' cell (last_or T count name e) k again (elim (Bool-cases f.dirty) [
            | inl dirty ↦ inl dirty
            | inr clean ↦ inr (was ∙ unbacked clean)
          ]))
    written-Evicts first last old (s', some l, e) was unbacked (k, new) =
        publish-Evicts s s' f old (some l)
          (record {
            directory = k.directory;
            was = was;
            final = (l, refl, new.2);
            clean = λ clean m there. let gone : none ≡ some m = sym (unbacked clean) ∙ there in cc;
            spared = λ other m p d there held. (
              k.pages m p held,
              own old was other m d there,
              (λ same.
                  new.3 p
                    (subst (λ n. At T s n p) (sym (some_path T count name pid l m same)) held)),
            );
          })
          seen state pin valid tagged

    clean-Evicts :
        (old : Option Location)
        → s.directory pid ≡ old
        → f.dirty ≡ false
        → is_none old ≡ false
        → Evicts T pid resident page s seen f
            (evict_written T count name pid resident false seen f old (s, none, none))
    unfolding evict_written
    clean-Evicts none was clean there = let no_way : true ≡ false = there in cc
    clean-Evicts (some l) was clean there =
        publish-Evicts s s f (some l) none
          (record {
            directory = refl;
            was = was;
            final = (l, refl, backed clean l was);
            clean = λ _ m e. backed clean m (was ∙ e);
            spared = λ other m p d e held. (held, own (some l) was other m d e, (λ x. cc));
          })
          seen state pin valid tagged

-- An eviction of a frame that is reserved and whose backing, if it is clean, is its page, with a
-- handle of a valid page whose word decodes, returns and keeps the bytes of every page, however the
-- tiers and the exchange behave. If it freed the frame, the handle cooled there and now names the page
-- as evicted, the frame is vacant, and the directory names a location that holds the page. Else the
-- frame is as it was but unreserved, its backing is as it was, and a handle that cools there is hot
-- again; then the handle had stopped cooling there, or a page that is dirty or has no backing could
-- not be written. Every other page that is stored under its own location stays stored there.
pub evict_exact-Evicts :
    (T : TierBackend) (count : ℕ) (name : ℕ → List ℕ) (pid resident : ℕ) (target : Option ℕ)
    (seen : SwipInner) (state : SwipState) (f : Frame) (page : T.Page) (s : Storage T)
    → f.pin_control ≡ evicting
    → is_valid pid ≡ true
    → decode seen.word ≡ done state
    → IsBacked T pid page s f
    → IsUnshared T pid s
    → Evicts T pid resident page s seen f
        (evict_exact T count name pid resident target seen f page s)
unfolding evict_exact
evict_exact-Evicts T count name pid resident target seen state f page s pin valid tagged backed
      unshared =
    let old = s.directory pid in
    let start = first_tier T count name target in
    if-cases (Evicts T pid resident page s seen f) (f.dirty || is_none old) _ _
      (λ y.
        written-Evicts T count name pid resident page seen state f s pin valid tagged backed
          unshared start (start + (count - start)) old
          (write_back T count name (count - start) start page none s) refl
          (λ clean. unbacked f.dirty old y clean)
          (write_back-Stores T count name page (count - start) start (start + (count - start)) none
            s refl))
      (λ n.
        clean-Evicts T count name pid resident page seen state f s pin valid tagged backed unshared
          old refl (ground arith) (ground arith))
